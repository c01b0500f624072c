-- ===== src/RuntimeApi/Equivocations.antt =====
-- runtime/src/apis.rs, lines 248 to 273 and 301 to 322: proofs that an authority owns its key, and
-- reports of equivocations, of GRANDPA and of BABE, with the types of proofs that
-- runtime/src/configs/mod.rs gives the two pallets.
use testchain.Base.{ℕ, Option, none, some, List, ◌≡◌, refl, ap}
use mathlib.Core.Option.{some-injective}

-- The two implementations of the same API.
pub data Consensus : Type 0 where
  grandpa babe : Consensus

-- `KeyOwnerProof` of GRANDPA: `sp_core::Void`, which has no value.
abbrev GrandpaKeyOwnerProof : Type 0
GrandpaKeyOwnerProof = ⊥

-- `KeyOwnerProof` of BABE: what `Historical` proves with.
abbrev BabeKeyOwnerProof : Type 0 → Type 0
BabeKeyOwnerProof Proof = Proof

-- `KeyOwnerProof` of the pallet to which a report goes.
abbrev pub KeyOwnerProof : Type 0 → Consensus → Type 0
KeyOwnerProof Proof grandpa = GrandpaKeyOwnerProof
KeyOwnerProof Proof babe = BabeKeyOwnerProof Proof

-- `Historical::prove` with the key types, the codec of proofs, and the reports of the pallets.
pub record Offences : Type 1 where
  pub KeyTypeId : Type 0
  pub AuthorityId : Consensus → Type 0
  pub EquivocationProof : Consensus → Type 0
  pub Proof : Type 0
  pub State : Type 0
  pub key_type : Consensus → KeyTypeId
  pub prove : (c : Consensus) → KeyTypeId → AuthorityId c → State → Option Proof
  pub encode : Proof → List ℕ
  pub decode : (c : Consensus) → List ℕ → Option (KeyOwnerProof Proof c)
  pub submit_unsigned_equivocation_report :
      (c : Consensus)
      → EquivocationProof c
      → KeyOwnerProof Proof c
      → State
      → Option (Unit {0}) × State

-- `OpaqueKeyOwnershipProof`
pub record OpaqueKeyOwnershipProof : Type 0 where
  pub bytes : List ℕ

module _ (O : Offences) where
  open O use {
    AuthorityId, EquivocationProof, Proof, State, key_type, prove, encode, decode,
    submit_unsigned_equivocation_report,
  }

  -- `.map(|p| p.encode()).map(OpaqueKeyOwnershipProof::new)`
  abbrev opaque : Option Proof → Option OpaqueKeyOwnershipProof
  opaque none = none
  opaque (some p) = some (record { bytes = encode p })

  -- `generate_key_ownership_proof`; the slot of BABE, or the set of GRANDPA, is not used.
  unfoldable pub generate_key_ownership_proof :
      (c : Consensus) → ℕ → AuthorityId c → State → Option OpaqueKeyOwnershipProof
  generate_key_ownership_proof grandpa set_id authority_id s =
      opaque (prove grandpa (key_type grandpa) authority_id s)
  generate_key_ownership_proof babe slot authority_id s =
      opaque (prove babe (key_type babe) authority_id s)

  -- `key_owner_proof.decode()?`, and the report.
  abbrev report :
      (c : Consensus)
      → EquivocationProof c
      → Option (KeyOwnerProof Proof c)
      → State
      → Option (Unit {0}) × State
  report c equivocation_proof none s = (none, s)
  report c equivocation_proof (some key_owner_proof) s =
      submit_unsigned_equivocation_report c equivocation_proof key_owner_proof s

  -- `submit_report_equivocation_unsigned_extrinsic`
  unfoldable pub submit_report_equivocation_unsigned_extrinsic :
      (c : Consensus)
      → EquivocationProof c
      → OpaqueKeyOwnershipProof
      → State
      → Option (Unit {0}) × State
  submit_report_equivocation_unsigned_extrinsic grandpa equivocation_proof key_owner_proof s =
      report grandpa equivocation_proof (decode grandpa key_owner_proof.bytes) s
  submit_report_equivocation_unsigned_extrinsic babe equivocation_proof key_owner_proof s =
      report babe equivocation_proof (decode babe key_owner_proof.bytes) s

  -- The documented behaviour of the codec, for the proofs of `Historical`.
  pub record IsCodec : Type 0 where
    pub decode-encode : (p : Proof) → decode babe (encode p) ≡ some p

  opaque-bytes :
      (o : Option Proof) (q : OpaqueKeyOwnershipProof)
      → opaque o ≡ some q
      → (p : Proof) × (o ≡ some p) × (encode p ≡ q.bytes)
  opaque-bytes none q h = cc
  opaque-bytes (some p) q h = (p, refl, ap (λ k. k.bytes) (some-injective _ _ h))

  -- What becomes of a report: that of GRANDPA is dropped, that of BABE reaches the pallet.
  abbrev pub reported :
      (c : Consensus) → EquivocationProof c → Proof → State → Option (Unit {0}) × State
  reported grandpa equivocation_proof p s = (none, s)
  reported babe equivocation_proof p s =
      submit_unsigned_equivocation_report babe equivocation_proof p s

  report_void :
      (equivocation_proof : EquivocationProof grandpa) (o : Option (KeyOwnerProof Proof grandpa))
      (s : State)
      → report grandpa equivocation_proof o s ≡ (none, s)
  report_void equivocation_proof none s = refl
  report_void equivocation_proof (some x) s = elim x [ ]

  -- The runtime gives out a proof of ownership where `Historical::prove` has found one for the key type
  -- of that consensus and the authority. Whatever the state by then, a report to BABE that carries it
  -- reaches the pallet with that very proof. A report to GRANDPA that carries it is dropped without
  -- a change of state: the pallet is configured with a type of proofs that has no value.
  pub submit-generate :
      IsCodec
      → (c : Consensus) (number : ℕ) (authority_id : AuthorityId c) (s : State)
        (key_owner_proof : OpaqueKeyOwnershipProof)
      → generate_key_ownership_proof c number authority_id s ≡ some key_owner_proof
      → (p : Proof) × (prove c (key_type c) authority_id s ≡ some p)
        × ((equivocation_proof : EquivocationProof c) (s' : State)
            → submit_report_equivocation_unsigned_extrinsic c equivocation_proof key_owner_proof s'
              ≡ reported c equivocation_proof p s')
  unfolding generate_key_ownership_proof submit_report_equivocation_unsigned_extrinsic
  submit-generate I grandpa number authority_id s q h =
      let (p, found, e) = opaque-bytes (prove grandpa (key_type grandpa) authority_id s) q h in
      (
        p,
        found,
        λ equivocation_proof s'. report_void equivocation_proof (decode grandpa q.bytes) s',
      )
  submit-generate I babe number authority_id s q h =
      let (p, found, e) = opaque-bytes (prove babe (key_type babe) authority_id s) q h in
      (p, found, λ equivocation_proof s'. simp (← e, I.decode-encode p))

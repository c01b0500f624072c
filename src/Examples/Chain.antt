-- ===== src/Examples/Chain.antt =====
-- Pending blocks over lists of transactions, key ownership proofs over numbers, and the digest of a
-- pending block.
use testchain.Base.{map}
use mathlib.Core.List.{append-nil}
use testchain.Base.{
  ℕ, zero, suc, Bool, true, false, Option, none, some, List, [], ◌∷◌, ◌++◌, ◌≡◌, refl, sym, length,
  take, drop, replicate, if◌then◌else◌,
}
use testchain.Base.Result.{ok}
use testchain.RuntimeApi.Calls.{Frontier, ethereum, transact}
use testchain.RuntimeApi.Blocks.{
  Extrinsic, extrinsic_filter, convert_transaction, extrinsic_filter-convert,
}
use testchain.RuntimeApi.Pending.{Chain, IsChain, pending_block, applied, pending_block_lem}
use testchain.RuntimeApi.Equivocations.{
  Consensus, grandpa, babe, KeyOwnerProof, Offences, OpaqueKeyOwnershipProof, IsCodec,
  generate_key_ownership_proof, submit_report_equivocation_unsigned_extrinsic, submit-generate,
}
use testchain.Node.Digest.{Inherent, Error, create_digest, IsBabe, find_author-create_digest}
use testchain.Configs.Author.{Authors, IsSized, find_author}

-- The state is the list of the pending transactions.
abbrev frontier : Frontier
frontier = record {
  Transaction = ℕ;
  OtherEthereumCall = ℕ;
  OtherCall = ℕ;
  SignedInfo = ℕ;
  DispatchInfo = ℕ;
  Validity = ℕ;
  ValidityError = ℕ;
  DispatchResult = ℕ;
  State = List ℕ;
}

-- A signed extrinsic is refused.
abbrev apply : Option ℕ → Extrinsic frontier ℕ → List ℕ → Bool × List ℕ
apply none xt s = (true, s ++ extrinsic_filter frontier ℕ (xt ∷ []))
apply (some n) xt s = (false, s)

abbrev chain : Chain frontier ℕ
chain = record {
  ApplyResult = Bool;
  Block = List ℕ;
  Status = ℕ;
  apply_extrinsic = λ xt s. apply xt.signature xt s;
  block_number = length;
  on_finalize = λ n s. s;
  current_block = λ s. some s;
  current_transaction_statuses = λ s. some s;
}

pending-apply :
    (o : Option ℕ) (xt : Extrinsic frontier ℕ) (s : List ℕ)
    → (apply o xt s).1
      ≡ s ++ (if (apply o xt s).0 then extrinsic_filter frontier ℕ (xt ∷ []) else [])
pending-apply none xt s = refl
pending-apply (some n) xt s = sym (append-nil s)

abbrev chain-IsChain : IsChain frontier ℕ chain
chain-IsChain = record {
  succeeded = λ b. b;
  pending = λ s. s;
  transactions = λ block. block;
  pending-apply = λ xt s. pending-apply xt.signature xt s;
  finalized = λ n s. (s, s, refl, refl, refl, refl);
}

-- Two conversions, with a signed one between them.
abbrev xts : List (Extrinsic frontier ℕ)
xts =
    convert_transaction frontier ℕ 8
    ∷ record { signature = some 1; function = ethereum (transact 5) }
    ∷ convert_transaction frontier ℕ 9
    ∷ []

pending_block_lem_example :
    (block : List ℕ) × (statuses : List ℕ) × ((pending_block frontier ℕ chain xts (3 ∷ [])).0
      ≡ (some block, some statuses))
    × (block
        ≡ (3 ∷ [])
          ++ extrinsic_filter frontier ℕ (applied frontier ℕ chain chain-IsChain xts (3 ∷ [])))
    × (length statuses ≡ length block)
pending_block_lem_example = pending_block_lem frontier ℕ chain chain-IsChain xts (3 ∷ [])

-- Every authority but 0 has a proof, which is its number.
abbrev find : ℕ → Option ℕ
find zero = none
find (suc n) = some (suc n)

abbrev head : List ℕ → Option ℕ
head [] = none
head (x ∷ xs) = some x

abbrev decoded : (c : Consensus) → List ℕ → Option (KeyOwnerProof ℕ c)
decoded grandpa bytes = none
decoded babe bytes = head bytes

abbrev offences : Offences
offences = record {
  KeyTypeId = Consensus;
  AuthorityId = λ c. ℕ;
  EquivocationProof = λ c. ℕ;
  Proof = ℕ;
  State = ℕ;
  key_type = λ c. c;
  prove = λ c k id s. find id;
  encode = λ p. p ∷ [];
  decode = decoded;
  submit_unsigned_equivocation_report = λ c e p s. (some tt, s);
}

offences-IsCodec : IsCodec offences
offences-IsCodec = record { decode-encode = λ p. refl }

abbrev proof : OpaqueKeyOwnershipProof
proof = record { bytes = 4 ∷ [] }

generated : generate_key_ownership_proof offences babe 0 4 1 ≡ some proof
unfolding generate_key_ownership_proof
generated = refl

submit-generate_example :
    (p : ℕ) × (find 4 ≡ some p)
    × ((e s : ℕ)
        → submit_report_equivocation_unsigned_extrinsic offences babe e proof s ≡ (some tt, s))
submit-generate_example = submit-generate offences offences-IsCodec babe 0 4 1 proof generated

-- Digest items are pairs of a slot and an authority.
abbrev inherent : Inherent
inherent = record {
  InherentData = Option ℕ;
  Header = ℕ;
  Slot = ℕ;
  InherentError = Error;
  DigestItem = ℕ × ℕ;
  babe_inherent_data = λ d. ok d;
  application = λ e. e;
  secondary_plain = λ slot i. (slot, i);
}

abbrev author_of : List (ℕ × ℕ) → Option ℕ
author_of [] = none
author_of (x ∷ xs) = some x.1

abbrev authors : Authors
authors = record {
  Digests = List (ℕ × ℕ);
  Public = ℕ;
  H160 = List ℕ;
  authorities = 7 ∷ 8 ∷ [];
  to_raw_vec = replicate 32;
  from_slice = λ bytes. some bytes;
  find_index = author_of;
}

authors-IsSized : IsSized authors
authors-IsSized = record { raw_length = λ public. refl; slice_length = λ bytes h. (bytes, refl) }

authors-IsBabe : IsBabe inherent authors (λ logs. logs)
authors-IsBabe = record { find_index-plain = λ slot i. refl }

digest : create_digest inherent 1 (some 30) ≡ ok ((30, 0) ∷ [])
unfolding create_digest
digest = refl

find_author-create_digest_example :
    (slot : ℕ) × (inherent.babe_inherent_data (some 30) ≡ ok (some slot))
    × (address : List ℕ) × (some (take 20 (drop 4 (replicate 32 7))) ≡ some address)
    × (find_author authors ((30, 0) ∷ []) ≡ some (some address))
find_author-create_digest_example =
    find_author-create_digest inherent authors (λ logs. logs) authors-IsBabe authors-IsSized 7 refl
      1 (some 30) ((30, 0) ∷ []) digest

extrinsic_filter-convert_example :
    extrinsic_filter frontier ℕ (xts ++ (map (convert_transaction frontier ℕ) (6 ∷ 7 ∷ []) ++ xts))
    ≡ extrinsic_filter frontier ℕ xts ++ ((6 ∷ 7 ∷ []) ++ extrinsic_filter frontier ℕ xts)
extrinsic_filter-convert_example = extrinsic_filter-convert frontier ℕ xts xts (6 ∷ 7 ∷ [])

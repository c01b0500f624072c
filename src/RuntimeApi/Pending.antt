-- ===== src/RuntimeApi/Pending.antt =====
-- runtime/src/apis.rs, lines 726 to 739: the block that a list of extrinsics would make.
use testchain.Base.{
  ℕ, ◌+◌, ◌%◌, ◌^◌, ◌≡◌, refl, sym, ap, ◌∙◌, Bool, true, false, Option, some, List, [], ◌∷◌, ◌++◌,
  length, if◌then◌else◌,
}
use mathlib.Core.List.{append-nil, append_assoc}
use testchain.RuntimeApi.Calls.{Frontier}
use testchain.RuntimeApi.Blocks.{Extrinsic, extrinsic_filter, extrinsic_filter-append}

-- `Executive::apply_extrinsic`, `System::block_number`, `Ethereum::on_finalize`, and the storage of
-- `pallet_ethereum` that the source reads.
pub record Chain (F : Frontier) (Signature : Type 0) : Type 1 where
  pub ApplyResult : Type 0
  pub Block : Type 0
  pub Status : Type 0
  pub apply_extrinsic : Extrinsic F Signature → F.State → ApplyResult × F.State
  pub block_number : F.State → ℕ
  pub on_finalize : ℕ → F.State → F.State
  pub current_block : F.State → Option Block
  pub current_transaction_statuses : F.State → Option (List Status)

module _ (F : Frontier) (Signature : Type 0) (X : Chain F Signature) where
  open F use {State, Transaction}
  open X use {
    ApplyResult, Block, Status, apply_extrinsic, block_number, on_finalize, current_block,
    current_transaction_statuses,
  }

  -- The loop, which throws the results away.
  unfoldable pub apply_all : List (Extrinsic F Signature) → State → State
  apply_all [] s = s
  apply_all (ext ∷ xts) s = apply_all xts (apply_extrinsic ext s).1

  -- `pending_block`; the block number is a `u32`.
  unfoldable pub pending_block :
      List (Extrinsic F Signature) → State → (Option Block × Option (List Status)) × State
  pending_block xts s =
      let s₁ = apply_all xts s in
      let s₂ = on_finalize ((block_number s₁ + 1) % 2 ^ 32) s₁ in
      ((current_block s₂, current_transaction_statuses s₂), s₂)

  -- The documented behaviour of `pallet_ethereum`. An extrinsic adds its transaction to those that
  -- are pending where it was applied without an error, and changes nothing among them otherwise; the
  -- block that is made at the end has the pending transactions and a status for each.
  pub record IsChain : Type 0 where
    pub succeeded : ApplyResult → Bool
    pub pending : State → List Transaction
    pub transactions : Block → List Transaction
    pub pending-apply :
        (xt : Extrinsic F Signature) (s : State)
        → pending (apply_extrinsic xt s).1
          ≡ pending s
            ++ (if succeeded (apply_extrinsic xt s).0
                then extrinsic_filter F Signature (xt ∷ [])
                else [])
    pub finalized :
        (n : ℕ) (s : State)
        → (block : Block) × (statuses : List Status) × (current_block (on_finalize n s)
            ≡ some block)
          × (current_transaction_statuses (on_finalize n s) ≡ some statuses)
          × (transactions block ≡ pending s)
          × (length statuses ≡ length (pending s))

  module _ (I : IsChain) where
    open I use {succeeded, pending, transactions}

    -- The extrinsics that are applied without an error, each in the state that those before it leave.
    unfoldable pub applied : List (Extrinsic F Signature) → State → List (Extrinsic F Signature)
    applied [] s = []
    applied (xt ∷ xts) s =
        let (result, s') = apply_extrinsic xt s in
        let rest = applied xts s' in if succeeded result then xt ∷ rest else rest

    filter_if :
        (b : Bool) (xt : Extrinsic F Signature) (rest : List (Extrinsic F Signature))
        → extrinsic_filter F Signature (if b then xt ∷ rest else rest)
          ≡ (if b then extrinsic_filter F Signature (xt ∷ []) else [])
            ++ extrinsic_filter F Signature rest
    filter_if true xt rest = extrinsic_filter-append F Signature (xt ∷ []) rest
    filter_if false xt rest = refl

    pending-apply_all :
        (xts : List (Extrinsic F Signature)) (s : State)
        → pending (apply_all xts s) ≡ pending s ++ extrinsic_filter F Signature (applied xts s)
    unfolding apply_all applied extrinsic_filter
    pending-apply_all [] s = sym (append-nil (pending s))
    pending-apply_all (xt ∷ xts) s =
        let (result, s') = apply_extrinsic xt s in
        simp (
          pending-apply_all xts s',
          I.pending-apply xt s,
          filter_if (succeeded result) xt (applied xts s'),
          append_assoc,
        )

    -- The pending block has the transactions that were pending, and then those of the extrinsics that
    -- were applied without an error, as `extrinsic_filter` finds them, with a status for each.
    pub pending_block_lem :
        (xts : List (Extrinsic F Signature)) (s : State)
        → (block : Block) × (statuses : List Status) × ((pending_block xts s).0
            ≡ (some block, some statuses))
          × (transactions block ≡ pending s ++ extrinsic_filter F Signature (applied xts s))
          × (length statuses ≡ length (transactions block))
    unfolding pending_block
    pending_block_lem xts s =
        let s' = apply_all xts s in
        let (block, statuses, e, f, g, h) = I.finalized ((block_number s' + 1) % 2 ^ 32) s' in
        (block, statuses, rw (e, f), g ∙ pending-apply_all xts s, h ∙ ap length (sym g))

-- ===== src/Weight.antt =====
-- The interface of `Weight` and `RuntimeDbWeight` (crate `sp_weights`), which the runtime and its
-- pallet only call, with the documented behaviour that the theorems rely on.
use testchain.Base.{ℕ, ◌≤◌, ◌≡◌}
use testchain.Base.Words.{u64_max, saturating_add}

pub record WeightOps : Type 1 where
  pub Weight : Type 0
  pub DbWeight : Type 0
  pub from_parts : ℕ → ℕ → Weight
  pub ref_time : Weight → ℕ
  pub proof_size : Weight → ℕ
  pub saturating_add_weight : Weight → Weight → Weight
  pub reads : DbWeight → ℕ → Weight
  pub writes : DbWeight → ℕ → Weight

-- `from_parts` keeps its two `u64` parts, and `saturating_add` saturates in each part.
pub record IsLawful (W : WeightOps) : Type 0 where
  pub ref_time-from_parts :
      (r p : ℕ) → r ≤ u64_max → p ≤ u64_max → W.ref_time (W.from_parts r p) ≡ r
  pub proof_size-from_parts :
      (r p : ℕ) → r ≤ u64_max → p ≤ u64_max → W.proof_size (W.from_parts r p) ≡ p
  pub ref_time-saturating_add :
      (v w : W.Weight)
      → W.ref_time (W.saturating_add_weight v w)
        ≡ saturating_add u64_max (W.ref_time v) (W.ref_time w)
  pub proof_size-saturating_add :
      (v w : W.Weight)
      → W.proof_size (W.saturating_add_weight v w)
        ≡ saturating_add u64_max (W.proof_size v) (W.proof_size w)

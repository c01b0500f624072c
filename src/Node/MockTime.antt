-- ===== src/Node/MockTime.antt =====
-- The mock clock of a sealing node: `MockTimestampInherentDataProvider` of node/src/service.rs. The
-- `u64` of `TIMESTAMP` wraps, as it does in a release build.
use testchain.Base.{
  ℕ, zero, suc, ◌+◌, ◌*◌, ◌%◌, ◌^◌, ◌<◌, some, List, [], ◌∷◌, ◌≡◌, ap, ◌∙◌, arith, get_elem?,
}
use testchain.Constants.{slot_duration}

-- `provide_inherent_data`: the time it puts, which is the new state.
unfoldable pub provide_inherent_data : ℕ → ℕ
provide_inherent_data timestamp = (timestamp + slot_duration) % 2 ^ 64

-- The times of `n` blocks sealed in turn from a state of the clock.
unfoldable pub timestamps : ℕ → ℕ → List ℕ
timestamps zero timestamp = []
timestamps (suc n) timestamp =
    provide_inherent_data timestamp ∷ timestamps n (provide_inherent_data timestamp)

provide-small : (t : ℕ) → t + 6000 < 2 ^ 64 → provide_inherent_data t ≡ t + 6000
unfolding provide_inherent_data
provide-small t h = omega arith

timestamps_from :
    (n t i : ℕ)
    → i < n
    → t + n * 6000 < 2 ^ 64
    → get_elem? (timestamps n t) i ≡ some (t + (i + 1) * 6000)
unfolding timestamps
timestamps_from zero t i h k = absurd (omega (arith, h))
timestamps_from (suc n) t zero h k = rw (provide-small t (omega arith)) (ap some (omega arith))
timestamps_from (suc n) t (suc i) h k =
    let step = provide-small t (omega arith) in
    rw (step, timestamps_from n (t + 6000) i (omega arith) (omega arith)) (ap some (omega arith))

-- Of n blocks sealed in turn on one thread, from its clock at 0, the one with the index i, from 0 on, has the time of
-- i + 1 slots of 6000 milliseconds, as long as n slots fit in a `u64`.
pub timestamps_lem :
    (n i : ℕ) → i < n → n * 6000 < 2 ^ 64 → get_elem? (timestamps n 0) i ≡ some ((i + 1) * 6000)
timestamps_lem n i h k = timestamps_from n 0 i h (omega arith) ∙ ap some (omega arith)

-- ===== src/Template/Weights.antt =====
-- pallets/template/src/weights.rs, and the `#[pallet::weight]` of the two calls.
use testchain.Base.{ℕ, min, ◌+◌, ◌≤◌, arith}
use testchain.Base.Words.{u64_max}
use testchain.Weight.{WeightOps, IsLawful}
use testchain.Template.Calls.{Call, call_do_something, call_cause_error}

module _ (W : WeightOps) where
  open W use {
    Weight, DbWeight, from_parts, ref_time, proof_size, saturating_add_weight, reads, writes,
  }

  -- `trait WeightInfo`
  pub record WeightInfo : Type 0 where
    pub do_something_weight : Weight
    pub cause_error_weight : Weight

module _ (W : WeightOps) where
  open W use {
    Weight, DbWeight, from_parts, ref_time, proof_size, saturating_add_weight, reads, writes,
  }

  -- `impl WeightInfo for SubstrateWeight<T>`, with `T::DbWeight::get()` as an argument.
  unfoldable pub substrate_weight : DbWeight → WeightInfo W
  substrate_weight db_weight = record {
    do_something_weight = saturating_add_weight (from_parts 9_000_000 0) (writes db_weight 1);
    cause_error_weight =
        saturating_add_weight
          (saturating_add_weight (from_parts 6_000_000 1489) (reads db_weight 1))
          (writes db_weight 1);
  }

  -- `impl WeightInfo for ()`, which reads the constant `RocksDbWeight`.
  unfoldable pub unit_weight : DbWeight → WeightInfo W
  unit_weight rocks_db_weight = record {
    do_something_weight = saturating_add_weight (from_parts 9_000_000 0) (writes rocks_db_weight 1);
    cause_error_weight =
        saturating_add_weight
          (saturating_add_weight (from_parts 6_000_000 1489) (reads rocks_db_weight 1))
          (writes rocks_db_weight 1);
  }

  -- `#[pallet::weight(T::WeightInfo::do_something())]` and its like for `cause_error`.
  abbrev pub call_weight : WeightInfo W → Call → Weight
  call_weight info (call_do_something something) = info.do_something_weight
  call_weight info call_cause_error = info.cause_error_weight

-- The least execution time that was measured for a call, and the estimate of its proof.
abbrev pub time_floor : Call → ℕ
time_floor (call_do_something something) = 8_000_000
time_floor call_cause_error = 6_000_000

abbrev pub proof_floor : Call → ℕ
proof_floor (call_do_something something) = 0
proof_floor call_cause_error = 1489

module _ (W : WeightOps) (L : IsLawful W) (db : W.DbWeight) where
  open W use {
    Weight, DbWeight, from_parts, ref_time, proof_size, saturating_add_weight, reads, writes,
  }

  -- Over any database weights, no declared weight wraps round: a call costs at least its measured
  -- execution time (8 and 6 million) and the time of its one storage write, or the largest `u64`, and
  -- `cause_error` accounts for a proof of at least 1489 bytes.
  pub call_weight_bounds :
      (c : Call)
      → (ref_time (call_weight W (substrate_weight W db) c) ≤ u64_max)
        × (min (time_floor c + ref_time (writes db 1)) u64_max
            ≤ ref_time (call_weight W (substrate_weight W db) c))
        × (proof_floor c ≤ proof_size (call_weight W (substrate_weight W db) c))
  unfolding substrate_weight
  call_weight_bounds (call_do_something n) = ground (
    arith,
    L.ref_time-saturating_add (from_parts 9_000_000 0) (writes db 1),
    L.ref_time-from_parts 9_000_000 0 (omega arith) (omega arith),
  )
  call_weight_bounds call_cause_error =
      let first = saturating_add_weight (from_parts 6_000_000 1489) (reads db 1) in
      ground (
        arith,
        L.ref_time-saturating_add first (writes db 1),
        L.ref_time-saturating_add (from_parts 6_000_000 1489) (reads db 1),
        L.ref_time-from_parts 6_000_000 1489 (omega arith) (omega arith),
        L.proof_size-saturating_add first (writes db 1),
        L.proof_size-saturating_add (from_parts 6_000_000 1489) (reads db 1),
        L.proof_size-from_parts 6_000_000 1489 (omega arith) (omega arith),
      )

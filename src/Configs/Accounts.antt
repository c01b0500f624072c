-- ===== src/Configs/Accounts.antt =====
-- The treasury and the issuance over any course of losses, by the settings of
-- runtime/src/configs/mod.rs.
use testchain.Base.{ℕ, ◌+◌, ◌-◌, ◌≤◌, ◌≡◌, Bool, Option, none, some, List, [], ◌∷◌, arith}
use testchain.Base.Words.{u128_max}
use testchain.Configs.Wiring.{settings}
use testchain.Configs.Imbalances.{
  Handler, drops, collects, Loss, staking_slash, reward_remainder, democracy_slash, lost_candidacy,
  kicked_member, rejected_solution, dust, fee, babe_equivocation, grandpa_equivocation,
  unresponsiveness, handler_of,
}

-- The handlers of the two crates, on the state of the chain.
pub record Money : Type 1 where
  pub State : Type 0
  pub drop_imbalance : ℕ → State → State
  pub treasury_on_unbalanced : ℕ → State → State

-- What a pallet hands to its handler: of a slash in staking, and so of an offence, what is left once the
-- reporters have their share (`slashRewardFraction` of node/src/chain_spec.rs), else the whole.
abbrev pub handed : Loss → ℕ → ℕ → ℕ
handed staking_slash n reward = n - reward
handed babe_equivocation n reward = n - reward
handed grandpa_equivocation n reward = n - reward
handed unresponsiveness n reward = n - reward
handed loss n reward = n

module _ (M : Money) where
  -- A handler on an amount; without one nothing happens.
  abbrev handle : Option Handler → ℕ → M.State → M.State
  handle none n s = s
  handle (some drops) n s = M.drop_imbalance n s
  handle (some collects) n s = M.treasury_on_unbalanced n s

  -- A course of losses, each with its amount and with what of it goes to those who reported it.
  abbrev pub run : Bool → List (Loss × ℕ × ℕ) → M.State → M.State
  run benchmarks [] s = s
  run benchmarks ((loss, n, reward) ∷ losses) s =
      run benchmarks losses (handle (handler_of benchmarks loss) (handed loss n reward) s)

  -- The documented behaviour: what is dropped leaves the issuance, which stops at 0, and what the
  -- treasury collects is in its pot, while that stays a `u128`.
  pub record IsMoney : Type 0 where
    pub pot : M.State → ℕ
    pub issuance : M.State → ℕ
    pub pot-drop : (n : ℕ) (s : M.State) → pot (M.drop_imbalance n s) ≡ pot s
    pub issuance-drop : (n : ℕ) (s : M.State) → issuance (M.drop_imbalance n s) ≡ issuance s - n
    pub pot-collect :
        (n : ℕ) (s : M.State)
        → pot s + n ≤ u128_max
        → pot (M.treasury_on_unbalanced n s) ≡ pot s + n
    pub issuance-collect :
        (n : ℕ) (s : M.State) → issuance (M.treasury_on_unbalanced n s) ≡ issuance s

-- What is to reach the treasury: the slashes of staking and those for what BABE and the heartbeats
-- report, less the share of the reporters, the slashes of democracy, and what is left of rewards.
abbrev pub to_treasury : Loss → ℕ → ℕ → ℕ
to_treasury staking_slash n reward = n - reward
to_treasury reward_remainder n reward = n
to_treasury democracy_slash n reward = n
to_treasury babe_equivocation n reward = n - reward
to_treasury unresponsiveness n reward = n - reward
to_treasury loss n reward = 0

-- What is to leave the issuance: forfeited bonds, dust and fees.
abbrev pub burnt : Loss → ℕ → ℕ → ℕ
burnt lost_candidacy n reward = n
burnt kicked_member n reward = n
burnt rejected_solution n reward = n
burnt dust n reward = n
burnt fee n reward = n
burnt loss n reward = 0

abbrev pub total : (Loss → ℕ → ℕ → ℕ) → List (Loss × ℕ × ℕ) → ℕ
total f [] = 0
total f ((loss, n, reward) ∷ losses) = f loss n reward + total f losses

module _ (M : Money) (I : IsMoney M) where
  -- A step adds to the pot and takes from the issuance.
  abbrev Moves : M.State → ℕ → ℕ → M.State → Type 0
  Moves s gain burn s' = (I.pot s' ≡ I.pot s + gain) × (I.issuance s' ≡ I.issuance s - burn)

  collects-Moves :
      (n : ℕ) (s : M.State) → I.pot s + n ≤ u128_max → Moves s n 0 (M.treasury_on_unbalanced n s)
  collects-Moves n s h = (I.pot-collect n s h, omega (arith, I.issuance-collect n s))

  drops-Moves : (n : ℕ) (s : M.State) → Moves s 0 n (M.drop_imbalance n s)
  drops-Moves n s = (omega (arith, I.pot-drop n s), I.issuance-drop n s)

  handle-Moves :
      (benchmarks : Bool) (loss : Loss) (n reward : ℕ) (s : M.State)
      → I.pot s + to_treasury loss n reward ≤ u128_max
      → Moves s
          (to_treasury loss n reward)
          (burnt loss n reward)
          (handle M (handler_of benchmarks loss) (handed loss n reward) s)
  unfolding handler_of settings
  handle-Moves benchmarks staking_slash n reward s h = collects-Moves (n - reward) s h
  handle-Moves benchmarks reward_remainder n reward s h = collects-Moves n s h
  handle-Moves benchmarks democracy_slash n reward s h = collects-Moves n s h
  handle-Moves benchmarks babe_equivocation n reward s h = collects-Moves (n - reward) s h
  handle-Moves benchmarks unresponsiveness n reward s h = collects-Moves (n - reward) s h
  handle-Moves benchmarks lost_candidacy n reward s h = drops-Moves n s
  handle-Moves benchmarks kicked_member n reward s h = drops-Moves n s
  handle-Moves benchmarks rejected_solution n reward s h = drops-Moves n s
  handle-Moves benchmarks dust n reward s h = drops-Moves n s
  handle-Moves benchmarks fee n reward s h = drops-Moves n s
  handle-Moves benchmarks grandpa_equivocation n reward s h = (omega arith, omega arith)

  -- Over any course of losses the treasury's pot grows by exactly the slashes of staking and those for
  -- equivocations in BABE and for missing heartbeats, each less what its reporters are paid of it, the
  -- slashes of democracy, and what is left of an era's rewards; and the issuance shrinks by exactly the
  -- bonds that are forfeited in elections, the dust and the fees. An equivocation in GRANDPA costs
  -- nothing. The pot is to stay a u128.
  pub run-Moves :
      (benchmarks : Bool) (losses : List (Loss × ℕ × ℕ)) (s : M.State)
      → I.pot s + total to_treasury losses ≤ u128_max
      → (I.pot (run M benchmarks losses s) ≡ I.pot s + total to_treasury losses)
        × (I.issuance (run M benchmarks losses s) ≡ I.issuance s - total burnt losses)
  run-Moves benchmarks [] s h = (omega arith, omega arith)
  run-Moves benchmarks ((loss, n, reward) ∷ losses) s h =
      let s' = handle M (handler_of benchmarks loss) (handed loss n reward) s in
      let step = handle-Moves benchmarks loss n reward s (omega (arith, h)) in
      let rest = run-Moves benchmarks losses s' (omega (arith, h, step.0)) in
      (omega (arith, rest.0, step.0), omega (arith, rest.1, step.1))

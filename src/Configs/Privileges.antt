-- ===== src/Configs/Privileges.antt =====
-- The governing origins of runtime/src/configs/mod.rs, compared.
use testchain.Base.{
  ℕ, ◌≤◌, ◌<◌, ◌≡◌, refl, sym, ◌∙◌, Bool, true, false, ◌||◌, not, Option, none, some, arith,
}
use testchain.Configs.Origins.{
  council, technical, Ensure, root_or_half_council, treasury_reject, staking_admin, pools_admin,
  fast_unstake_control, external, external_majority, external_default, fast_track, instant,
  cancellation, cancel_proposal, reaches, exceeds, IsCollective,
}

-- A proportion of all is every lower proportion.
reaches_ladder :
    (v : Option (ℕ × ℕ))
    → reaches 1 1 v ≡ true
    → (reaches 3 4 v ≡ true) × (reaches 2 3 v ≡ true) × (reaches 1 2 v ≡ true)
reaches_ladder none h = absurd (cc)
reaches_ladder (some (ayes, seats)) h = ground arith

exceeds_half :
    (v : Option (ℕ × ℕ))
    → reaches 3 4 v ≡ true
    → ((ayes seats : ℕ) → v ≡ some (ayes, seats) → (0 < seats) × (ayes ≤ seats))
    → exceeds 1 2 v ≡ true
exceeds_half none h k = h
exceeds_half (some (ayes, seats)) h k = let b = (k ayes seats refl).0 in ground arith

or_lem : (a b : Bool) → b ≡ true → (a || b) ≡ true
or_lem true b h = refl
or_lem false b h = h

or_map : (a b c : Bool) → (a || b) ≡ true → (b ≡ true → c ≡ true) → (a || c) ≡ true
or_map true b c h k = refl
or_map false b c h k = k h

external_ladder :
    (S : Ensure) (C : IsCollective S) (o : S.Origin)
    → external_default S o ≡ true
    → (external_majority S o ≡ true) × (cancellation S o ≡ true) × (external S o ≡ true)
unfolding external_default external_majority cancellation external
external_ladder S C o h =
    let all = reaches_ladder (C.members council o) (sym (C.at_least_lem council 1 1 o) ∙ h) in
    (
      C.at_least_lem council 3 4 o ∙ all.0,
      C.at_least_lem council 2 3 o ∙ all.1,
      C.at_least_lem council 1 2 o ∙ all.2,
    )

instant_ladder :
    (S : Ensure) (C : IsCollective S) (o : S.Origin)
    → instant S o ≡ true
    → (fast_track S o ≡ true) × (cancel_proposal S o ≡ true) × (fast_unstake_control S o ≡ true)
unfolding instant fast_track cancel_proposal fast_unstake_control
instant_ladder S C o h =
    let all = reaches_ladder (C.members technical o) (sym (C.at_least_lem technical 1 1 o) ∙ h) in
    (C.at_least_lem technical 2 3 o ∙ all.1, or_lem (S.root o) _ h, or_lem (S.root o) _ h)

staking_admin_ladder :
    (S : Ensure) (C : IsCollective S) (o : S.Origin)
    → staking_admin S o ≡ true
    → (pools_admin S o ≡ true) × (root_or_half_council S o ≡ true) × (treasury_reject S o ≡ true)
unfolding staking_admin pools_admin root_or_half_council treasury_reject
staking_admin_ladder S C o h =
    let half : (S.root o || S.more_than council 1 2 o) ≡ true = or_map (S.root o) _ _ h (λ k.
      C.more_than_lem council 1 2 o
      ∙ exceeds_half (C.members council o) (sym (C.at_least_lem council 3 4 o) ∙ k)
          (C.seats_lem council o)) in
    (h, half, half)

-- `a` only where `b`.
abbrev pub only_where : Bool → Bool → Bool
only_where a b = not a || b

only_where_lem : (a b : Bool) → (a ≡ true → b ≡ true) → only_where a b ≡ true
only_where_lem true b h = h refl
only_where_lem false b h = refl

-- The origins that govern the pallets include each other. Who can have the next referendum be
-- default-carries can have it be majority-carries, can cancel a referendum and can decide the next
-- motion. Who can table a vote at once can fast-track it, can cancel a proposal and controls fast
-- unstake. An administrator of staking is one of the pools, governs the memberships and may reject a
-- treasury proposal.
origins_ladder :
    (S : Ensure) (C : IsCollective S) (o : S.Origin)
    → (only_where (external_default S o) (external_majority S o) ≡ true)
      × (only_where (external_default S o) (cancellation S o) ≡ true)
      × (only_where (external_default S o) (external S o) ≡ true)
      × (only_where (instant S o) (fast_track S o) ≡ true)
      × (only_where (instant S o) (cancel_proposal S o) ≡ true)
      × (only_where (instant S o) (fast_unstake_control S o) ≡ true)
      × (only_where (staking_admin S o) (pools_admin S o) ≡ true)
      × (only_where (staking_admin S o) (root_or_half_council S o) ≡ true)
      × (only_where (staking_admin S o) (treasury_reject S o) ≡ true)
origins_ladder S C o = (
  only_where_lem _ _ (λ h. (external_ladder S C o h).0),
  only_where_lem _ _ (λ h. (external_ladder S C o h).1),
  only_where_lem _ _ (λ h. (external_ladder S C o h).2),
  only_where_lem _ _ (λ h. (instant_ladder S C o h).0),
  only_where_lem _ _ (λ h. (instant_ladder S C o h).1),
  only_where_lem _ _ (λ h. (instant_ladder S C o h).2),
  only_where_lem _ _ (λ h. (staking_admin_ladder S C o h).0),
  only_where_lem _ _ (λ h. (staking_admin_ladder S C o h).1),
  only_where_lem _ _ (λ h. (staking_admin_ladder S C o h).2),
)

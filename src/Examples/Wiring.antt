-- ===== src/Examples/Wiring.antt =====
-- Origins of two kinds at the settings of democracy, money as a pot and an issuance, and hooks that
-- note their pallets.
use testchain.Base.{
  if◌then◌else◌, ◌==◌, ==_iff, ◌≢◌, ap, ℕ, ◌+◌, ◌-◌, ◌≤◌, ◌<◌, Bool, true, false, some, List, [],
  ◌∷◌, ◌≡◌, refl, arith,
}
use testchain.Pallets.{
  Pallet, democracy, authorship, session, staking, im_online, pallet_index, pallet_index-injective,
}
use testchain.Pallets.Hooks.{on_initialize_all, run_hooks}
use testchain.Pallets.Authoring.{Blocks, IsAuthoring, initialize-note_author, event_handlers}
use testchain.Configs.Origins.{
  council, technical, Collective, Ensure, IsCollective, reaches, exceeds,
}
use testchain.Configs.Governance.{EnsureOne}
use testchain.Configs.Minorities.{
  Kind, signed_kind, members_kind, is_root, is_signed, is_member, votes, IsRawOrigin,
}
use testchain.Configs.Settings.{Setting, named, number, ◌$◌, lookup}
use testchain.Configs.Wiring.{settings}
use testchain.Configs.Checks.{at_least_check, passes}
use testchain.Configs.Strength.{settings-is_minority}
use testchain.Configs.Imbalances.{Loss, staking_slash, babe_equivocation, grandpa_equivocation, fee}
use testchain.Configs.Accounts.{Money, IsMoney, run, run-Moves}

-- Two origins: an account, and three of seven members of the council.
abbrev kind : Bool → Kind
kind false = signed_kind
kind true = members_kind council 3 7

abbrev checks : Ensure
checks = record {
  Origin = Bool;
  root = λ o. is_root (kind o);
  at_least = λ c n d o. reaches n d (votes c (kind o));
  more_than = λ c n d o. exceeds n d (votes c (kind o));
}

seats :
    (c : Collective) (o : Bool) (ayes seats : ℕ)
    → votes c (kind o) ≡ some (ayes, seats)
    → (0 < seats) × (ayes ≤ seats)
seats council false ayes n h = ground arith
seats council true ayes n h = ground arith
seats technical false ayes n h = ground arith
seats technical true ayes n h = ground arith

checks-IsCollective : IsCollective checks
checks-IsCollective = record {
  members = λ c o. votes c (kind o);
  at_least_lem = λ c n d o. refl;
  more_than_lem = λ c n d o. refl;
  seats_lem = seats;
}

abbrev checks_of_one : EnsureOne checks
checks_of_one = record { signed = λ o. is_signed (kind o); member = λ c o. is_member c (kind o) }

abbrev checks-IsRawOrigin : IsRawOrigin checks checks-IsCollective checks_of_one
unfolding checks-IsCollective
checks-IsRawOrigin = record {
  kind = kind;
  root_lem = λ o. refl;
  signed_lem = λ o. refl;
  member_lem = λ c o. refl;
  members_lem = λ c o. refl;
}

abbrev fast_track_setting : Setting
fast_track_setting =
    named "pallet_collective::EnsureProportionAtLeast"
    $ named "AccountId"
    $ named "TechnicalCollective"
    $ number 2
    $ number 3

found : lookup "FastTrackOrigin" (settings true democracy) ≡ some fast_track_setting
unfolding settings
found = refl

settings-is_minority_example :
    passes checks checks_of_one (at_least_check technical 2 3) true ≡ false
unfolding checks-IsRawOrigin
settings-is_minority_example =
    settings-is_minority checks checks-IsCollective checks_of_one checks-IsRawOrigin true democracy
      "FastTrackOrigin" fast_track_setting (at_least_check technical 2 3) true found refl refl refl

-- The pot and the issuance.
abbrev money : Money
money = record {
  State = ℕ × ℕ;
  drop_imbalance = λ n s. (s.0, s.1 - n);
  treasury_on_unbalanced = λ n s. (s.0 + n, s.1);
}

money-IsMoney : IsMoney money
money-IsMoney = record {
  pot = λ s. s.0;
  issuance = λ s. s.1;
  pot-drop = λ n s. refl;
  issuance-drop = λ n s. refl;
  pot-collect = λ n s h. refl;
  issuance-collect = λ n s. refl;
}

-- Of the slashes of 10 and 20, reporters are paid 1 and 0.
abbrev losses : List (Loss × ℕ × ℕ)
losses =
    (staking_slash, 10, 1)
    ∷ (fee, 3, 0)
    ∷ (grandpa_equivocation, 50, 2)
    ∷ (babe_equivocation, 20, 0)
    ∷ []

run-Moves_example :
    ((run money true losses (5, 100)).0 ≡ 34) × ((run money true losses (5, 100)).1 ≡ 97)
unfolding money-IsMoney
run-Moves_example = run-Moves money money-IsMoney true losses (5, 100) (omega arith)

-- The session, the author and the notes of each pallet.
abbrev ChainState : Type 0
ChainState = ℕ × ℕ × (Pallet → List (ℕ × ℕ))

abbrev noting : Pallet → ℕ → ChainState → ChainState
noting p a (n, b, notes) =
    (n, b, λ q. if pallet_index p == pallet_index q then (n, a) ∷ notes q else notes q)

abbrev hook_of : Pallet → ChainState → ChainState
hook_of authorship s = noting im_online s.1 (noting staking s.1 s)
hook_of session s = (s.0 + 1, s.1, s.2)
hook_of p s = s

abbrev blocks : Blocks
blocks = record {
  State = ChainState;
  Author = ℕ;
  hook = hook_of;
  author = λ s. some s.1;
  note_author = noting;
}

index-differs : (p q : Pallet) → p ≢ q → (pallet_index p == pallet_index q) ≡ false
index-differs p q h =
    ground (arith, ==_iff (pallet_index p) (pallet_index q), pallet_index-injective p q, h)

index-same : (p : Pallet) → (pallet_index p == pallet_index p) ≡ true
index-same p = ground arith

others_rest : (p : Pallet) (s : ChainState) → p ≢ authorship → p ≢ session → hook_of p s ≡ s
others_rest authorship s h k = absurd (h refl)
others_rest session s h k = absurd (k refl)
others_rest _ s h k = refl

blocks-IsAuthoring : IsAuthoring blocks
unfolding event_handlers
blocks-IsAuthoring = record {
  session_index = λ s. s.0;
  notes = λ p s. s.2 p;
  authorship_hook = λ s. refl;
  note_lem = λ p a s. rw (index-same p);
  note_others = λ p q a s h. rw (index-differs p q h);
  note_session = λ p a s. refl;
  quiet = λ p s h k.
      let same = others_rest p s h k in
      (
        ap (λ (t : ChainState). t.0) same,
        ap (λ (t : ChainState). some t.1) same,
        λ q. ap (λ (t : ChainState). t.2 q) same,
      );
}

abbrev start : ChainState
start = (6, 42, λ p. [])

initialize-note_author_example :
    (zs : List Pallet) × (s : ChainState) × (on_initialize_all hook_of start
      ≡ run_hooks hook_of zs (hook_of session s))
    × (s.0 ≡ 6)
    × (s.2 staking ≡ (6, 42) ∷ [])
    × (s.2 im_online ≡ (6, 42) ∷ [])
unfolding blocks-IsAuthoring
initialize-note_author_example = initialize-note_author blocks blocks-IsAuthoring start 42 refl

-- ===== src/Configs/Strength.antt =====
-- How strong the origin checks of runtime/src/configs/mod.rs are, over all its settings.
use native.Mathlib.Nat.{mul-le-mul}
use text.Mathlib.Text.{◌==◌ as str_eq}
use testchain.Base.{
  ℕ, ◌+◌, ◌*◌, ◌≤◌, ◌≡◌, refl, ◌∙◌, Bool, true, false, ◌&&◌, ◌||◌, Option, none, some, String, leb,
  ltb, ◌<◌, ltb→lt, leb→le, arith,
}
use testchain.Pallets.{Pallet}
use testchain.Configs.Settings.{Setting, lookup}
use testchain.Configs.Wiring.{settings, every_true, all_settings, all_settings-lookup}
use testchain.Configs.Checks.{
  Check, root_check, signed_check, member_check, at_least_check, more_than_check, either, passes,
  check, resolve, ensure_root_or_half_council,
}
use testchain.Configs.Origins.{
  Collective, council, technical, Ensure, IsCollective, reaches, exceeds,
}
use testchain.Configs.Governance.{EnsureOne}
use testchain.Configs.Minorities.{
  Kind, root_kind, signed_kind, other_kind, member_kind, members_kind, is_minority, votes,
  IsRawOrigin, is_root-is_minority,
}

-- A check that asks for root, or for half of a collective at least.
abbrev pub is_strong : Check → Bool
is_strong root_check = true
is_strong signed_check = false
is_strong (member_check c) = false
is_strong (at_least_check c n d) = leb 1 d && leb d (2 * n)
is_strong (more_than_check c n d) = leb d (2 * n)
is_strong (either a b) = is_strong a && is_strong b

half : (n d ayes seats : ℕ) → 2 * ayes < seats → d ≤ 2 * n → d * (2 * ayes + 1) ≤ 2 * n * seats
half n d ayes seats h k = mul-le-mul k (omega (arith, h))

few-reaches :
    (n d ayes seats : ℕ)
    → ltb (2 * ayes) seats ≡ true
    → (leb 1 d && leb d (2 * n)) ≡ true
    → leb (n * seats) (ayes * d) ≡ false
few-reaches n d ayes seats h k =
    let bounds : (1 ≤ d) × (d ≤ 2 * n) = (ground arith, ground arith) in
    ground (arith, half n d ayes seats (ltb→lt (2 * ayes) seats h) bounds.1, bounds.0)

few-exceeds :
    (n d ayes seats : ℕ)
    → ltb (2 * ayes) seats ≡ true
    → leb d (2 * n) ≡ true
    → ltb (n * seats) (ayes * d) ≡ false
few-exceeds n d ayes seats h k =
    ground (arith, half n d ayes seats (ltb→lt (2 * ayes) seats h) (leb→le d (2 * n) k))

-- No vote, or that of less than half.
abbrev is_few : Option (ℕ × ℕ) → Bool
is_few none = true
is_few (some (ayes, seats)) = ltb (2 * ayes) seats

reaches-is_few :
    (n d : ℕ) (v : Option (ℕ × ℕ))
    → is_few v ≡ true
    → (leb 1 d && leb d (2 * n)) ≡ true
    → reaches n d v ≡ false
reaches-is_few n d none h k = refl
reaches-is_few n d (some (ayes, seats)) h k = few-reaches n d ayes seats h k

exceeds-is_few :
    (n d : ℕ) (v : Option (ℕ × ℕ)) → is_few v ≡ true → leb d (2 * n) ≡ true → exceeds n d v ≡ false
exceeds-is_few n d none h k = refl
exceeds-is_few n d (some (ayes, seats)) h k = few-exceeds n d ayes seats h k

votes-is_few : (c : Collective) (k : Kind) → is_minority k ≡ true → is_few (votes c k) ≡ true
votes-is_few council (members_kind council ayes seats) h = h
votes-is_few technical (members_kind technical ayes seats) h = h
votes-is_few council (members_kind technical ayes seats) h = refl
votes-is_few technical (members_kind council ayes seats) h = refl
votes-is_few council root_kind h = refl
votes-is_few council signed_kind h = refl
votes-is_few council other_kind h = refl
votes-is_few council (member_kind c) h = refl
votes-is_few technical root_kind h = refl
votes-is_few technical signed_kind h = refl
votes-is_few technical other_kind h = refl
votes-is_few technical (member_kind c) h = refl

-- The keys whose checks are open to one account or one member.
abbrev pub is_open_key : String → Bool
is_open_key key =
    str_eq key "SubmitOrigin"
    || str_eq key "VetoOrigin"
    || str_eq key "UploadOrigin"
    || str_eq key "InstantiateOrigin"

abbrev strong_if_check : Option Check → Bool
strong_if_check none = true
strong_if_check (some c) = is_strong c

abbrev test : String → Setting → Bool
test key s = is_open_key key || strong_if_check (check (resolve s))

tested : (benchmarks : Bool) (p : Pallet) → all_settings test (settings benchmarks p) ≡ true
unfolding settings ensure_root_or_half_council
tested true = every_true (λ p. all_settings test (settings true p)) refl
tested false = every_true (λ p. all_settings test (settings false p)) refl

module _ (S : Ensure) (C : IsCollective S) (E : EnsureOne S) (I : IsRawOrigin S C E) where
  strong-is_minority :
      (c : Check) (o : S.Origin)
      → is_minority (I.kind o) ≡ true
      → is_strong c ≡ true
      → passes S E c o ≡ false
  strong-is_minority root_check o h k = I.root_lem o ∙ is_root-is_minority (I.kind o) h
  strong-is_minority (at_least_check c n d) o h k =
      C.at_least_lem c n d o
      ∙ rw (I.members_lem c o)
          (reaches-is_few n d (votes c (I.kind o)) (votes-is_few c (I.kind o) h) k)
  strong-is_minority (more_than_check c n d) o h k =
      C.more_than_lem c n d o
      ∙ rw (I.members_lem c o)
          (exceeds-is_few n d (votes c (I.kind o)) (votes-is_few c (I.kind o) h) k)
  strong-is_minority (either a b) o h k =
      ground (arith, strong-is_minority a o h, strong-is_minority b o h)
  strong-is_minority signed_check o h k = absurd (cc)
  strong-is_minority (member_check c) o h k = absurd (cc)

  -- No minority governs. Whatever the pallet and the setting of its configuration, in builds with and
  -- without benchmarks: if the setting is an origin check, an account by itself, one member of a
  -- collective, and less than half of a collective do not pass it, but for the settings that are open
  -- to single accounts (submitting a proposal, the technical veto, uploading and making contracts).
  pub settings-is_minority :
      (benchmarks : Bool) (p : Pallet) (key : String) (s : Setting) (c : Check) (o : S.Origin)
      → lookup key (settings benchmarks p) ≡ some s
      → check (resolve s) ≡ some c
      → is_open_key key ≡ false
      → is_minority (I.kind o) ≡ true
      → passes S E c o ≡ false
  settings-is_minority benchmarks p key s c o found meant closed minority =
      let t = all_settings-lookup test (settings benchmarks p) key s (tested benchmarks p) found in
      strong-is_minority c o minority (cc (t, closed, meant))

-- ===== src/Configs/Checks.antt =====
-- The origin checks among the settings of runtime/src/configs/mod.rs, read from the types that are
-- written there by the documented meaning of their combinators.
use text.Mathlib.Text.{◌==◌ as str_eq}
use testchain.Base.{ℕ, Bool, ◌||◌, Option, none, some, String, if◌then◌else◌}
use testchain.Configs.Origins.{Collective, council, technical, Ensure}
use testchain.Configs.Governance.{EnsureOne}
use testchain.Configs.Settings.{Setting, named, number, ◌$◌}

-- A check by its parts.
pub data Check : Type 0 where
  root_check signed_check : Check
  member_check : Collective → Check
  at_least_check more_than_check : Collective → ℕ → ℕ → Check
  either : Check → Check → Check

-- What a check lets pass.
abbrev pub passes : (S : Ensure) → EnsureOne S → Check → S.Origin → Bool
passes S E root_check o = S.root o
passes S E signed_check o = E.signed o
passes S E (member_check c) o = E.member c o
passes S E (at_least_check c n d) o = S.at_least c n d o
passes S E (more_than_check c n d) o = S.more_than c n d o
passes S E (either a b) o = passes S E a o || passes S E b o

-- The collectives' instances, by the names of their aliases.
abbrev collective : Setting → Option Collective
collective (named n) =
    if str_eq n "CouncilCollective"
    then some council
    else if str_eq n "TechnicalCollective"
    then some technical
    else none
collective s = none

abbrev map2 : {A B C : Type 0} → (A → B → C) → Option A → Option B → Option C
map2 f none b = none
map2 f (some a) none = none
map2 f (some a) (some b) = some (f a b)

abbrev map1 : {A B : Type 0} → (A → B) → Option A → Option B
map1 f none = none
map1 f (some a) = some (f a)

-- `EnsureRootOrHalfCouncil`
unfoldable pub ensure_root_or_half_council : Setting
ensure_root_or_half_council =
    named "EitherOfDiverse"
    $ (named "EnsureRoot" $ named "AccountId")
    $ (named "pallet_collective::EnsureProportionMoreThan"
        $ named "AccountId"
        $ named "CouncilCollective"
        $ number 1
        $ number 2)

abbrev proportion : String → Option Collective → ℕ → ℕ → Option Check
proportion name c n d =
    if str_eq name "pallet_collective::EnsureProportionAtLeast"
    then map1 (λ c. at_least_check c n d) c
    else if str_eq name "pallet_collective::EnsureProportionMoreThan"
    then map1 (λ c. more_than_check c n d) c
    else none

-- The check that a type stands for, where it is one.
abbrev pub check : Setting → Option Check
check (named n $ a) =
    if str_eq n "EnsureRoot"
    then some root_check
    else if str_eq n "EnsureSigned"
    then some signed_check
    else none
check (named n $ a $ b) =
    let left = check a in
    let right = check b in
    if str_eq n "EitherOfDiverse"
    then map2 either left right
    else if str_eq n "pallet_collective::EnsureMember"
    then map1 member_check (collective b)
    else none
check (named n $ a $ b $ c) =
    let inner = check a in if str_eq n "EnsureWithSuccess" then inner else none
check (named n $ a $ c $ number x $ number y) = proportion n (collective c) x y
check s = none

-- An alias for its type.
abbrev pub resolve : Setting → Setting
resolve (named n) =
    if str_eq n "EnsureRootOrHalfCouncil" then ensure_root_or_half_council else named n
resolve s = s

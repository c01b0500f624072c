-- ===== src/VoterBags/Order.antt =====
-- The thresholds of runtime/src/configs/voter_bags.rs and the bags between them.
use testchain.Base.{
  ℕ, zero, suc, ◌+◌, ◌*◌, ◌^◌, ◌≤◌, ◌<◌, Bool, true, ◌&&◌, some, List, [], ◌∷◌, ◌≡◌, refl, sym, ◌∙◌,
  get_elem?, ltb, leb, dec_lt, dec_le, arith,
}
use mathlib.Core.Path.{subst}
use mathlib.Core.Option.{some-injective}
use testchain.Base.Words.{u64_max}
use testchain.VoterBags.Thresholds.{constant_ratio, thresholds}

-- A test of every two neighbours in a list.
neighbours : (ℕ → ℕ → Bool) → List ℕ → Bool
neighbours test [] = true
neighbours test (x ∷ []) = true
neighbours test (x ∷ y ∷ xs) = test x y && neighbours test (y ∷ xs)

neighbours_sound :
    (test : ℕ → ℕ → Bool) (xs : List ℕ) (i : ℕ) (a b : ℕ)
    → neighbours test xs ≡ true
    → get_elem? xs i ≡ some a
    → get_elem? xs (suc i) ≡ some b
    → test a b ≡ true
unfolding neighbours
neighbours_sound test [] i a b h p q = cc
neighbours_sound test (x ∷ []) i a b h p q = cc
neighbours_sound test (x ∷ y ∷ xs) zero a b h p q = ground arith
neighbours_sound test (x ∷ y ∷ xs) (suc i) a b h p q =
    neighbours_sound test (y ∷ xs) i a b (ground arith) p q

neighbours-tail :
    (test : ℕ → ℕ → Bool) (x : ℕ) (xs : List ℕ)
    → neighbours test (x ∷ xs) ≡ true
    → neighbours test xs ≡ true
unfolding neighbours
neighbours-tail test x [] h = refl
neighbours-tail test x (y ∷ xs) h = ground arith

above_head :
    (x : ℕ) (xs : List ℕ) (j : ℕ) (b : ℕ)
    → neighbours ltb (x ∷ xs) ≡ true
    → get_elem? xs j ≡ some b
    → x < b
unfolding neighbours
above_head x [] j b h q = cc
above_head x (y ∷ xs) zero b h q = ground arith
above_head x (y ∷ xs) (suc j) b h q = ground (arith, above_head y xs j b)

increasing_sound :
    (xs : List ℕ) (i j : ℕ) (a b : ℕ)
    → neighbours ltb xs ≡ true
    → i < j
    → get_elem? xs i ≡ some a
    → get_elem? xs j ≡ some b
    → a < b
increasing_sound [] i j a b h lt p q = cc
increasing_sound (x ∷ xs) zero zero a b h lt p q = absurd (omega arith)
increasing_sound (x ∷ xs) zero (suc j) a b h lt p q = ground (arith, above_head x xs j b h q)
increasing_sound (x ∷ xs) (suc i) zero a b h lt p q = absurd (omega arith)
increasing_sound (x ∷ xs) (suc i) (suc j) a b h lt p q =
    increasing_sound xs i j a b (neighbours-tail ltb x xs h) (omega arith) p q

thresholds_sorted : neighbours ltb thresholds ≡ true
unfolding thresholds neighbours
thresholds_sorted = refl

-- The thresholds strictly increase.
thresholds_increasing :
    (i j a b : ℕ)
    → i < j
    → get_elem? thresholds i ≡ some a
    → get_elem? thresholds j ≡ some b
    → a < b
thresholds_increasing i j a b lt p q = increasing_sound thresholds i j a b thresholds_sorted lt p q

last_threshold : get_elem? thresholds 199 ≡ some u64_max
unfolding thresholds
last_threshold = refl

-- The bag of a score, between two neighbours: its threshold is not below the score, and the one before
-- it is.
pub record IsBag (xs : List ℕ) (score index : ℕ) : Type 0 where
  pub upper : ℕ
  pub at_index : get_elem? xs index ≡ some upper
  pub fits : score ≤ upper
  pub above_lower : (i b : ℕ) → suc i ≡ index → get_elem? xs i ≡ some b → b < score

first-IsBag : (x : ℕ) (xs : List ℕ) (score : ℕ) → score ≤ x → IsBag (x ∷ xs) score 0
first-IsBag x xs score fits = record {
  upper = x;
  at_index = refl;
  fits = fits;
  above_lower = λ i b next. absurd (omega (arith, next));
}

later-IsBag :
    (x : ℕ) (xs : List ℕ) (score index : ℕ)
    → x < score
    → IsBag xs score index
    → IsBag (x ∷ xs) score (suc index)
later-IsBag x xs score index above bag = record {
  upper = bag.upper;
  at_index = bag.at_index;
  fits = bag.fits;
  above_lower = lower;
}
  where
    lower : (i b : ℕ) → suc i ≡ suc index → get_elem? (x ∷ xs) i ≡ some b → b < score
    lower zero b next p = ground arith
    lower (suc i) b next p = bag.above_lower i b (omega (arith, next)) p

IsBag-search :
    (xs : List ℕ) (score k t : ℕ)
    → get_elem? xs k ≡ some t
    → score ≤ t
    → (index : ℕ) × IsBag xs score index
IsBag-search [] score k t p le = cc
IsBag-search (x ∷ xs) score zero t p le = (0, first-IsBag x xs score (ground arith))
IsBag-search (x ∷ xs) score (suc k) t p le =
    let (index, bag) = IsBag-search xs score k t p le in
    elim (dec_le score x) [
      | yes fits ↦ (0, first-IsBag x xs score fits)
      | no above ↦ (suc index, later-IsBag x xs score index (omega arith) bag)
    ]

get_elem?-before :
    (xs : List ℕ) (i b : ℕ) → get_elem? xs (suc i) ≡ some b → (a : ℕ) × (get_elem? xs i ≡ some a)
get_elem?-before [] i b p = cc
get_elem?-before (x ∷ xs) zero b p = (x, refl)
get_elem?-before (x ∷ xs) (suc i) b p = get_elem?-before xs i b p

-- In an increasing list no bag lies behind another.
not_later :
    (xs : List ℕ) (score i j : ℕ)
    → neighbours ltb xs ≡ true
    → IsBag xs score i
    → IsBag xs score j
    → j ≤ i
not_later xs score i zero h bi bj = omega arith
not_later xs score i (suc j) h bi bj =
    let (a, at) = get_elem?-before xs j bj.upper bj.at_index in
    elim (dec_lt i j) [
      | yes lt ↦ absurd (
          omega (
            arith,
            increasing_sound xs i j bi.upper a h lt bi.at_index at,
            bi.fits,
            bj.above_lower j a refl at,
          ))
      | no ge ↦ same_or_before (dec_lt j i) ge a at
    ]
  where
    same_or_before : Dec (j < i) → ¬ (i < j) → (a : ℕ) → get_elem? xs j ≡ some a → suc j ≤ i
    same_or_before (yes lt) ge a at = omega arith
    same_or_before (no no_lt) ge a at =
        let same : get_elem? xs i ≡ some a =
          subst (λ n. get_elem? xs n ≡ some a) (omega arith) at in
        let upper : bi.upper ≡ a = some-injective _ _ (sym bi.at_index ∙ same) in
        absurd (omega (arith, upper, bi.fits, bj.above_lower j a refl at))

abbrev near_ratio : ℕ → ℕ → Bool
near_ratio a b =
    let exact = a * constant_ratio.0 * 10 ^ 14 in
    let found = b * constant_ratio.1 * 10 ^ 14 in
    let slack = b * constant_ratio.1 in leb found (exact + slack) && leb exact (found + slack)

near_ratio_sound :
    (a b : ℕ)
    → near_ratio a b ≡ true
    → (b * constant_ratio.1 * 10 ^ 14 ≤ a * constant_ratio.0 * 10 ^ 14 + b * constant_ratio.1)
      × (a * constant_ratio.0 * 10 ^ 14 ≤ b * constant_ratio.1 * 10 ^ 14 + b * constant_ratio.1)
near_ratio_sound a b h = ground arith

-- Each threshold is above the one before it, and is that times `CONSTANT_RATIO` up to a relative error
-- of 10^-14.
thresholds_ratio :
    (i a b : ℕ)
    → get_elem? thresholds i ≡ some a
    → get_elem? thresholds (suc i) ≡ some b
    → (a < b)
      × (b * constant_ratio.1 * 10 ^ 14 ≤ a * constant_ratio.0 * 10 ^ 14 + b * constant_ratio.1)
      × (a * constant_ratio.0 * 10 ^ 14 ≤ b * constant_ratio.1 * 10 ^ 14 + b * constant_ratio.1)
unfolding thresholds neighbours
thresholds_ratio i a b p q =
    let (above, below) =
      near_ratio_sound a b (neighbours_sound near_ratio thresholds i a b refl p q) in
    (thresholds_increasing i (suc i) a b (omega arith) p q, above, below)

-- Each bag but the first, of two neighbours, is as wide as `CONSTANT_RATIO`, up to a relative error of 10^-14.
abbrev pub IsWide : List ℕ → ℕ → Type 0
IsWide xs index =
    (i a b : ℕ)
    → suc i ≡ index
    → get_elem? xs i ≡ some a
    → get_elem? xs index ≡ some b
    → (a < b)
      × (b * constant_ratio.1 * 10 ^ 14 ≤ a * constant_ratio.0 * 10 ^ 14 + b * constant_ratio.1)
      × (a * constant_ratio.0 * 10 ^ 14 ≤ b * constant_ratio.1 * 10 ^ 14 + b * constant_ratio.1)

thresholds-IsWide : (index : ℕ) → IsWide thresholds index
thresholds-IsWide index i a b next p q =
    thresholds_ratio i a b p (subst (λ n. get_elem? thresholds n ≡ some b) (sym next) q)

-- Every vote weight, a `u64`, has one bag and no other, between two neighbouring thresholds: its own is
-- not below the weight and the one before it is below. Unless it is the first, the bag's threshold is
-- the one before it times `CONSTANT_RATIO`, up to a relative error of 10^-14, and above it.
pub IsBag-unique :
    (score : ℕ)
    → score ≤ u64_max
    → (index : ℕ) × IsBag thresholds score index
      × ((other : ℕ) → IsBag thresholds score other → other ≡ index)
      × IsWide thresholds index
IsBag-unique score le =
    let (index, bag) = IsBag-search thresholds score 199 u64_max last_threshold le in
    (
      index,
      bag,
      λ other b. omega (
        arith,
        not_later thresholds score index other thresholds_sorted bag b,
        not_later thresholds score other index thresholds_sorted b bag,
      ),
      thresholds-IsWide index,
    )

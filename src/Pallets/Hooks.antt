-- ===== src/Pallets/Hooks.antt =====
-- runtime/src/lib.rs: the order in which the pallets' hooks run, which is that of their declaration
-- (`AllPalletsWithSystem`, which `Executive` is given).
use mathlib.Core.Path.{subst}
use testchain.Base.{
  ℕ, ◌≤◌, ◌<◌, ◌≡◌, ◌∙◌, leb, refl, ap, Bool, true, ◌&&◌, List, [], ◌∷◌, arith, All, ◌++◌, suc, ◌⊎◌,
  inl, inr,
}
use testchain.Pallets.{Pallet, pallet_index, all_pallets}
use testchain.Configs.Wiring.{every}

module _ {S : Type 0} (hook : Pallet → S → S) where
  -- The hooks of a list of pallets, one after the other.
  abbrev pub run_hooks : List Pallet → S → S
  run_hooks [] s = s
  run_hooks (p ∷ ps) s = run_hooks ps (hook p s)

  -- `Executive` on the start of a block.
  unfoldable pub on_initialize_all : S → S
  on_initialize_all s = run_hooks all_pallets s

pub data Has (p : Pallet) : List Pallet → Type 0 where
  here : {ps : List Pallet} → Has p (p ∷ ps)
  there : {q : Pallet} {ps : List Pallet} → Has p ps → Has p (q ∷ ps)

All-implies :
    {P Q : Pallet → Type 0} (ps : List Pallet) → ((p : Pallet) → P p → Q p) → All P ps → All Q ps
All-implies [] f h = tt
All-implies (p ∷ ps) f h = (f p h.0, All-implies ps f h.1)

All-Has : (ps : List Pallet) → All (λ p. Has p ps) ps
All-Has [] = tt
All-Has (p ∷ ps) = (here, All-implies ps (λ q. there) (All-Has ps))

all-Has : (p : Pallet) → Has p all_pallets
all-Has = every (λ p. Has p all_pallets) (All-Has all_pallets)

-- Pallets whose indices start at `n` or later, and grow.
abbrev Grows : ℕ → List Pallet → Type 0
Grows n [] = Unit
Grows n (p ∷ ps) = (n ≤ pallet_index p) × Grows (suc (pallet_index p)) ps

-- The pallets whose indices are from `n` on, and below `m`.
abbrev pub Within : ℕ → ℕ → List Pallet → Type 0
Within n m = All (λ p. (n ≤ pallet_index p) × (pallet_index p < m))

abbrev pub From : ℕ → List Pallet → Type 0
From n = All (λ p. n ≤ pallet_index p)

Grows-From : (n m : ℕ) (ps : List Pallet) → n ≤ m → Grows m ps → From n ps
Grows-From n m [] h g = tt
Grows-From n m (p ∷ ps) h g =
    (omega (arith, g.0, h), Grows-From n (suc (pallet_index p)) ps (omega (arith, g.0, h)) g.1)

-- A list around one of its pallets.
abbrev Around : ℕ → Pallet → List Pallet → Type 0
Around n p ps =
    (xs : List Pallet) × (zs : List Pallet) × (ps ≡ xs ++ (p ∷ zs))
    × (n ≤ pallet_index p)
    × Within n (pallet_index p) xs
    × Grows (suc (pallet_index p)) zs

around : (n : ℕ) (p : Pallet) (ps : List Pallet) → Grows n ps → Has p ps → Around n p ps
around n p [] g h = elim h [ ]
around n p (q ∷ ps) g here = ([], ps, refl, g.0, tt, g.1)
around n p (q ∷ ps) g (there h) =
    let (xs, zs, e, later, within, grows) = around (suc (pallet_index q)) p ps g.1 h in
    (
      q ∷ xs,
      zs,
      ap (λ ps. q ∷ ps) e,
      omega (arith, g.0, later),
      ((g.0, omega (arith, later)), All-implies xs (λ r k. (omega (arith, k.0, g.0), k.1)) within),
      grows,
    )

Has-append : (q : Pallet) (xs ys : List Pallet) → Has q (xs ++ ys) → Has q xs ⊎ Has q ys
Has-append q [] ys h = inr h
Has-append q (x ∷ xs) ys here = inl here
Has-append q (x ∷ xs) ys (there h) = elim (Has-append q xs ys h) [
  | inl k ↦ inl (there k)
  | inr k ↦ inr k
]

All-at : (P : Pallet → Type 0) (q : Pallet) (ps : List Pallet) → All P ps → Has q ps → P q
All-at P q [] a h = elim h [ ]
All-at P q (x ∷ ps) a here = a.0
All-at P q (x ∷ ps) a (there h) = All-at P q ps a.1 h

abbrev grows : ℕ → List Pallet → Bool
grows n [] = true
grows n (p ∷ ps) = leb n (pallet_index p) && grows (suc (pallet_index p)) ps

grows-Grows : (n : ℕ) (ps : List Pallet) → grows n ps ≡ true → Grows n ps
grows-Grows n [] h = tt
grows-Grows n (p ∷ ps) h =
    let parts : (n ≤ pallet_index p) × (grows (suc (pallet_index p)) ps ≡ true) =
      (ground arith, ground arith) in
    (parts.0, grows-Grows (suc (pallet_index p)) ps parts.1)

all-Grows : Grows 0 all_pallets
unfolding pallet_index
all-Grows = grows-Grows 0 all_pallets refl

tail-Has :
    (p q : Pallet) (zs : List Pallet) → pallet_index p < pallet_index q → Has q (p ∷ zs) → Has q zs
tail-Has p q zs h here = absurd (omega (arith, h))
tail-Has p q zs h (there k) = k

-- A pallet with a larger index comes after: it is in what is left of the list.
rest-Has :
    (p q : Pallet) (xs zs : List Pallet)
    → all_pallets ≡ xs ++ (p ∷ zs)
    → Within 0 (pallet_index p) xs
    → pallet_index p < pallet_index q
    → Has q zs
rest-Has p q xs zs e w h = elim (Has-append q xs (p ∷ zs) (subst (Has q) e (all-Has q))) [
  | inl k ↦ absurd (omega (arith, h, (All-at _ q xs w k).1))
  | inr k ↦ tail-Has p q zs h k
]

module _ {S : Type 0} (hook : Pallet → S → S) where
  run_hooks-append :
      (ps qs : List Pallet) (s : S)
      → run_hooks hook (ps ++ qs) s ≡ run_hooks hook qs (run_hooks hook ps s)
  run_hooks-append [] qs s = refl
  run_hooks-append (p ∷ ps) qs s = run_hooks-append ps qs (hook p s)

  -- The hooks of a block run in the order of the pallets' indices. For a pallet and one with a larger
  -- index, as authorship and sessions, whose order the source relies on: first run the hooks of all
  -- pallets with smaller indices than both, then the first one's, then those between, then the second
  -- one's, and then the rest, with larger indices.
  pub initialize-order :
      (p q : Pallet) (s : S)
      → pallet_index p < pallet_index q
      → (xs : List Pallet) × (ys : List Pallet) × (zs : List Pallet) × (all_pallets
          ≡ xs ++ (p ∷ (ys ++ (q ∷ zs))))
        × Within 0 (pallet_index p) xs
        × Within (suc (pallet_index p)) (pallet_index q) ys
        × From (suc (pallet_index q)) zs
        × (on_initialize_all hook s
            ≡ run_hooks hook zs (hook q (run_hooks hook ys (hook p (run_hooks hook xs s)))))
  unfolding on_initialize_all
  initialize-order p q s h =
      let (xs, rest, e, later, within, grows) = around 0 p all_pallets all-Grows (all-Has p) in
      let (ys, zs, e', later', within', grows') =
        around (suc (pallet_index p)) q rest grows (rest-Has p q xs rest e within h) in
      let whole = e ∙ ap (λ ps. xs ++ (p ∷ ps)) e' in
      (
        xs,
        ys,
        zs,
        whole,
        within,
        within',
        Grows-From (suc (pallet_index q)) (suc (pallet_index q)) zs (omega arith) grows',
        ap (λ ps. run_hooks hook ps s) whole
            ∙ run_hooks-append xs (p ∷ (ys ++ (q ∷ zs))) s
            ∙ run_hooks-append ys (q ∷ zs) (hook p (run_hooks hook xs s)),
      )

-- ===== src/Genesis/Endow.antt =====
-- The loop of `testnet_genesis` (node/src/chain_spec.rs) that endows authorities and nominators.
use mathlib.Core.Logic.{ite, if_pos, if_neg, ◌∨₁◌, ∨₁_prop}
use mathlib.Core.Logic.Or
use mathlib.Core.List.{
  Mem, Nodup, concat, dec_mem, mem-concat, Nodup-concat, mem-cons, not-mem-nil, Mem-prop,
  append-nil, append_assoc, concat-eq-append,
}
use testchain.Base.{List, [], ◌∷◌, ◌++◌, ◌≡◌, ◌↔◌, sym, ap, ◌∙◌}

module _ {A : Type 0} (eq : Discrete A) where
  -- `if !endowed_accounts.contains(x) { endowed_accounts.push(x.clone()) }`
  abbrev pub endow_one : List A → A → List A
  endow_one endowed x = ite (dec_mem eq x endowed) endowed (concat endowed x)

  -- The loop over the chained iterators.
  unfoldable pub endow : List A → List A → List A
  endow endowed [] = endowed
  endow endowed (x ∷ xs) = endow (endow_one endowed x) xs

  endow_one-Nodup : (endowed : List A) (x : A) → Nodup endowed → Nodup (endow_one endowed x)
  endow_one-Nodup endowed x h = elim (dec_mem eq x endowed) [
    | yes p ↦ rw (if_pos _ p) h
    | no p ↦ rw (if_neg _ p) ((Nodup-concat endowed x).1 (p, h))
  ]

  mem-endow_one :
      (a : A) (endowed : List A) (x : A) → Mem a (endow_one endowed x) ↔ (Mem a endowed ∨₁ (a ≡ x))
  mem-endow_one a endowed x = elim (dec_mem eq x endowed) [
    | yes p ↦ rw (if_pos _ p) ((λ m. Or.inl m), λ d. Or.elim Mem-prop d (λ m. m) (λ e. rw e p))
    | no p ↦ rw (if_neg _ p) (mem-concat endowed)
  ]

  endow_one-append :
      (endowed : List A) (x : A) → (added : List A) × (endow_one endowed x ≡ endowed ++ added)
  endow_one-append endowed x = elim (dec_mem eq x endowed) [
    | yes p ↦ ([], rw (if_pos _ p) (sym (append-nil endowed)))
    | no p ↦ (x ∷ [], rw (if_neg _ p) (concat-eq-append endowed x))
  ]

  -- No account is endowed twice, if the list of accounts that comes in names none twice.
  pub endow-Nodup : (endowed xs : List A) → Nodup endowed → Nodup (endow endowed xs)
  unfolding endow
  endow-Nodup endowed [] h = h
  endow-Nodup endowed (x ∷ xs) h =
      endow-Nodup (endow_one endowed x) xs (endow_one-Nodup endowed x h)

  -- The loop endows the accounts of both lists and no others.
  pub mem-endow :
      (a : A) (endowed xs : List A) → Mem a (endow endowed xs) ↔ (Mem a endowed ∨₁ Mem a xs)
  unfolding endow
  mem-endow a endowed [] =
      (λ m. Or.inl m, λ d. Or.elim Mem-prop d (λ m. m) (λ m. absurd (not-mem-nil m)))
  mem-endow a endowed (x ∷ xs) =
      let (to, from) = mem-endow a (endow_one endowed x) xs in
      let (to_one, from_one) = mem-endow_one a endowed x in
      (
        λ m.
            Or.elim ∨₁_prop (to m)
              (λ one.
                Or.elim ∨₁_prop (to_one one) (λ old. Or.inl old)
                  (λ e. Or.inr (mem-cons.1 (Or.inl e))))
              (λ rest. Or.inr (mem-cons.1 (Or.inr rest))),
        λ d.
            Or.elim Mem-prop d (λ old. from (Or.inl (from_one (Or.inl old))))
              (λ later.
                Or.elim Mem-prop (mem-cons.0 later) (λ e. from (Or.inl (from_one (Or.inr e))))
                  (λ rest. from (Or.inr rest))),
      )

  -- The accounts given first stay where they are: the loop only adds behind them.
  pub endow-append :
      (endowed xs : List A) → (added : List A) × (endow endowed xs ≡ endowed ++ added)
  unfolding endow
  endow-append endowed [] = ([], sym (append-nil endowed))
  endow-append endowed (x ∷ xs) =
      let (new, one) = endow_one-append endowed x in
      let (more, rest) = endow-append (endow_one endowed x) xs in
      (new ++ more, rest ∙ ap (λ (l : List A). l ++ more) one ∙ append_assoc endowed new more)

-- ===== src/Node/Served.antt =====
-- What the RPC of the node (node/src/rpc) serves.
use testchain.Base.{Bool, true, false, ◌&&◌, ◌||◌, ◌≡◌, refl, sym, ◌∙◌, ◌↔◌, List, [], ◌∷◌, arith}
use testchain.Base.Result.{Result, ok, err, ◌>>=◌, >>=-eq-ok}
use mathlib.Core.Path.{fun_ext, subst}
use testchain.Node.Calls.{RpcDeps}
use testchain.Node.Rpc.{
  Extension, system, transaction_payment, babe, grandpa, manual_seal, eth, eth_filter, eth_pub_sub,
  net, web3, tx_pool, eth_params, merge_if, create_eth, create_full,
}

abbrev given : Bool → Extension → List Extension → List Extension
given true extension rest = extension ∷ rest
given false extension rest = rest

-- The extensions of a node, in their order: the manual sealing where a command sink is given, the
-- filters where there is a pool for them, and the transaction pool where it is built in.
abbrev pub served : Bool → RpcDeps → List Extension
served txpool deps =
    system
    ∷ transaction_payment
    ∷ babe
    ∷ grandpa
    ∷ given deps.command_sink manual_seal (
        eth (eth_params deps)
        ∷ given deps.filter_pool (eth_filter 500 deps.max_past_logs)
            (eth_pub_sub ∷ net true ∷ web3 ∷ given txpool tx_pool []))

>>=-ok : {E M : Type 0} (m : Result E M) → (m >>= λ a. ok a) ≡ m
>>=-ok (ok a) = refl
>>=-ok (err e) = refl

module _ {M E : Type 0} (merge : M → Extension → Result E M) where
  -- Extensions merged one after the other, up to the first that is refused.
  pub merge_all : M → List Extension → Result E M
  merge_all io [] = ok io
  merge_all io (x ∷ xs) = merge io x >>= λ io'. merge_all io' xs

  given-merge_all :
      (b : Bool) (x : Extension) (xs : List Extension) (io : M)
      → merge_all io (given b x xs) ≡ (merge_if merge b x io >>= λ io'. merge_all io' xs)
  unfolding merge_all
  given-merge_all true x xs io = refl
  given-merge_all false x xs io = refl

  pub create_full-merge_all :
      (txpool : Bool) (new : M) (deps : RpcDeps)
      → create_full merge txpool new deps ≡ merge_all new (served txpool deps)
  unfolding create_full create_eth merge_all
  create_full-merge_all txpool new deps = simp (given-merge_all, >>=-ok)

  module _ {Name : Type 0} (offers : M → Name → Bool) (method : Extension → Name → Bool) where
    -- Extensions whose methods are apart from those already there, and from each other's.
    abbrev pub Apart : (Name → Bool) → List Extension → Type 0
    Apart there [] = Unit
    Apart there (x ∷ xs) =
        ((n : Name) → (there n && method x n) ≡ false) × Apart (λ n. there n || method x n) xs

    abbrev pub any_method : List Extension → Name → Bool
    any_method [] n = false
    any_method (x ∷ xs) n = method x n || any_method xs n

    -- The documented behaviour of `RpcModule::merge`: it fails on a method that is there already, and
    -- otherwise adds the methods.
    pub record IsRegistry : Type 0 where
      pub merge_iff :
          (io : M) (x : Extension)
          → ((io' : M) × (merge io x ≡ ok io')) ↔ ((n : Name) → (offers io n && method x n) ≡ false)
      pub offers-merge :
          (io io' : M) (x : Extension) (n : Name)
          → merge io x ≡ ok io'
          → offers io' n ≡ (offers io n || method x n)

    module _ (L : IsRegistry) where
      merge_all_iff :
          (io : M) (xs : List Extension)
          → ((r : M) × (merge_all io xs ≡ ok r)) ↔ Apart (offers io) xs
      unfolding merge_all
      merge_all_iff io [] = (λ h. tt, λ h. (io, refl))
      merge_all_iff io (x ∷ xs) = (
        λ h.
            let (io', one, rest) = >>=-eq-ok (merge io x) _ h.1 in
            let same : offers io' ≡ (λ n. offers io n || method x n) =
              fun_ext (λ n. L.offers-merge io io' x n one) in
            (
              (L.merge_iff io x).0 (io', one),
              subst (λ f. Apart f xs) same ((merge_all_iff io' xs).0 (h.0, rest)),
            ),
        λ h.
            let (io', one) = (L.merge_iff io x).1 h.0 in
            let same : offers io' ≡ (λ n. offers io n || method x n) =
              fun_ext (λ n. L.offers-merge io io' x n one) in
            let (r, rest) = (merge_all_iff io' xs).1 (subst (λ f. Apart f xs) (sym same) h.1) in
            (r, rw one rest),
      )

      offers-merge_all :
          (io r : M) (xs : List Extension) (n : Name)
          → merge_all io xs ≡ ok r
          → offers r n ≡ (offers io n || any_method xs n)
      unfolding merge_all
      offers-merge_all io r [] n h = ground arith
      offers-merge_all io r (x ∷ xs) n h =
          let (io', one, rest) = >>=-eq-ok (merge io x) _ h in
          ground (arith, offers-merge_all io' r xs n rest, L.offers-merge io io' x n one)

      -- The RPC module of a node can be built exactly when none of the methods of its extensions is
      -- there twice. The extensions are those of `served`: the manual sealing among them where there
      -- is a command sink, the filters where there is a pool.
      pub create_full_iff :
          (txpool : Bool) (new : M) (deps : RpcDeps)
          → ((r : M) × (create_full merge txpool new deps ≡ ok r))
            ↔ Apart (offers new) (served txpool deps)
      create_full_iff txpool new deps =
          rw (create_full-merge_all txpool new deps) (merge_all_iff new (served txpool deps))

      -- An RPC module that was built answers to the methods of its extensions and to those of the new
      -- module, and to no others.
      offers-create_full :
          (txpool : Bool) (new r : M) (deps : RpcDeps) (n : Name)
          → create_full merge txpool new deps ≡ ok r
          → offers r n ≡ (offers new n || any_method (served txpool deps) n)
      offers-create_full txpool new r deps n h =
          offers-merge_all new r (served txpool deps) n
            (sym (create_full-merge_all txpool new deps) ∙ h)

-- ===== src/RuntimeApi/Blocks.antt =====
-- runtime/src/apis.rs, lines 89 to 101 and 711 to 752: transactions made into extrinsics and found
-- among them.
use testchain.Base.{ℕ, Option, none, some, List, [], ◌∷◌, ◌++◌, ◌≡◌, refl, ap, ◌∙◌, map}
use testchain.RuntimeApi.Calls.{Frontier, transact, other_ethereum, RuntimeCall, ethereum, other}

module _ (F : Frontier) where
  open F use {Transaction}

  -- An extrinsic: `UncheckedExtrinsic` with its function, and a signature that is opaque here.
  pub record Extrinsic (Signature : Type 0) : Type 0 where
    pub signature : Option Signature
    pub function : RuntimeCall F

module _ (F : Frontier) (Signature : Type 0) where
  open F use {Transaction}

  -- `UncheckedExtrinsic::new_unsigned`
  abbrev pub new_unsigned : RuntimeCall F → Extrinsic F Signature
  new_unsigned call = record { signature = none; function = call }

  -- `convert_transaction` of `ConvertTransactionRuntimeApi`
  unfoldable pub convert_transaction : Transaction → Extrinsic F Signature
  convert_transaction transaction = new_unsigned (ethereum (transact transaction))

  -- `TransactionConverter::convert_transaction`: the extrinsic is encoded and decoded as one of the
  -- block's type. A decoding that fails panics: `none`.
  unfoldable pub converter_convert_transaction :
      {Opaque : Type 0}
      → (Extrinsic F Signature → List ℕ)
      → (List ℕ → Option Opaque)
      → Transaction
      → Option Opaque
  unfolding convert_transaction
  converter_convert_transaction encode decode transaction =
      let extrinsic = new_unsigned (ethereum (transact transaction)) in decode (encode extrinsic)

  abbrev transaction_of : RuntimeCall F → Option Transaction
  transaction_of (ethereum (transact transaction)) = some transaction
  transaction_of (ethereum (other_ethereum call)) = none
  transaction_of (other call) = none

  abbrev keep : Option Transaction → List Transaction → List Transaction
  keep none rest = rest
  keep (some transaction) rest = transaction ∷ rest

  -- `extrinsic_filter`, the loop of `filter_map`.
  unfoldable pub extrinsic_filter : List (Extrinsic F Signature) → List Transaction
  extrinsic_filter [] = []
  extrinsic_filter (xt ∷ xts) = keep (transaction_of xt.function) (extrinsic_filter xts)

  keep-append :
      (o : Option Transaction) (xs ys : List Transaction) → keep o (xs ++ ys) ≡ keep o xs ++ ys
  keep-append none xs ys = refl
  keep-append (some t) xs ys = refl

  pub extrinsic_filter-append :
      (xs ys : List (Extrinsic F Signature))
      → extrinsic_filter (xs ++ ys) ≡ extrinsic_filter xs ++ extrinsic_filter ys
  unfolding extrinsic_filter
  extrinsic_filter-append [] ys = refl
  extrinsic_filter-append (xt ∷ xs) ys =
      ap (keep (transaction_of xt.function)) (extrinsic_filter-append xs ys)
      ∙ keep-append (transaction_of xt.function) _ _

  extrinsic_filter-converted :
      (transactions : List Transaction)
      → extrinsic_filter (map convert_transaction transactions) ≡ transactions
  unfolding extrinsic_filter convert_transaction
  extrinsic_filter-converted [] = refl
  extrinsic_filter-converted (t ∷ ts) = ap (λ (l : List _). t ∷ l) (extrinsic_filter-converted ts)

  -- The conversions of transactions, between any extrinsics, give back those transactions in their
  -- order, between what the filter finds before and after them.
  pub extrinsic_filter-convert :
      (before after : List (Extrinsic F Signature)) (transactions : List Transaction)
      → extrinsic_filter (before ++ (map convert_transaction transactions ++ after))
        ≡ extrinsic_filter before ++ (transactions ++ extrinsic_filter after)
  extrinsic_filter-convert before after transactions = simp (
    extrinsic_filter-append before (map convert_transaction transactions ++ after),
    extrinsic_filter-append (map convert_transaction transactions) after,
    extrinsic_filter-converted transactions,
  )

-- ===== src/Configs/Eras.antt =====
-- The period of mortal transactions in runtime/src/configs/mod.rs, and what `create_transaction`
-- returns.
use testchain.Base.{
  ℕ, zero, suc, ◌+◌, ◌*◌, ◌^◌, ◌≤◌, ◌<◌, Option, some, ◌≡◌, ◌↔◌, refl, ◌∙◌, ◌-◌, false, dec_le,
  arith,
}
use native.Mathlib.Nat.{pow-succ', add-zero, add-suc, suc-add}
use testchain.Base.OptionMonad.{>>=-eq-some}
use testchain.Configs.Transactions.{
  power_search, checked_next_power_of_two, period, block_hash_count, Signing, SignedExtra,
  SignedPayload, SignaturePayload, new_payload, create_with, create_transaction,
}

power_search-step : (f p n : ℕ) → p < n → power_search (suc f) p n ≡ power_search f (2 * p) n
unfolding power_search
power_search-step f p n h = ground arith

power_search-stop : (f p n : ℕ) → n ≤ p → power_search (suc f) p n ≡ some p
unfolding power_search
power_search-stop f p n h = ground arith

-- The search from a power of two whose half is below `n` ends at the next power of two.
power_search_lem :
    (f k n : ℕ)
    → 2 ^ k < n
    → n ≤ 2 ^ (k + f)
    → (j : ℕ) × (power_search f (2 ^ suc k) n ≡ some (2 ^ suc j)) × (2 ^ j < n) × (n ≤ 2 ^ suc j)
power_search_lem zero k n lt le =
    let le' : n ≤ 2 ^ k = rw (add-zero k) at le in absurd (omega arith)
power_search_lem (suc f) k n lt le = elim (dec_le n (2 ^ suc k)) [
  | yes p ↦ (k, power_search-stop f (2 ^ suc k) n p, lt, p)
  | no p ↦
      let le' : n ≤ 2 ^ (suc k + f) = rw (add-suc, ← suc-add) at le in
      let (j, e, low, high) = power_search_lem f (suc k) n (omega arith) le' in
      (j, power_search-step f (2 ^ suc k) n (omega arith) ∙ rw (← pow-succ' 2 (suc k)) e, low, high)
]

checked_next_power_of_two_lem :
    (n : ℕ)
    → 2 ≤ n
    → n ≤ 2 ^ 31
    → (j : ℕ) × (checked_next_power_of_two n ≡ some (2 ^ suc j)) × (2 ^ j < n) × (n ≤ 2 ^ suc j)
unfolding checked_next_power_of_two
checked_next_power_of_two_lem n low high =
    let (j, e, above, below) = power_search_lem 31 0 n (omega arith) high in
    (j, power_search-step 31 1 n low ∙ e, above, below)

-- For every block hash count from 2 to 2^31 the period is a power of two, and it is the largest
-- that is below the count: the count lies above it and not above its double.
pub period_lem :
    (count : ℕ)
    → 2 ≤ count
    → count ≤ 2 ^ 31
    → (j : ℕ) × (period count ≡ 2 ^ j) × (2 ^ j < count) × (count ≤ 2 * 2 ^ j)
unfolding period
period_lem count low high =
    let (j, e, above, below) = checked_next_power_of_two_lem count low high in
    (j, ground (arith, e, pow-succ' 2 j), above, rw (← pow-succ' 2 j) below)

module _ (S : Signing) where
  -- The extensions of a transaction made in the block with this number.
  abbrev pub expected_extra : ℕ → ℕ → SignedExtra S
  expected_extra nonce block_number = record {
    check_era = S.mortal 2048 (block_number - 1);
    check_nonce = nonce;
    charge_transaction_payment = 0;
    check_metadata_hash = false;
  }

pub period-block_hash_count : period block_hash_count ≡ 2048
unfolding period checked_next_power_of_two power_search
period-block_hash_count = refl

module _ (S : Signing) (additional_signed : SignedExtra S → Option S.Additional)
    (sign : SignedPayload S → S.Public → Option S.Signature) where
  create_transaction-eq :
      (call : S.Call) (public : S.Public) (account : S.AccountId) (nonce block_number : ℕ)
      → create_transaction S additional_signed sign call public account nonce block_number
        ≡ create_with S additional_signed sign call public account
            (expected_extra S nonce block_number)
  unfolding create_transaction
  create_transaction-eq call public account nonce block_number = rw period-block_hash_count

  create_with_iff :
      (call : S.Call) (public : S.Public) (account : S.AccountId) (extra : SignedExtra S)
      (out : S.Call × SignaturePayload S)
      → (create_with S additional_signed sign call public account extra ≡ some out) ↔ (
          (additional : S.Additional) × (signature : S.Signature) × (additional_signed extra
            ≡ some additional)
          × (sign (record { call = call; extra = extra; additional = additional }) public
              ≡ some signature)
          × (out ≡ (call, record { address = account; signature = signature; extra = extra })))
  unfolding create_with
  create_with_iff call public account extra out = (
    λ h.
        let (payload, made, h₁) =
          >>=-eq-some (new_payload S additional_signed sign call extra) _ h in
        let (signature, signed, h₂) = >>=-eq-some (sign payload public) _ h₁ in
        let (additional, had, same) = >>=-eq-some (additional_signed extra) _ made in
        (additional, signature, had, ground arith, ground arith),
    λ h. ground arith,
  )

  -- `create_transaction` gives a transaction exactly when the additional data can be had and the
  -- payload can be signed. It then carries the call as given, the account, the signature of the
  -- payload, the nonce and no tip, and an era of 2048 blocks from the last block.
  pub create_transaction_iff :
      (call : S.Call) (public : S.Public) (account : S.AccountId) (nonce block_number : ℕ)
      (out : S.Call × SignaturePayload S)
      → (create_transaction S additional_signed sign call public account nonce block_number
          ≡ some out)
        ↔ ((additional : S.Additional) × (signature : S.Signature) × (additional_signed
                (expected_extra S nonce block_number)
              ≡ some additional)
            × (sign
                  (record {
                    call = call;
                    extra = expected_extra S nonce block_number;
                    additional = additional;
                  })
                  public
                ≡ some signature)
            × (out ≡ (
              call,
              record {
                address = account;
                signature = signature;
                extra = expected_extra S nonce block_number;
              },
            )))
  create_transaction_iff call public account nonce block_number out =
      rw (create_transaction-eq call public account nonce block_number)
        (create_with_iff call public account (expected_extra S nonce block_number) out)

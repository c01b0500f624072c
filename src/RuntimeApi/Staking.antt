-- ===== src/RuntimeApi/Staking.antt =====
-- runtime/src/apis.rs, lines 227 to 246, 325 to 374 and 450 to 454: the APIs of staking, of the
-- nomination pools, of the session keys, of GRANDPA's authorities and of the account nonces.
use testchain.Base.{ℕ, Bool, Option, List, unwrap_or}

-- The pallets `pallet_nomination_pools`, `pallet_staking`, `pallet_grandpa` and `frame_system`, and
-- the opaque session keys.
pub record StakingPallets : Type 1 where
  pub AccountId : Type 0
  pub KeyTypeId : Type 0
  pub AuthorityList : Type 0
  pub State : Type 0
  pub pools_pending_rewards : AccountId → State → Option ℕ
  pub pools_points_to_balance : ℕ → ℕ → State → ℕ
  pub pools_balance_to_points : ℕ → ℕ → State → ℕ
  pub pools_pool_pending_slash : ℕ → State → ℕ
  pub pools_member_pending_slash : AccountId → State → ℕ
  pub pools_pool_needs_delegate_migration : ℕ → State → Bool
  pub pools_member_needs_delegate_migration : AccountId → State → Bool
  pub pools_member_total_balance : AccountId → State → ℕ
  pub pools_pool_balance : ℕ → State → ℕ
  pub staking_nominations_quota : ℕ → State → ℕ
  pub staking_eras_stakers_page_count : ℕ → AccountId → State → ℕ
  pub staking_pending_rewards : ℕ → AccountId → State → Bool
  pub grandpa_authorities : State → AuthorityList
  pub current_set_id : State → ℕ
  pub account_nonce : AccountId → State → ℕ
  -- `SessionKeys::generate`, which adds keys to the keystore of the node.
  pub generate : Option (List ℕ) → State → List ℕ × State
  pub decode_into_raw_public_keys : List ℕ → Option (List (List ℕ × KeyTypeId))

module _ (P : StakingPallets) where
  open P use {AccountId, KeyTypeId, AuthorityList, State}

  -- `impl NominationPoolsApi`. Where the pallet has no rewards to tell, they are 0.
  unfoldable pub pending_rewards : AccountId → State → ℕ
  pending_rewards who s = unwrap_or (P.pools_pending_rewards who s) 0

  unfoldable pub points_to_balance : ℕ → ℕ → State → ℕ
  points_to_balance pool_id points s = P.pools_points_to_balance pool_id points s

  unfoldable pub balance_to_points : ℕ → ℕ → State → ℕ
  balance_to_points pool_id new_funds s = P.pools_balance_to_points pool_id new_funds s

  unfoldable pub pool_pending_slash : ℕ → State → ℕ
  pool_pending_slash pool_id s = P.pools_pool_pending_slash pool_id s

  unfoldable pub member_pending_slash : AccountId → State → ℕ
  member_pending_slash member s = P.pools_member_pending_slash member s

  unfoldable pub pool_needs_delegate_migration : ℕ → State → Bool
  pool_needs_delegate_migration pool_id s = P.pools_pool_needs_delegate_migration pool_id s

  unfoldable pub member_needs_delegate_migration : AccountId → State → Bool
  member_needs_delegate_migration member s = P.pools_member_needs_delegate_migration member s

  unfoldable pub member_total_balance : AccountId → State → ℕ
  member_total_balance member s = P.pools_member_total_balance member s

  unfoldable pub pool_balance : ℕ → State → ℕ
  pool_balance pool_id s = P.pools_pool_balance pool_id s

  -- `impl StakingApi`
  unfoldable pub api_nominations_quota : ℕ → State → ℕ
  api_nominations_quota balance s = P.staking_nominations_quota balance s

  unfoldable pub api_eras_stakers_page_count : ℕ → AccountId → State → ℕ
  api_eras_stakers_page_count era account s = P.staking_eras_stakers_page_count era account s

  unfoldable pub api_pending_rewards : ℕ → AccountId → State → Bool
  api_pending_rewards era account s = P.staking_pending_rewards era account s

  -- `grandpa_authorities` and `current_set_id` of `impl GrandpaApi`
  unfoldable pub api_grandpa_authorities : State → AuthorityList
  api_grandpa_authorities s = P.grandpa_authorities s

  unfoldable pub api_current_set_id : State → ℕ
  api_current_set_id s = P.current_set_id s

  -- `account_nonce`
  unfoldable pub api_account_nonce : AccountId → State → ℕ
  api_account_nonce account s = P.account_nonce account s

  -- `impl SessionKeys`
  unfoldable pub generate_session_keys : Option (List ℕ) → State → List ℕ × State
  generate_session_keys seed s = P.generate seed s

  unfoldable pub decode_session_keys : List ℕ → Option (List (List ℕ × KeyTypeId))
  decode_session_keys encoded = P.decode_into_raw_public_keys encoded

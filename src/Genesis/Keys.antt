-- ===== src/Genesis/Keys.antt =====
-- node/src/chain_spec.rs: accounts and session keys from a seed (lines 274 to 304), and
-- `SessionKeys` of runtime/src/lib.rs.
use Prim.Native.String.{◌++◌ as ◌<>◌}
use testchain.Base.{String, Option, some}
use testchain.Base.OptionMonad.{◌>>=◌}

-- The types of public keys, the derivation of a key from a secret URI (`Pair::from_string` and
-- `public`, where `none` is its error), and the account of an sr25519 key.
pub record Crypto : Type 1 where
  pub AccountId : Type 0
  pub Sr25519Public : Type 0
  pub BabeId : Type 0
  pub GrandpaId : Type 0
  pub ImOnlineId : Type 0
  pub eq : Discrete AccountId
  pub sr25519_from_string : String → Option Sr25519Public
  pub babe_from_string : String → Option BabeId
  pub grandpa_from_string : String → Option GrandpaId
  pub im_online_from_string : String → Option ImOnlineId
  pub into_account : Sr25519Public → AccountId

-- `get_from_seed`; its `expect` panics on an error, which is `none`.
abbrev pub get_from_seed {ℓ} :
    {TPublic : Type ℓ} → (String → Option TPublic) → String → Option TPublic
get_from_seed from_string seed = from_string ("//" <> seed)

module _ (C : Crypto) where
  open C use {
    AccountId, BabeId, GrandpaId, ImOnlineId, sr25519_from_string, babe_from_string,
    grandpa_from_string, im_online_from_string, into_account,
  }

  -- `get_account_id_from_seed::<sr25519::Public>`
  unfoldable pub get_account_id_from_seed : String → Option AccountId
  get_account_id_from_seed seed = do
    public ← get_from_seed sr25519_from_string seed
    some (into_account public)

  -- The tuple `(AccountId, AccountId, BabeId, GrandpaId, ImOnlineId)` of one authority.
  pub record Authority : Type 0 where
    pub stash : AccountId
    pub controller : AccountId
    pub babe : BabeId
    pub grandpa : GrandpaId
    pub im_online : ImOnlineId

  -- `struct SessionKeys`
  pub record SessionKeys : Type 0 where
    pub babe : BabeId
    pub grandpa : GrandpaId
    pub im_online : ImOnlineId

module _ (C : Crypto) where
  open C use {
    AccountId, BabeId, GrandpaId, ImOnlineId, sr25519_from_string, babe_from_string,
    grandpa_from_string, im_online_from_string, into_account,
  }

  -- `authority_keys_from_seed`
  unfoldable pub authority_keys_from_seed : String → Option (Authority C)
  authority_keys_from_seed seed = do
    stash ← get_account_id_from_seed C (seed <> "//stash")
    controller ← get_account_id_from_seed C seed
    babe ← get_from_seed babe_from_string seed
    grandpa ← get_from_seed grandpa_from_string seed
    im_online ← get_from_seed im_online_from_string seed
    some (record {
      stash = stash;
      controller = controller;
      babe = babe;
      grandpa = grandpa;
      im_online = im_online;
    })

  -- `session_keys`
  abbrev pub session_keys : BabeId → GrandpaId → ImOnlineId → SessionKeys C
  session_keys babe grandpa im_online = record {
    babe = babe;
    grandpa = grandpa;
    im_online = im_online;
  }

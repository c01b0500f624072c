-- ===== src/Configs/Settings/Consensus.antt =====
-- runtime/src/configs/mod.rs: the settings of consensus: GRANDPA, BABE, authorship, offences, heartbeats and sessions.
use testchain.Base.{[], ◌∷◌}
use testchain.Pallets.{babe, historical, im_online, offences, session, staking}
use testchain.RuntimeApi.Babe.{epoch_duration}
use testchain.Configs.Terms.{expected_block_time, report_longevity}
use testchain.Configs.Bounds.{babe_max_authorities}
use testchain.Configs.Elections.{
  max_nominators, im_online_unsigned_priority, max_keys, max_peer_in_heartbeats,
}
use testchain.Configs.Settings.{Table, pallet, runtime, unit, number, named, both, ◌$◌}

-- `pallet_grandpa::Config`
abbrev pub grandpa_settings : Table
grandpa_settings =
    ("RuntimeEvent", named "RuntimeEvent")
    ∷ ("WeightInfo", unit)
    ∷ ("MaxAuthorities", number 32)
    ∷ ("MaxNominators", number 0)
    ∷ ("MaxSetIdSessionEntries", number 0)
    ∷ ("KeyOwnerProof", named "sp_core::Void")
    ∷ ("EquivocationReportSystem", unit)
    ∷ []

-- `pallet_babe::Config`
abbrev pub babe_settings : Table
babe_settings =
    ("EpochDuration", number epoch_duration)
    ∷ ("ExpectedBlockTime", number expected_block_time)
    ∷ ("EpochChangeTrigger", named "pallet_babe::ExternalTrigger")
    ∷ ("DisabledValidators", pallet session)
    ∷ ("WeightInfo", unit)
    ∷ ("MaxAuthorities", number babe_max_authorities)
    ∷ ("MaxNominators", number max_nominators)
    ∷ (
      "KeyOwnerProof",
      named "<Historical as KeyOwnerProofSystem<(KeyTypeId, pallet_babe::AuthorityId)>>::Proof",
    )
    ∷ (
      "EquivocationReportSystem",
      named "pallet_babe::EquivocationReportSystem"
          $ runtime
          $ pallet offences
          $ pallet historical
          $ number report_longevity,
    )
    ∷ []

-- `pallet_authorship::Config`
abbrev pub authorship_settings : Table
authorship_settings =
    ("FindAuthor", named "pallet_session::FindAccountFromAuthorIndex" $ runtime $ pallet babe)
    ∷ ("EventHandler", both (pallet staking) (pallet im_online))
    ∷ []

-- `pallet_offences::Config`
abbrev pub offences_settings : Table
offences_settings =
    ("RuntimeEvent", named "RuntimeEvent")
    ∷ ("IdentificationTuple", named "pallet_session::historical::IdentificationTuple" $ runtime)
    ∷ ("OnOffenceHandler", pallet staking)
    ∷ []

-- `pallet_im_online::Config`
abbrev pub im_online_settings : Table
im_online_settings =
    ("AuthorityId", named "ImOnlineId")
    ∷ ("RuntimeEvent", named "RuntimeEvent")
    ∷ ("NextSessionRotation", pallet babe)
    ∷ ("ValidatorSet", pallet historical)
    ∷ ("ReportUnresponsiveness", pallet offences)
    ∷ ("UnsignedPriority", number im_online_unsigned_priority)
    ∷ ("WeightInfo", named "pallet_im_online::weights::SubstrateWeight" $ runtime)
    ∷ ("MaxKeys", number max_keys)
    ∷ ("MaxPeerInHeartbeats", number max_peer_in_heartbeats)
    ∷ []

-- `pallet_session::Config`
abbrev pub session_settings : Table
session_settings =
    ("RuntimeEvent", named "RuntimeEvent")
    ∷ ("ValidatorId", named "<Self as frame_system::Config>::AccountId")
    ∷ ("ValidatorIdOf", named "pallet_staking::StashOf" $ runtime)
    ∷ ("ShouldEndSession", pallet babe)
    ∷ ("NextSessionRotation", pallet babe)
    ∷ (
      "SessionManager",
      named "pallet_session::historical::NoteHistoricalRoot" $ runtime $ pallet staking,
    )
    ∷ ("SessionHandler", named "<opaque::SessionKeys as OpaqueKeys>::KeyTypeIdProviders")
    ∷ ("Keys", named "opaque::SessionKeys")
    ∷ ("WeightInfo", named "pallet_session::weights::SubstrateWeight" $ runtime)
    ∷ []

-- `pallet_session::historical::Config`
abbrev pub historical_settings : Table
historical_settings =
    ("FullIdentification", named "pallet_staking::Exposure" $ named "AccountId" $ named "Balance")
    ∷ ("FullIdentificationOf", named "pallet_staking::ExposureOf" $ runtime)
    ∷ []

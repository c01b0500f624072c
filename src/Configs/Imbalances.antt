-- ===== src/Configs/Imbalances.antt =====
-- Where money goes that a pallet takes away or does not pay out, by the settings of
-- runtime/src/configs/mod.rs: the handlers of slashes, of fees and of what remains, and the way of an
-- offence from the pallet that reports it to the slash.
use text.Mathlib.Text.{◌==◌ as str_eq}
use testchain.Base.{Bool, Option, none, some, String, if◌then◌else◌}
use testchain.Pallets.{
  Pallet, babe, grandpa, im_online, staking, democracy, elections, treasury, balances,
  election_provider_multi_phase, transaction_payment,
}
use testchain.Configs.Settings.{Setting, pallet, runtime, unit, named, ◌$◌, lookup}
use testchain.Configs.Wiring.{settings}

-- What a handler of imbalances does with them: `()` drops them, which takes them out of the issuance,
-- and the treasury collects them in its pot.
pub data Handler : Type 0 where
  drops collects : Handler

-- The handler that a type stands for; an adapter of fees passes them on to its second argument.
abbrev pub handler : Setting → Option Handler
handler unit = some drops
handler (pallet treasury) = some collects
handler (named n $ currency $ s) =
    let inner = handler s in if str_eq n "FungibleAdapter" then inner else none
handler s = none

-- Where the reports of offences go.
abbrev pub reports_to : Setting → Option Pallet
reports_to (pallet p) = some p
reports_to (named n $ runtime $ pallet p $ historical $ longevity) =
    if str_eq n "pallet_babe::EquivocationReportSystem" then some p else none
reports_to s = none

-- What loses money: the slashes, what is left of an era's rewards, bonds that are forfeited, dust and
-- fees; and the offences.
pub data Loss : Type 0 where
  staking_slash reward_remainder democracy_slash lost_candidacy kicked_member : Loss
  rejected_solution dust fee : Loss
  babe_equivocation grandpa_equivocation unresponsiveness : Loss

module _ (benchmarks : Bool) where
  abbrev at : Pallet → String → Option Setting
  at p key = lookup key (settings benchmarks p)

  abbrev handler_at : Pallet → String → Option Handler
  handler_at p key = elim (at p key) [ none ↦ none | some s ↦ handler s ]

  abbrev reports_at : Option Setting → Option Pallet
  reports_at none = none
  reports_at (some s) = reports_to s

  -- The slash behind the handler that a pallet of offences tells.
  abbrev slash_of : Option Pallet → Option Handler
  slash_of none = none
  slash_of (some p) = handler_at p "Slash"

  abbrev offence_of : Option Pallet → Option Handler
  offence_of none = none
  offence_of (some p) = slash_of (reports_at (at p "OnOffenceHandler"))

  -- The handler of a loss, by the settings; none where nothing is slashed.
  unfoldable pub handler_of : Loss → Option Handler
  handler_of staking_slash = handler_at staking "Slash"
  handler_of reward_remainder = handler_at staking "RewardRemainder"
  handler_of democracy_slash = handler_at democracy "Slash"
  handler_of lost_candidacy = handler_at elections "LoserCandidate"
  handler_of kicked_member = handler_at elections "KickedMember"
  handler_of rejected_solution = handler_at election_provider_multi_phase "SlashHandler"
  handler_of dust = handler_at balances "DustRemoval"
  handler_of fee = handler_at transaction_payment "OnChargeTransaction"
  handler_of babe_equivocation = offence_of (reports_at (at babe "EquivocationReportSystem"))
  handler_of grandpa_equivocation = offence_of (reports_at (at grandpa "EquivocationReportSystem"))
  handler_of unresponsiveness = offence_of (reports_at (at im_online "ReportUnresponsiveness"))

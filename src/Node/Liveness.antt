-- ===== src/Node/Liveness.antt =====
-- The start of a full node (node/src/service.rs) where the crates under it answer every request that it makes.
use mathlib.Core.Path.{subst}
use testchain.Base.{◌≡◌, ◌≢◌, refl, ap, Option, none, List, [], ◌∷◌, ◌++◌, All}
use testchain.Base.Result.{ok, err}
use testchain.Node.Config.{EthConfiguration, Configuration, Sealing}
use testchain.Node.Calls.{Request, wait_for_exit, Call, asked}
use testchain.Node.Every.{Every, Every-implies}
use testchain.Node.Made.{Made, new_full-Made}
use testchain.Node.Startup.{Run}
use testchain.Node.Full.{new_full}
use testchain.Node.Progress.{IsFaithful, new_full-IsFaithful}
use testchain.Node.Milestones.{milestones, network_started, Starts}
use testchain.Node.Consensus.{plan, new_full-Starts}

module _ {E : Type 0} (fails : Request → Option E)
    (answers : (q : Request) → q ≢ wait_for_exit → fails q ≡ none) where
  All-last : (P : Call → Type 0) (before : List Call) (c : Call) → All P (before ++ (c ∷ [])) → P c
  All-last P [] c h = h.0
  All-last P (x ∷ before) c h = All-last P before c h.1

  IsFaithful-started :
      (config : Configuration) (sealing : Option Sealing) (m : Run E (Unit {0}))
      → IsFaithful fails m
      → Every E (λ c. c ≢ asked wait_for_exit) m
      → Starts (plan config sealing) m
      → (calls : List Call) × (m ≡ (calls, ok tt))
        × (milestones calls ≡ plan config sealing ++ (network_started ∷ []))
  unfolding IsFaithful Starts Every
  IsFaithful-started config sealing (calls, ok a) f w s = (calls, refl, s)
  IsFaithful-started config sealing (calls, err e) (before, q, split, all, failed) w s =
      let unlike : asked q ≢ asked wait_for_exit =
        All-last (λ c. c ≢ asked wait_for_exit) before (asked q) (subst (All _) split w) in
      let answered = answers q (λ e. unlike (ap asked e)) in absurd (cc (answered, failed))

  Made-unlike :
      (config : Configuration) (eth_config : EthConfiguration) (sealing : Option Sealing) (c : Call)
      → Made config eth_config sealing c
      → c ≢ asked wait_for_exit
  Made-unlike config eth_config sealing c h e = subst (Made config eth_config sealing) e h

  -- Where every request but the wait for the exit is answered the node starts: it goes through the whole of its plan, the
  -- network with or without warp sync and the tasks of its consensus, and starts the network last.
  pub new_full-started :
      (config : Configuration) (eth_config : EthConfiguration) (sealing : Option Sealing)
      → (calls : List Call) × (new_full fails config eth_config sealing ≡ (calls, ok tt))
        × (milestones calls ≡ plan config sealing ++ (network_started ∷ []))
  new_full-started config eth_config sealing =
      IsFaithful-started config sealing (new_full fails config eth_config sealing)
        (new_full-IsFaithful fails config eth_config sealing)
        (Every-implies E (Made config eth_config sealing) (λ c. c ≢ asked wait_for_exit)
          (Made-unlike config eth_config sealing) (new_full fails config eth_config sealing)
          (new_full-Made fails config eth_config sealing))
        (new_full-Starts fails config eth_config sealing)

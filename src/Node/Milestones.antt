-- ===== src/Node/Milestones.antt =====
-- What a run of the node's start has reached: the network it built, the consensus tasks it spawned
-- and whether the network was started.
use testchain.Base.{Bool, List, [], ◌∷◌, ◌++◌, ◌≡◌, refl, sym, ap, ◌∙◌}
use testchain.Base.Result.{ok, err}
use mathlib.Core.List.{append_assoc}
use testchain.Node.Config.{Sealing}
use testchain.Node.Calls.{
  build_network, Task, manual_seal, babe_proposer, grandpa_voter, spawn, start_network, Call, asked,
  did,
}
use testchain.Node.Startup.{Run, after, ◌>>=◌}

pub data Milestone : Type 0 where
  -- A network, with whether it can warp sync.
  network_built : Bool → Milestone
  sealing_spawned : Sealing → Milestone
  babe_spawned : Milestone
  grandpa_spawned : Milestone
  network_started : Milestone

abbrev reached : Task → List Milestone
reached (manual_seal sealing inherents) = sealing_spawned sealing ∷ []
reached babe_proposer = babe_spawned ∷ []
reached grandpa_voter = grandpa_spawned ∷ []
reached _ = []

abbrev pub milestone : Call → List Milestone
milestone (asked (build_network warp)) = network_built warp ∷ []
milestone (did (spawn handle task)) = reached task
milestone (did start_network) = network_started ∷ []
milestone _ = []

unfoldable pub milestones : List Call → List Milestone
milestones [] = []
milestones (c ∷ calls) = milestone c ++ milestones calls

module _ {E : Type 0} where
  -- A run that ended well has reached `ms`; one that failed, a part of it.
  unfoldable pub Reaches : {A : Type 0} → List Milestone → Run E A → Type 0
  Reaches ms (calls, ok a) = milestones calls ≡ ms
  Reaches ms (calls, err f) = (rest : List Milestone) × (milestones calls ++ rest ≡ ms)

  -- A run that ended well has reached `ms` and then, at its end, started the network; one that
  -- failed has reached a part of `ms` and not started the network.
  unfoldable pub Starts : {A : Type 0} → List Milestone → Run E A → Type 0
  Starts ms (calls, ok a) = milestones calls ≡ ms ++ (network_started ∷ [])
  Starts ms (calls, err f) = (rest : List Milestone) × (milestones calls ++ rest ≡ ms)

milestones-append : (xs ys : List Call) → milestones (xs ++ ys) ≡ milestones xs ++ milestones ys
unfolding milestones
milestones-append [] ys = refl
milestones-append (x ∷ xs) ys =
    rw (milestones-append xs ys, append_assoc (milestone x) (milestones xs) (milestones ys)) refl

module _ {E : Type 0} where
  pub after-Reaches :
      {A : Type 0} (ms ns : List Milestone) (before : List Call) (m : Run E A)
      → milestones before ≡ ms
      → Reaches ns m
      → Reaches (ms ++ ns) (after before m)
  unfolding Reaches
  after-Reaches ms ns before (calls, ok a) h k = simp (milestones-append before calls, h, k)
  after-Reaches ms ns before (calls, err f) h (rest, e) =
      (rest, simp (milestones-append before calls, append_assoc, h, e))

  after-Starts :
      {A : Type 0} (ms ns : List Milestone) (before : List Call) (m : Run E A)
      → milestones before ≡ ms
      → Starts ns m
      → Starts (ms ++ ns) (after before m)
  unfolding Starts
  after-Starts ms ns before (calls, ok a) h k =
      simp (milestones-append before calls, append_assoc, h, k)
  after-Starts ms ns before (calls, err f) h (rest, e) =
      (rest, simp (milestones-append before calls, append_assoc, h, e))

  pub bind-Reaches :
      {A B : Type 0} (ms ns : List Milestone) (m : Run E A) (f : A → Run E B)
      → Reaches ms m
      → ((a : A) → Reaches ns (f a))
      → Reaches (ms ++ ns) (m >>= f)
  unfolding Reaches
  bind-Reaches ms ns (calls, ok a) f h k = after-Reaches ms ns calls (f a) h (k a)
  bind-Reaches ms ns (calls, err e) f (rest, h) k =
      (rest ++ ns, sym (append_assoc (milestones calls) rest ns) ∙ ap (λ l. l ++ ns) h)

  pub bind-Starts :
      {A B : Type 0} (ms ns : List Milestone) (m : Run E A) (f : A → Run E B)
      → Reaches ms m
      → ((a : A) → Starts ns (f a))
      → Starts (ms ++ ns) (m >>= f)
  unfolding Reaches Starts
  bind-Starts ms ns (calls, ok a) f h k = after-Starts ms ns calls (f a) h (k a)
  bind-Starts ms ns (calls, err e) f (rest, h) k =
      (rest ++ ns, sym (append_assoc (milestones calls) rest ns) ∙ ap (λ l. l ++ ns) h)

-- ===== src/Pallets/Authoring.antt =====
-- runtime/src/lib.rs asks for authorship before session, so that the author of a block is noted in the
-- right session: the start of a block, with the handlers that runtime/src/configs/mod.rs gives
-- authorship.
use testchain.Base.{
  ℕ, ◌≤◌, ◌<◌, ◌≡◌, ◌≢◌, refl, ap, sym, ◌∙◌, Option, none, some, List, [], ◌∷◌, ◌++◌, arith,
}
use testchain.Pallets.{Pallet, pallet_index, authorship, session, staking, im_online}
use testchain.Pallets.Hooks.{on_initialize_all, run_hooks, Within, initialize-order}
use testchain.Configs.Settings.{Setting, pallet, both, lookup}
use testchain.Configs.Settings.Consensus.{authorship_settings}

-- The pallets that a type of `EventHandler` tells, in their order.
abbrev pub handlers : Setting → List Pallet
handlers (pallet p) = p ∷ []
handlers (both a b) = handlers a ++ handlers b
handlers s = []

abbrev handlers_at : Option Setting → List Pallet
handlers_at none = []
handlers_at (some s) = handlers s

-- `EventHandler` of authorship.
unfoldable pub event_handlers : List Pallet
event_handlers = handlers_at (lookup "EventHandler" authorship_settings)

-- The hooks of the pallets, what authorship finds in a block's digest, and what a handler does with it.
pub record Blocks : Type 1 where
  pub State : Type 0
  pub Author : Type 0
  pub hook : Pallet → State → State
  pub author : State → Option Author
  pub note_author : Pallet → Author → State → State

module _ (B : Blocks) where
  open B use {State, Author, hook, author, note_author}

  abbrev note_all : List Pallet → Author → State → State
  note_all [] a s = s
  note_all (p ∷ ps) a s = note_all ps a (note_author p a s)

  abbrev noted : Option Author → State → State
  noted none s = s
  noted (some a) s = note_all event_handlers a s

  -- The documented behaviour. Authorship has the author of a block noted by its handlers, and a handler
  -- notes it in the session that the chain is in. Of the other hooks only that of sessions changes the
  -- session or the notes, and none the author of the block.
  pub record IsAuthoring : Type 0 where
    pub session_index : State → ℕ
    pub notes : Pallet → State → List (ℕ × Author)
    pub authorship_hook : (s : State) → hook authorship s ≡ noted (author s) s
    pub note_lem :
        (p : Pallet) (a : Author) (s : State)
        → notes p (note_author p a s) ≡ (session_index s, a) ∷ notes p s
    pub note_others :
        (p q : Pallet) (a : Author) (s : State) → p ≢ q → notes q (note_author p a s) ≡ notes q s
    pub note_session :
        (p : Pallet) (a : Author) (s : State) → session_index (note_author p a s) ≡ session_index s
    pub quiet :
        (p : Pallet) (s : State)
        → p ≢ authorship
        → p ≢ session
        → (session_index (hook p s) ≡ session_index s)
          × (author (hook p s) ≡ author s)
          × ((q : Pallet) → notes q (hook p s) ≡ notes q s)

  module _ (I : IsAuthoring) where
    -- Nothing of it has changed.
    abbrev Same : State → State → Type 0
    Same s s' =
        (I.session_index s' ≡ I.session_index s)
        × (author s' ≡ author s)
        × ((q : Pallet) → I.notes q s' ≡ I.notes q s)

    run-Same :
        (n m : ℕ) (ps : List Pallet) (s : State)
        → Within n m ps
        → ((p : Pallet)
            → n ≤ pallet_index p
            → pallet_index p < m
            → (p ≢ authorship) × (p ≢ session))
        → Same s (run_hooks hook ps s)
    run-Same n m [] s w h = (refl, refl, λ q. refl)
    run-Same n m (p ∷ ps) s w h =
        let other = h p w.0.0 w.0.1 in
        let step = I.quiet p s other.0 other.1 in
        let rest = run-Same n m ps (hook p s) w.1 h in
        (rest.0 ∙ step.0, rest.1 ∙ step.1, λ q. rest.2 q ∙ step.2 q)

    staking≢im_online : staking ≢ im_online
    unfolding pallet_index
    staking≢im_online e = absurd (omega (arith, ap pallet_index e))

    early :
        (p : Pallet) → 0 ≤ pallet_index p → pallet_index p < 15 → (p ≢ authorship) × (p ≢ session)
    unfolding pallet_index
    early p l h = (
      λ e. absurd (omega (arith, h, ap pallet_index e)),
      λ e. absurd (omega (arith, h, ap pallet_index e)),
    )

    between :
        (p : Pallet) → 16 ≤ pallet_index p → pallet_index p < 22 → (p ≢ authorship) × (p ≢ session)
    unfolding pallet_index
    between p l h = (
      λ e. absurd (omega (arith, l, ap pallet_index e)),
      λ e. absurd (omega (arith, h, ap pallet_index e)),
    )

    -- What the handlers of authorship do to a state.
    both_note :
        (a : Author) (s : State)
        → author s ≡ some a
        → (I.session_index (hook authorship s) ≡ I.session_index s)
          × (I.notes staking (hook authorship s) ≡ (I.session_index s, a) ∷ I.notes staking s)
          × (I.notes im_online (hook authorship s) ≡ (I.session_index s, a) ∷ I.notes im_online s)
    unfolding event_handlers
    both_note a s h =
        let s' = note_author staking a s in
        rw (I.authorship_hook s, h)
          (
            I.note_session im_online a s' ∙ I.note_session staking a s,
            I.note_others im_online staking a s' (λ e. staking≢im_online (sym e))
                ∙ I.note_lem staking a s,
            rw (
              I.note_lem im_online a s',
              I.note_session staking a s,
              I.note_others staking im_online a s staking≢im_online,
            ),
          )

    -- The author of a block is noted in the session that the block finds. When the hook of sessions
    -- runs, which may start the next session, the hooks before it have had the author noted by staking
    -- and by the heartbeats' pallet, once each, in the session of the start of the block.
    pub initialize-note_author :
        (s : State) (a : Author)
        → author s ≡ some a
        → (zs : List Pallet) × (s' : State) × (on_initialize_all hook s
            ≡ run_hooks hook zs (hook session s'))
          × (I.session_index s' ≡ I.session_index s)
          × (I.notes staking s' ≡ (I.session_index s, a) ∷ I.notes staking s)
          × (I.notes im_online s' ≡ (I.session_index s, a) ∷ I.notes im_online s)
    unfolding pallet_index
    initialize-note_author s a h =
        let (xs, ys, zs, e, first, middle, last, runs) =
          initialize-order hook authorship session s (omega arith) in
        let s₁ = run_hooks hook xs s in
        let s₂ = hook authorship s₁ in
        let before = run-Same 0 15 xs s first early in
        let noting = both_note a s₁ (before.1 ∙ h) in
        let after = run-Same 16 22 ys s₂ middle between in
        (
          zs,
          run_hooks hook ys s₂,
          runs,
          after.0 ∙ noting.0 ∙ before.0,
          after.2 staking ∙ noting.1 ∙ rw (before.0, before.2 staking),
          after.2 im_online ∙ noting.2 ∙ rw (before.0, before.2 im_online),
        )

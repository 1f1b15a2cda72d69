-- ===== src/Eloop/Loop.antt =====
-- eloop::loop. Each round polls, runs the active channels' callbacks and then the pending functors.
-- The answers of epoll_wait are an input: the loop is followed as long as there are answers.
use caimr.Prelude.{
  ℕ, ◌+◌, ◌≡◌, refl, ap, ◌∙◌, inl, inr, Bool-cases, Bool, true, false, List, [], ◌∷◌, ◌++◌, ◌==◌,
  if◌then◌else◌,
}
use caimr.Chan.{Chan}
use caimr.Poller
use caimr.Poller.{Wait}
use caimr.Eloop.{Eloop, quit, do_pending_functors}

-- What the loop needs of the rest of the program: how a functor runs, what the callbacks of an
-- active channel do (`handle_event`), and the channels that poll reports to.
pub record Program {ℓ κ} (F : Type ℓ) (W : Type κ) : Type (ℓ ⊔ κ) where
  pub exec : F → Eloop F × W → Eloop F × W
  pub handle_event : ℕ → Eloop F × W → Eloop F × W
  pub chans : W → List Chan
  pub set_chans : List Chan → W → W

module _ {ℓ κ} {F : Type ℓ} {W : Type κ} (p : Program F W) where
  unfoldable pub handle_events : List ℕ → Eloop F × W → Eloop F × W
  handle_events [] s = s
  handle_events (ch ∷ active) s = handle_events active (p.handle_event ch s)

  -- The body of the loop.
  unfoldable pub round : Wait → Eloop F × W → Eloop F × W
  unfolding handle_events
  round answer (l, w) =
      let (poller, chans, active_chs) = Poller.poll l.poller answer (p.chans w) [] in
      do_pending_functors p.exec
        (handle_events active_chs (record l { poller = poller }, p.set_chans chans w))

  -- The Boolean says whether the loop has been left.
  unfoldable pub rounds : List Wait → Eloop F × W → (Eloop F × W) × Bool
  rounds [] s = (s, s.0.quit_flag)
  rounds (answer ∷ answers) s =
      let rest = rounds answers (round answer s) in if s.0.quit_flag then (s, true) else rest

  -- `looping_` is lowered when the loop has been left.
  abbrev pub leave : (Eloop F × W) × Bool → (Eloop F × W) × Bool
  leave ((l, w), false) = ((l, w), false)
  leave ((l, w), true) = ((record l { looping = false }, w), true)

  unfoldable pub loop : List Wait → Eloop F × W → (Eloop F × W) × Bool
  unfolding rounds
  loop answers (l, w) = leave (rounds answers (record l { looping = true; quit_flag = false }, w))

  -- The state at the test of the loop after some rounds.
  abbrev pub after : List Wait → Eloop F × W → Eloop F × W
  after [] s = s
  after (answer ∷ answers) s = after answers (round answer s)

  abbrev pub entered : Eloop F × W → Eloop F × W
  entered (l, w) = (record l { looping = true; quit_flag = false }, w)

  -- `quit` has not been called before the test that follows any of these rounds but the last.
  abbrev pub Undisturbed : List Wait → Eloop F × W → Type 0
  Undisturbed [] s = Unit {0}
  Undisturbed (answer ∷ answers) s = (s.0.quit_flag ≡ false) × Undisturbed answers (round answer s)

  rounds-append :
      (done later : List Wait) (s : Eloop F × W)
      → Undisturbed done s
      → rounds (done ++ later) s ≡ rounds later (after done s)
  unfolding rounds
  rounds-append [] later s u = refl
  rounds-append (answer ∷ answers) later s u =
      simp u.0 (rounds-append answers later (round answer s) u.1)

  rounds-quit :
      (answers : List Wait) (s : Eloop F × W) → s.0.quit_flag ≡ true → rounds answers s ≡ (s, true)
  unfolding rounds
  rounds-quit [] s q = rw q
  rounds-quit (answer ∷ answers) s q = rw q

  -- The loop is left at the first test that finds the quit flag set, in the state that the rounds up
  -- to there left, with `looping` down; no later answer of epoll_wait is looked at.
  loop_stops :
      (done later : List Wait) (s : Eloop F × W)
      → Undisturbed done (entered s)
      → (after done (entered s)).0.quit_flag ≡ true
      → loop (done ++ later) s ≡ (
        (record (after done (entered s)).0 { looping = false }, (after done (entered s)).1),
        true,
      )
  unfolding loop
  loop_stops done later s u q =
      ap leave
        (rounds-append done later (entered s) u ∙ rounds-quit later (after done (entered s)) q)

  entered-quit :
      (tid : ℕ) (l : Eloop F) (w : W)
      → entered (quit tid l, w)
        ≡ entered
            (record l { wakeups = if l.thread_id == tid then l.wakeups else l.wakeups + 1 }, w)
  unfolding quit
  entered-quit tid l w = elim (Bool-cases (l.thread_id == tid)) [
    | inl own ↦ simp own
    | inr other ↦ simp other
  ]

  -- A `quit` that comes before `loop` is forgotten: the loop goes on as if only the wakeup had
  -- happened, since `loop` lowers the quit flag when it begins.
  loop_forgets_quit :
      (tid : ℕ) (answers : List Wait) (l : Eloop F) (w : W)
      → loop answers (quit tid l, w)
        ≡ loop answers
            (record l { wakeups = if l.thread_id == tid then l.wakeups else l.wakeups + 1 }, w)
  unfolding loop
  loop_forgets_quit tid answers l w = ap (λ s. leave (rounds answers s)) (entered-quit tid l w)

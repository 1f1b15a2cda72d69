-- ===== src/EloopThread/Ending.antt =====
-- The destructor of eloop_thread: quit the loop and join the thread. `loop()` lowers the quit flag when
-- it begins, so that all depends on whether the loop has been entered.
use mathlib.Core.Bool.{true≢false}
use caimr.Prelude.{◌≤◌, ◌≡◌, refl, sym, ◌∙◌, ap, ◌⊎◌, inl, inr, Bool, true, false, arith}
use caimr.EloopThread.{
  EloopThread, create, OwnerPc, constructed, starting, checking, asleep, returned, quitting,
  joining, destroyed, ThreadPc, unborn, born, creating, initialising, published, looping, leaving,
  ended, alive, OwnerStep, start, started, sleep, return, find_loop, find_none, never_started, quit,
  joined, ThreadStep, promise, construct, publish, enter, leave, end, Step, by_owner, by_thread,
  other_quit, wake, Steps, here, next, Inevitable,
}
use caimr.EloopThread.Stages.{stage, Inv, at}
use caimr.EloopThread.Kept.{reached-Inv}
use caimr.EloopThread.Ranks.{inevitable}

abbrev in_end : OwnerPc → Bool
in_end quitting = true
in_end joining = true
in_end _ = false

-- The destructor has found the loop, which has been entered, and its quit is not forgotten.
record Ending (s : EloopThread) : Type 0 where
  entered : 5 ≤ stage s.thread
  ends : in_end s.owner ≡ true
  flag : s.owner ≡ joining → s.thread ≡ looping → s.quit_flag ≡ true

abbrev pub Released : EloopThread → Type 0
Released s = (s.owner ≡ destroyed) × (s.thread ≡ ended) × (s.joinable ≡ false)

out : {o p : OwnerPc} {A : Type 0} → o ≡ p → in_end p ≡ false → in_end o ≡ true → A
out h f b = absurd (true≢false (sym b ∙ ap in_end h ∙ f))

owner-keep : {s t : EloopThread} → OwnerStep s t → Ending s → Released t ⊎ Ending t
owner-keep (start h) g = out h refl g.ends
owner-keep (started h p) g = out h refl g.ends
owner-keep (sleep h n) g = out h refl g.ends
owner-keep (return h n) g = out h refl g.ends
owner-keep (find_loop h n) g = out h refl g.ends
owner-keep (find_none h n) g = out h refl g.ends
owner-keep (never_started h) g = out h refl g.ends
owner-keep (quit h a) g = inr (record { entered = g.entered; ends = refl; flag = λ _ _. refl })
owner-keep (joined h e) g = inl (refl, e, refl)

thread-keep : {s t : EloopThread} → ThreadStep s t → Ending s → Ending t
thread-keep (promise h) g = absurd (omega (arith, g.entered, ap stage h))
thread-keep (construct h) g = absurd (omega (arith, g.entered, ap stage h))
thread-keep (publish h) g = absurd (omega (arith, g.entered, ap stage h))
thread-keep (enter h) g = absurd (omega (arith, g.entered, ap stage h))
thread-keep (leave h q) g = record {
  entered = omega arith;
  ends = g.ends;
  flag = λ _ l. absurd (omega (arith, ap stage l));
}
thread-keep (end h) g = record {
  entered = omega arith;
  ends = g.ends;
  flag = λ _ l. absurd (omega (arith, ap stage l));
}

keep : (s t : EloopThread) → Step false false s t → Inv s → Ending s → Released t ⊎ Ending t
keep s t (by_owner o) v g = owner-keep o g
keep s t (by_thread r) v g = inr (thread-keep r g)
keep s t (other_quit q a) v g = absurd (true≢false (sym q))
keep s t (wake p h) v g = absurd (true≢false (sym p))

quitting-alive : (p : ThreadPc) → 5 ≤ stage p → stage p ≤ 5 → alive p ≡ true
unfolding alive
quitting-alive unborn a b = absurd (omega (arith, a))
quitting-alive born a b = absurd (omega (arith, a))
quitting-alive creating a b = absurd (omega (arith, a))
quitting-alive initialising a b = refl
quitting-alive published a b = refl
quitting-alive looping a b = refl
quitting-alive leaving a b = refl
quitting-alive ended a b = absurd (omega (arith, b))

joining_go :
    (s : EloopThread) (p : ThreadPc)
    → s.thread ≡ p
    → s.owner ≡ joining
    → Ending s
    → 5 ≤ stage p
    → (t : EloopThread) × Step false false s t
joining_go s looping e h g a = (_, by_thread (leave e (g.flag h e)))
joining_go s leaving e h g a = (_, by_thread (end e))
joining_go s ended e h g a = (_, by_owner (joined h e))
joining_go s unborn e h g a = absurd (omega (arith, a))
joining_go s born e h g a = absurd (omega (arith, a))
joining_go s creating e h g a = absurd (omega (arith, a))
joining_go s initialising e h g a = absurd (omega (arith, a))
joining_go s published e h g a = absurd (omega (arith, a))

go_at :
    (s : EloopThread) (o : OwnerPc)
    → s.owner ≡ o
    → Inv s
    → Ending s
    → in_end o ≡ true
    → (t : EloopThread) × Step false false s t
go_at s quitting h v g b = (_, by_owner (quit h (quitting-alive s.thread g.entered (at h v).1)))
go_at s joining h v g b = joining_go s s.thread refl h g g.entered
go_at s constructed h v g b = absurd (true≢false (sym b))
go_at s starting h v g b = absurd (true≢false (sym b))
go_at s checking h v g b = absurd (true≢false (sym b))
go_at s asleep h v g b = absurd (true≢false (sym b))
go_at s returned h v g b = absurd (true≢false (sym b))
go_at s destroyed h v g b = absurd (true≢false (sym b))

quitting-Ending : {s : EloopThread} → s.owner ≡ quitting → s.thread ≡ looping → Ending s
quitting-Ending h l = record {
  entered = omega (arith, ap stage l);
  ends = ap in_end h;
  flag = λ j _. absurd cc;
}

-- The destructor that finds the loop entered comes to its end, with the thread ended and joined, if
-- nobody else quits the loop: some step is possible until then, and no sequence of steps goes on
-- without that.
pub destructor_ends :
    {spurious : Bool} {s : EloopThread}
    → Steps false spurious create s
    → s.owner ≡ quitting
    → s.thread ≡ looping
    → Inevitable false false Released s
destructor_ends r h l =
    inevitable Released Ending (λ s v g. go_at s s.owner refl v g g.ends) keep (reached-Inv r)
      (quitting-Ending h l)

hung :
    {spurious : Bool} {s t : EloopThread}
    → Step false spurious s t
    → s.owner ≡ joining
    → s.thread ≡ looping
    → s.quit_flag ≡ false
    → ⊥
hung (by_owner (start h)) o l q = cc
hung (by_owner (started h p)) o l q = cc
hung (by_owner (sleep h n)) o l q = cc
hung (by_owner (return h n)) o l q = cc
hung (by_owner (find_loop h n)) o l q = cc
hung (by_owner (find_none h n)) o l q = cc
hung (by_owner (never_started h)) o l q = cc
hung (by_owner (quit h a)) o l q = cc
hung (by_owner (joined h e)) o l q = cc
hung (by_thread (promise h)) o l q = cc
hung (by_thread (construct h)) o l q = cc
hung (by_thread (publish h)) o l q = cc
hung (by_thread (enter h)) o l q = cc
hung (by_thread (leave h f)) o l q = cc
hung (by_thread (end h)) o l q = cc
hung (other_quit f a) o l q = cc
hung (wake f h) o l q = cc

-- Before a `quit` of a loop that is gone there is no step.
gone :
    {quits spurious : Bool} {s t : EloopThread}
    → Step quits spurious s t
    → s.owner ≡ quitting
    → s.thread ≡ ended
    → alive s.thread ≡ false
    → ⊥
gone (by_owner (start h)) o l q = cc
gone (by_owner (started h p)) o l q = cc
gone (by_owner (sleep h n)) o l q = cc
gone (by_owner (return h n)) o l q = cc
gone (by_owner (find_loop h n)) o l q = cc
gone (by_owner (find_none h n)) o l q = cc
gone (by_owner (never_started h)) o l q = cc
gone (by_owner (quit h a)) o l q = cc
gone (by_owner (joined h e)) o l q = cc
gone (by_thread (promise h)) o l q = cc
gone (by_thread (construct h)) o l q = cc
gone (by_thread (publish h)) o l q = cc
gone (by_thread (enter h)) o l q = cc
gone (by_thread (leave h f)) o l q = cc
gone (by_thread (end h)) o l q = cc
gone (other_quit f a) o l q = cc
gone (wake f h) o l q = cc

-- The destructor that finds the loop published and not yet entered may wait for ever: its quit may
-- come before the store that begins `loop()`, and then the owner is in `join`, the thread in the loop
-- with the quit flag down, and, if nobody else quits the loop, no step is possible any more.
pub destructor_hangs :
    (spurious : Bool) (s : EloopThread)
    → s.owner ≡ quitting
    → s.thread ≡ published
    → (t : EloopThread) × Steps false spurious s t
      × (t.owner ≡ joining)
      × (t.thread ≡ looping)
      × ((u : EloopThread) → ¬ Step false spurious t u)
unfolding alive
destructor_hangs spurious s h p = (
  record s { owner = joining; thread = looping; quit_flag = false },
  next (next here (by_owner (quit h (ap alive p)))) (by_thread (enter p)),
  refl,
  refl,
  λ u st. hung st refl refl refl,
)

-- When somebody else quits the loop, the destructor may call `quit` of a loop that is gone: from where
-- it has found `loop_` set, with the loop entered, the thread may go on to its end, and then the
-- destructor stands before a `quit` that it cannot carry out, and no step is possible any more.
pub destructor_races :
    (spurious : Bool) (s : EloopThread)
    → s.owner ≡ quitting
    → s.thread ≡ looping
    → (t : EloopThread) × Steps true spurious s t
      × (t.owner ≡ quitting)
      × (alive t.thread ≡ false)
      × ((u : EloopThread) → ¬ Step true spurious t u)
unfolding alive
destructor_races spurious s h l = (
  record s { thread = ended; loop_ = false; quit_flag = true },
  next (next (next here (other_quit refl (ap alive l))) (by_thread (leave l refl)))
      (by_thread (end refl)),
  h,
  refl,
  λ u st. gone st h refl refl,
)

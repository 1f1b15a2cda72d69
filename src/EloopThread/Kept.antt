-- ===== src/EloopThread/Kept.antt =====
-- No step takes the owner and the thread of an eloop_thread further apart than EloopThread/Stages says.
use mathlib.Core.Bool.{true≢false}
use caimr.Prelude.{◌≤◌, ◌≡◌, refl, sym, ◌∙◌, subst, Bool, false, arith}
use caimr.EloopThread.{
  EloopThread, create, ThreadPc, OwnerStep, start, started, sleep, return, find_loop, find_none,
  never_started, quit, joined, ThreadStep, promise, construct, publish, enter, leave, end, Step,
  by_owner, by_thread, other_quit, wake, Steps, here, next,
}
use caimr.EloopThread.Stages.{
  stage, first, last, Inv, at, loop-thread, last-value, notify-above, notify-below, notify-Unquit,
  Unquit-false, quit-last, promised-stage, loop-early, loop-late, loop-none,
}

owner-Inv : {s t : EloopThread} → OwnerStep s t → Inv s → Inv t
owner-Inv {s} (start h) v =
    let (a, b, u) = at h v in
    record {
      loop_lem = v.loop_lem ∙ loop-none s.thread (omega (arith, b));
      above = omega arith;
      below = omega arith;
      unquit = u;
    }
owner-Inv {s} (started h p) v =
    let (a, b, u) = at h v in
    record { loop_lem = v.loop_lem; above = promised-stage s.thread p; below = b; unquit = u }
owner-Inv {s} (sleep h n) v =
    let (a, b, u) = at h v in
    record {
      loop_lem = v.loop_lem;
      above = a;
      below = loop-early s.thread b (sym v.loop_lem ∙ n);
      unquit = u;
    }
owner-Inv {s} (return h n) v =
    let (a, b, u) = at h v in
    record {
      loop_lem = v.loop_lem;
      above = loop-late s.thread (sym v.loop_lem ∙ n);
      below = b;
      unquit = u;
    }
owner-Inv (find_loop h n) v =
    let (a, b, u) = at h v in record { loop_lem = v.loop_lem; above = a; below = b; unquit = u }
owner-Inv (find_none h n) v =
    let (a, b, u) = at h v in
    record { loop_lem = v.loop_lem; above = omega arith; below = omega (arith, b); unquit = tt }
owner-Inv (never_started h) v =
    let (a, b, u) = at h v in
    record { loop_lem = v.loop_lem; above = omega arith; below = omega (arith, b); unquit = tt }
owner-Inv (quit h _) v =
    let (a, b, u) = at h v in
    record { loop_lem = v.loop_lem; above = a; below = omega (arith, b); unquit = tt }
owner-Inv (joined h e) v =
    let (a, b, u) = at h v in
    record { loop_lem = v.loop_lem; above = omega arith; below = b; unquit = tt }

-- The stages of a thread that is known to stand at `p`.
thread-at :
    {s : EloopThread} {p : ThreadPc}
    → s.thread ≡ p
    → Inv s
    → (first s.owner ≤ stage p) × (stage p ≤ last s.owner)
thread-at {s} h v =
    (subst (λ p. first s.owner ≤ stage p) h v.above, subst (λ p. stage p ≤ last s.owner) h v.below)

thread-Inv : {s t : EloopThread} → ThreadStep s t → Inv s → Inv t
thread-Inv {s} (promise h) v =
    let (a, b) = thread-at h v in
    record {
      loop_lem = loop-thread h v;
      above = omega (arith, a);
      below = omega (arith, b, last-value s.owner);
      unquit = v.unquit;
    }
thread-Inv {s} (construct h) v =
    let (a, b) = thread-at h v in
    record {
      loop_lem = loop-thread h v;
      above = omega (arith, a);
      below = omega (arith, b, last-value s.owner);
      unquit = Unquit-false s.owner;
    }
thread-Inv {s} (publish h) v =
    let (a, b) = thread-at h v in
    record {
      loop_lem = refl;
      above = notify-above s.owner a;
      below = notify-below s.owner b;
      unquit = notify-Unquit s.owner s.quit_flag v.unquit;
    }
thread-Inv {s} (enter h) v =
    let (a, b) = thread-at h v in
    record {
      loop_lem = loop-thread h v;
      above = omega (arith, a);
      below = omega (arith, b, last-value s.owner);
      unquit = Unquit-false s.owner;
    }
thread-Inv {s} (leave h q) v =
    let (a, b) = thread-at h v in
    record {
      loop_lem = loop-thread h v;
      above = omega (arith, a);
      below = omega (arith, quit-last s.owner s.quit_flag v.unquit q);
      unquit = v.unquit;
    }
thread-Inv {s} (end h) v =
    let (a, b) = thread-at h v in
    record {
      loop_lem = refl;
      above = omega (arith, a);
      below = omega (arith, b, last-value s.owner);
      unquit = v.unquit;
    }

pub step-Inv : {spurious : Bool} {s t : EloopThread} → Step false spurious s t → Inv s → Inv t
step-Inv (by_owner o) v = owner-Inv o v
step-Inv (by_thread r) v = thread-Inv r v
step-Inv (other_quit q a) v = absurd (true≢false (sym q))
step-Inv (wake p h) v =
    let (a, b, u) = at h v in
    record { loop_lem = v.loop_lem; above = a; below = omega (arith, b); unquit = u }

pub Steps-Inv : {spurious : Bool} {s t : EloopThread} → Steps false spurious s t → Inv s → Inv t
Steps-Inv here v = v
Steps-Inv (next r st) v = step-Inv st (Steps-Inv r v)

-- Every place that the program reaches from the constructor on.
pub reached-Inv : {spurious : Bool} {s : EloopThread} → Steps false spurious create s → Inv s
unfolding create
reached-Inv r =
    Steps-Inv r
      (record { loop_lem = refl; above = omega arith; below = omega arith; unquit = refl })

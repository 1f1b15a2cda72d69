-- ===== src/EloopThread/Ranks.antt =====
-- The steps of an eloop_thread come to an end, when nobody but the destructor quits the loop and the
-- wait of start_loop ends only when notified.
use mathlib.Core.Bool.{true≢false}
use caimr.Prelude.{
  ℕ, zero, suc, ◌+◌, ◌*◌, ◌≤◌, ◌<◌, ◌≡◌, refl, sym, ap, ◌⊎◌, inl, inr, false, arith,
}
use caimr.EloopThread.{
  EloopThread, OwnerPc, constructed, starting, checking, asleep, returned, quitting, joining,
  destroyed, ThreadPc, unborn, born, creating, initialising, published, looping, leaving, ended,
  notify_one, OwnerStep, start, started, sleep, return, find_loop, find_none, never_started, quit,
  joined, ThreadStep, promise, construct, publish, enter, leave, end, Step, by_owner, by_thread,
  other_quit, wake, Inevitable, now, later,
}
use caimr.EloopThread.Stages.{stage, Inv, at}
use caimr.EloopThread.Kept.{step-Inv}

-- An upper bound of the steps that are left.
abbrev owner_rank : OwnerPc → ℕ
owner_rank constructed = 8
owner_rank starting = 7
owner_rank checking = 6
owner_rank asleep = 5
owner_rank returned = 4
owner_rank quitting = 3
owner_rank joining = 2
owner_rank destroyed = 0

abbrev thread_rank : ThreadPc → ℕ
thread_rank unborn = 14
thread_rank born = 12
thread_rank creating = 10
thread_rank initialising = 8
thread_rank published = 6
thread_rank looping = 4
thread_rank leaving = 2
thread_rank ended = 0

abbrev pub rank : EloopThread → ℕ
rank s = owner_rank s.owner + thread_rank s.thread

rank-stage : (p : ThreadPc) → thread_rank p + 2 * stage p ≡ 14
rank-stage unborn = refl
rank-stage born = refl
rank-stage creating = refl
rank-stage initialising = refl
rank-stage published = refl
rank-stage looping = refl
rank-stage leaving = refl
rank-stage ended = refl

rank-notify : (o : OwnerPc) → owner_rank (notify_one o) ≤ owner_rank o + 1
unfolding notify_one
rank-notify constructed = omega arith
rank-notify starting = omega arith
rank-notify checking = omega arith
rank-notify asleep = omega arith
rank-notify returned = omega arith
rank-notify quitting = omega arith
rank-notify joining = omega arith
rank-notify destroyed = omega arith

owner-rank : {s t : EloopThread} → OwnerStep s t → Inv s → rank t < rank s
owner-rank {s} (start h) v =
    omega (arith, (at h v).0, (at h v).1, ap owner_rank h, rank-stage s.thread)
owner-rank (started h p) v = omega (arith, ap owner_rank h)
owner-rank (sleep h n) v = omega (arith, ap owner_rank h)
owner-rank (return h n) v = omega (arith, ap owner_rank h)
owner-rank (find_loop h n) v = omega (arith, ap owner_rank h)
owner-rank (find_none h n) v = omega (arith, ap owner_rank h)
owner-rank (never_started h) v = omega (arith, ap owner_rank h)
owner-rank (quit h a) v = omega (arith, ap owner_rank h)
owner-rank (joined h e) v = omega (arith, ap owner_rank h)

thread-rank : {s t : EloopThread} → ThreadStep s t → rank t < rank s
thread-rank (promise h) = omega (arith, ap thread_rank h)
thread-rank (construct h) = omega (arith, ap thread_rank h)
thread-rank {s} (publish h) = omega (arith, ap thread_rank h, rank-notify s.owner)
thread-rank (enter h) = omega (arith, ap thread_rank h)
thread-rank (leave h q) = omega (arith, ap thread_rank h)
thread-rank (end h) = omega (arith, ap thread_rank h)

pub step-rank : {s t : EloopThread} → Step false false s t → Inv s → rank t < rank s
step-rank (by_owner o) v = owner-rank o v
step-rank (by_thread r) v = thread-rank r
step-rank (other_quit q a) v = absurd (true≢false (sym q))
step-rank (wake p h) v = absurd (true≢false (sym p))

-- What a step is possible at, and every step keeps or turns into `P`, ends in `P`.
module _ (P Good : EloopThread → Type 0)
    (go : (s : EloopThread) → Inv s → Good s → (t : EloopThread) × Step false false s t)
    (keep : (s t : EloopThread) → Step false false s t → Inv s → Good s → P t ⊎ Good t) where
  inevitable_within :
      (n : ℕ) (s : EloopThread) → rank s ≤ n → Inv s → Good s → Inevitable false false P s
  inevitable_within zero s b v g =
      let (t, st) = go s v g in absurd (omega (arith, b, step-rank st v))
  inevitable_within (suc n) s b v g = later (go s v g) (λ t st. elim (keep s t st v g) [
    | inl p ↦ now p
    | inr g' ↦ inevitable_within n t (omega (arith, b, step-rank st v)) (step-Inv st v) g'
  ])

  pub inevitable : {s : EloopThread} → Inv s → Good s → Inevitable false false P s
  inevitable {s} v g = inevitable_within (rank s) s (omega arith) v g

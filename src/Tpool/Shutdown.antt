-- ===== src/Tpool/Shutdown.antt =====
-- What becomes of the workers and of the queue after `stop`, and after tasks that threw.
use mathlib.Core.Bool.{true≢false}
use caimr.Prelude.{
  ℕ, suc, ◌+◌, ◌*◌, ◌≤◌, ◌<◌, ◌≡◌, refl, sym, ap, ◌∙◌, ◌⊎◌, inl, inr, false, some, List, [], ◌∷◌,
  length, get_elem?, map, arith,
}
use caimr.Tpool.{
  Tpool, WorkerPc, starting, ready, waiting, working, gone, WorkerStep, begin, begin_throws, take,
  wait, leave, wake, finish, throw, Step, works, add_notify, add_alone, stop, awaken, Reach, next,
}
use caimr.Tpool.Waiting.{total, total-set, is_waiting, stopped_none_wait}

module _ {T : Type 0} where
  -- The steps a worker may still take on its own, and an upper bound for all of them together.
  abbrev pub left_to_do : WorkerPc T → ℕ
  left_to_do starting = 2
  left_to_do ready = 1
  left_to_do waiting = 2
  left_to_do (working task) = 2
  left_to_do gone = 0

  abbrev pub bound : Tpool T → ℕ
  bound p = 2 * length p.queue + total left_to_do p.workers

  -- `Works n p q`: the workers lead the pool from `p` to `q` in `n` steps.
  pub data Works : ℕ → Tpool T → Tpool T → Type 0 where
    none_yet : {p : Tpool T} → Works 0 p p
    and_then : {n : ℕ} {p q r : Tpool T} → WorkerStep p q → Works n q r → Works (suc n) p r

  -- A step that a worker takes without being woken.
  abbrev pub Unprompted : {p q : Tpool T} → WorkerStep p q → Type 0
  Unprompted (wake i w) = ⊥
  Unprompted _ = Unit {0}

  abbrev pub OwnStep : Tpool T → Tpool T → Type 0
  OwnStep p q = (s : WorkerStep p q) × Unprompted s

  worker-running : {p q : Tpool T} → WorkerStep p q → p.running ≡ false → q.running ≡ false
  worker-running (begin i w) h = h
  worker-running (begin_throws i w) h = h
  worker-running (take i task rest w e) h = h
  worker-running (wait i w e r) h = h
  worker-running (leave i w e r) h = h
  worker-running (wake i w) h = h
  worker-running (finish i task w) h = h
  worker-running (throw i task w) h = h

  worker-bound : {p q : Tpool T} → WorkerStep p q → p.running ≡ false → bound q < bound p
  worker-bound {p} (begin i w) h = omega (arith, total-set left_to_do p.workers i starting ready w)
  worker-bound {p} (begin_throws i w) h =
      omega (arith, total-set left_to_do p.workers i starting gone w)
  worker-bound {p} (take i task rest w e) h =
      omega (arith, total-set left_to_do p.workers i ready (working task) w, ap length e)
  worker-bound {p} (wait i w e r) h = absurd (true≢false (sym r ∙ h))
  worker-bound {p} (leave i w e r) h = omega (arith, total-set left_to_do p.workers i ready gone w)
  worker-bound {p} (wake i w) h = omega (arith, total-set left_to_do p.workers i waiting ready w)
  worker-bound {p} (finish i task w) h =
      omega (arith, total-set left_to_do p.workers i (working task) ready w)
  worker-bound {p} (throw i task w) h =
      omega (arith, total-set left_to_do p.workers i (working task) gone w)

  stop_terminates :
      {n : ℕ} {p q : Tpool T} → Works n p q → p.running ≡ false → n + bound q ≤ bound p
  stop_terminates none_yet h = omega arith
  stop_terminates (and_then s w) h =
      omega (arith, worker-bound s h, stop_terminates w (worker-running s h))

  ready_progress :
      (p : Tpool T) (i : ℕ)
      → get_elem? p.workers i ≡ some ready
      → p.running ≡ false
      → (tasks : List T) → p.queue ≡ tasks
      → (q : Tpool T) × OwnStep p q
  ready_progress p i w h [] e = (_, (leave i w e h, tt))
  ready_progress p i w h (task ∷ rest) e = (_, (take i task rest w e, tt))

  -- Who waits at a condition variable that nobody notifies any more waits for ever.
  at_progress :
      (p : Tpool T) (i : ℕ) (pc : WorkerPc T)
      → get_elem? p.workers i ≡ some pc
      → 0 < left_to_do pc
      → p.running ≡ false
      → total is_waiting p.workers ≡ 0
      → (q : Tpool T) × OwnStep p q
  at_progress p i starting w live h n = (_, (begin i w, tt))
  at_progress p i ready w live h n = ready_progress p i w h p.queue refl
  at_progress p i waiting w live h n =
      absurd (omega (arith, total-set is_waiting p.workers i waiting gone w, n))
  at_progress p i (working task) w live h n = (_, (finish i task w, tt))
  at_progress p i gone w live h n = absurd (omega arith)

  some_alive :
      (pcs : List (WorkerPc T))
      → (total left_to_do pcs ≡ 0)
        ⊎ ((i : ℕ) × ((pc : WorkerPc T) × ((get_elem? pcs i ≡ some pc) × (0 < left_to_do pc))))
  some_alive [] = inl refl
  some_alive (starting ∷ pcs) = inr (0, (starting, (refl, omega arith)))
  some_alive (ready ∷ pcs) = inr (0, (ready, (refl, omega arith)))
  some_alive (waiting ∷ pcs) = inr (0, (waiting, (refl, omega arith)))
  some_alive (working task ∷ pcs) = inr (0, (working task, (refl, omega arith)))
  some_alive (gone ∷ pcs) = elim (some_alive pcs) [
    | inl z ↦ inl (omega (arith, z))
    | inr (i, (pc, (w, live))) ↦ inr (suc i, (pc, (w, live)))
  ]

  stop_progress :
      (p : Tpool T)
      → p.running ≡ false
      → total is_waiting p.workers ≡ 0
      → (total left_to_do p.workers ≡ 0) ⊎ ((q : Tpool T) × OwnStep p q)
  stop_progress p h n = elim (some_alive p.workers) [
    | inl z ↦ inl z
    | inr (i, (pc, (w, live))) ↦ inr (at_progress p i pc w live h n)
  ]

  works-running : {n : ℕ} {p q : Tpool T} → Works n p q → p.running ≡ false → q.running ≡ false
  works-running none_yet h = h
  works-running (and_then s w) h = works-running w (worker-running s h)

  works-Reach : {tsize n : ℕ} {p q : Tpool T} → Reach tsize p → Works n p q → Reach tsize q
  works-Reach r none_yet = r
  works-Reach r (and_then s w) = works-Reach (next r (works s)) w

  -- Once the pool has been stopped, whatever happened before, and if nothing is added and the callback
  -- and the tasks end, all its workers return. Nobody sleeps at the condition variable any more.
  -- Wherever their steps have led, these are at most twice as many as the queue held tasks, and at
  -- most two more for each worker; and as long as some worker has not returned, some worker can take
  -- a step, and does not have to be woken for it.
  pub stop_ends :
      {tsize n : ℕ} {p q : Tpool T}
      → Reach tsize p
      → p.running ≡ false
      → Works n p q
      → (total is_waiting q.workers ≡ 0)
        × (n + bound q ≤ bound p)
        × ((total left_to_do q.workers ≡ 0) ⊎ ((r : Tpool T) × OwnStep q r))
  stop_ends {q = q} r h w =
      let stopped = works-running w h in
      let awake = stopped_none_wait (works-Reach r w) stopped in
      (awake, stop_terminates w h, stop_progress q stopped awake)

  is_gone :
      (pcs : List (WorkerPc T)) (i : ℕ) (pc : WorkerPc T)
      → get_elem? pcs i ≡ some pc
      → total left_to_do pcs ≡ 0
      → left_to_do pc ≡ 0
  is_gone pcs i pc w z = omega (arith, total-set left_to_do pcs i pc gone w, z)

  none_works : {p q : Tpool T} → total left_to_do p.workers ≡ 0 → WorkerStep p q → ⊥
  none_works {p} z (begin i w) = omega (arith, is_gone p.workers i starting w z)
  none_works {p} z (begin_throws i w) = omega (arith, is_gone p.workers i starting w z)
  none_works {p} z (take i task rest w e) = omega (arith, is_gone p.workers i ready w z)
  none_works {p} z (wait i w e r) = omega (arith, is_gone p.workers i ready w z)
  none_works {p} z (leave i w e r) = omega (arith, is_gone p.workers i ready w z)
  none_works {p} z (wake i w) = omega (arith, is_gone p.workers i waiting w z)
  none_works {p} z (finish i task w) = omega (arith, is_gone p.workers i (working task) w z)
  none_works {p} z (throw i task w) = omega (arith, is_gone p.workers i (working task) w z)

  awaken-gone :
      (pcs : List (WorkerPc T)) → total left_to_do pcs ≡ 0 → total left_to_do (map awaken pcs) ≡ 0
  awaken-gone [] z = refl
  awaken-gone (starting ∷ pcs) z = absurd (omega (arith, z))
  awaken-gone (ready ∷ pcs) z = absurd (omega (arith, z))
  awaken-gone (waiting ∷ pcs) z = absurd (omega (arith, z))
  awaken-gone (working task ∷ pcs) z = absurd (omega (arith, z))
  awaken-gone (gone ∷ pcs) z = omega (arith, awaken-gone pcs (omega (arith, z)))

  -- A pool whose workers have all returned, be it because each ran a callback or a task that threw, is dead while
  -- it still accepts tasks: whatever happens next, its workers stay gone and nothing is taken.
  dead_for_good :
      {p q : Tpool T}
      → Step p q
      → total left_to_do p.workers ≡ 0
      → (total left_to_do q.workers ≡ 0) × (q.taken ≡ p.taken)
  dead_for_good (works s) z = absurd (none_works z s)
  dead_for_good {p} (add_notify task i w) z =
      absurd (omega (arith, is_gone p.workers i waiting w z))
  dead_for_good (add_alone task n) z = (z, refl)
  dead_for_good {p} stop z = (awaken-gone p.workers z, refl)

-- ===== src/Tpool/Waiting.antt =====
-- No task lies in the queue while workers sleep that could take it.
use caimr.Prelude.{
  ℕ, zero, suc, ◌+◌, ◌≤◌, ◌≡◌, ◌≢◌, refl, sym, ap, ◌∙◌, ◌⊎◌, inl, inr, false, some, List, [], ◌∷◌,
  length, length-append, get_elem?, map, arith,
}
use mathlib.Core.Bool.{true≢false}
use caimr.Tpool.{
  Tpool, WorkerPc, starting, ready, waiting, working, gone, WorkerStep, begin, begin_throws, take,
  wait, leave, wake, finish, throw, Step, works, add_notify, add_alone, stop, Reach, here, next,
  start, set, go, awaken,
}

module _ {T : Type 0} where
  abbrev pub is_ready : WorkerPc T → ℕ
  is_ready ready = 1
  is_ready _ = 0

  abbrev pub is_waiting : WorkerPc T → ℕ
  is_waiting waiting = 1
  is_waiting _ = 0

  -- How many workers, each counted by a weight.
  abbrev pub total : (WorkerPc T → ℕ) → List (WorkerPc T) → ℕ
  total w [] = 0
  total w (pc ∷ pcs) = w pc + total w pcs

  pub total-set :
      (w : WorkerPc T → ℕ) (pcs : List (WorkerPc T)) (i : ℕ) (old pc : WorkerPc T)
      → get_elem? pcs i ≡ some old
      → total w (set pcs i pc) + w old ≡ total w pcs + w pc
  total-set w [] i old pc h = cc
  total-set w (x ∷ pcs) zero old pc h = omega (arith, ap w (some-eq x old h))
    where
      some-eq : (x y : WorkerPc T) → some x ≡ some y → x ≡ y
      some-eq x y h = cc
  total-set w (x ∷ pcs) (suc i) old pc h = omega (arith, total-set w pcs i old pc h)

  no_waiting :
      (pcs : List (WorkerPc T))
      → ((i : ℕ) → get_elem? pcs i ≡ some waiting → ⊥)
      → total is_waiting pcs ≡ 0
  no_waiting [] h = refl
  no_waiting (waiting ∷ pcs) h = absurd (h 0 refl)
  no_waiting (starting ∷ pcs) h = omega (arith, no_waiting pcs (λ i. h (suc i)))
  no_waiting (ready ∷ pcs) h = omega (arith, no_waiting pcs (λ i. h (suc i)))
  no_waiting (working t ∷ pcs) h = omega (arith, no_waiting pcs (λ i. h (suc i)))
  no_waiting (gone ∷ pcs) h = omega (arith, no_waiting pcs (λ i. h (suc i)))

  awaken-waiting : (pcs : List (WorkerPc T)) → total is_waiting (map awaken pcs) ≡ 0
  awaken-waiting [] = refl
  awaken-waiting (waiting ∷ pcs) = omega (arith, awaken-waiting pcs)
  awaken-waiting (starting ∷ pcs) = omega (arith, awaken-waiting pcs)
  awaken-waiting (ready ∷ pcs) = omega (arith, awaken-waiting pcs)
  awaken-waiting (working t ∷ pcs) = omega (arith, awaken-waiting pcs)
  awaken-waiting (gone ∷ pcs) = omega (arith, awaken-waiting pcs)

start-waiting : (T : Type 0) (tsize : ℕ) → total is_waiting (start {T = T} tsize).workers ≡ 0
unfolding start
start-waiting T zero = refl
start-waiting T (suc n) = omega (arith, start-waiting T n)

module _ {T : Type 0} where
  -- Nobody waits, or there are as many workers on their way to the queue as it holds tasks; and once
  -- the pool is stopped nobody waits.
  record Inv (p : Tpool T) : Type 0 where
    served : (total is_waiting p.workers ≡ 0) ⊎ (length p.queue ≤ total is_ready p.workers)
    stopped : p.running ≡ false → total is_waiting p.workers ≡ 0

  -- A worker goes from where fewer or as many are counted as ready, and does not begin to wait.
  moved-Inv :
      (p : Tpool T) (i : ℕ) (old pc : WorkerPc T)
      → get_elem? p.workers i ≡ some old
      → is_ready old ≤ is_ready pc
      → is_waiting pc ≡ 0
      → Inv p
      → Inv (go p i pc)
  moved-Inv p i old pc w more calm v =
      let a = total-set is_ready p.workers i old pc w in
      let b = total-set is_waiting p.workers i old pc w in
      record {
        served = elim v.served [
          | inl z ↦ inl (omega (arith, b, calm, z))
          | inr z ↦ inr (omega (arith, a, more, z))
        ];
        stopped = λ h. omega (arith, b, calm, v.stopped h);
      }

  worker-Inv : {p q : Tpool T} → WorkerStep p q → Inv p → Inv q
  worker-Inv {p} (begin i w) v = moved-Inv p i starting ready w (omega arith) refl v
  worker-Inv {p} (begin_throws i w) v = moved-Inv p i starting gone w (omega arith) refl v
  worker-Inv {p} (take i task rest w e) v =
      let a = total-set is_ready p.workers i ready (working task) w in
      let b = total-set is_waiting p.workers i ready (working task) w in
      record {
        served = elim v.served [
          | inl z ↦ inl (omega (arith, b, z))
          | inr z ↦ inr (omega (arith, a, z, ap length e))
        ];
        stopped = λ h. omega (arith, b, v.stopped h);
      }
  worker-Inv {p} (wait i w e r) v = record {
    served = inr (omega (arith, ap length e));
    stopped = λ h. absurd (true≢false (sym r ∙ h));
  }
  worker-Inv {p} (leave i w e r) v =
      let b = total-set is_waiting p.workers i ready gone w in
      record {
        served = inr (omega (arith, ap length e));
        stopped = λ h. omega (arith, b, v.stopped h);
      }
  worker-Inv {p} (wake i w) v = moved-Inv p i waiting ready w (omega arith) refl v
  worker-Inv {p} (finish i task w) v = moved-Inv p i (working task) ready w (omega arith) refl v
  worker-Inv {p} (throw i task w) v = moved-Inv p i (working task) gone w (omega arith) refl v

  step-Inv : {p q : Tpool T} → Step p q → Inv p → Inv q
  step-Inv (works s) v = worker-Inv s v
  step-Inv {p} (add_notify task i w) v =
      let a = total-set is_ready p.workers i waiting ready w in
      let b = total-set is_waiting p.workers i waiting ready w in
      record {
        served = elim v.served [
          | inl z ↦ absurd (omega (arith, b, z))
          | inr z ↦ inr (omega (arith, a, z, length-append p.queue (task ∷ [])))
        ];
        stopped = λ h. omega (arith, b, v.stopped h);
      }
  step-Inv {p} (add_alone task n) v = record {
    served = inl (no_waiting p.workers n);
    stopped = v.stopped;
  }
  step-Inv {p} stop v = record {
    served = inl (awaken-waiting p.workers);
    stopped = λ h. awaken-waiting p.workers;
  }

  Reach-Inv : {tsize : ℕ} {p : Tpool T} → Reach tsize p → Inv p
  unfolding start
  Reach-Inv {tsize} here = record {
    served = inl (start-waiting T tsize);
    stopped = λ h. start-waiting T tsize;
  }
  Reach-Inv (next r s) = step-Inv s (Reach-Inv r)

  -- Whatever the interleaving, a task in the queue is not stranded among sleepers: when some worker
  -- waits on the condition variable, at least as many workers are on their way to the queue as it
  -- holds tasks.
  pub sleepers_strand_none :
      {tsize : ℕ} {p : Tpool T}
      → Reach tsize p
      → total is_waiting p.workers ≢ 0
      → length p.queue ≤ total is_ready p.workers
  sleepers_strand_none r n = elim (Reach-Inv r).served [ inl z ↦ absurd (n z) | inr z ↦ z ]

  -- Whatever the interleaving, nobody waits once the pool is stopped: no worker sleeps through
  -- `stop`.
  pub stopped_none_wait :
      {tsize : ℕ} {p : Tpool T} → Reach tsize p → p.running ≡ false → total is_waiting p.workers ≡ 0
  stopped_none_wait r = (Reach-Inv r).stopped

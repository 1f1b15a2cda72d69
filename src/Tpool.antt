-- ===== src/Tpool.antt =====
-- include/thread/tpool.h and src/thread/tpool.cpp: a pool of worker threads over one queue of tasks.
-- What a thread does while it holds `mutex_` is one step; the steps of the workers, of the callers
-- of `add` and `stop`, and the wakeups of the condition variable interleave in any order.
pub mod Order
pub mod Waiting
pub mod Shutdown
pub mod Threads
mod Examples
use caimr.Prelude.{
  ℕ, zero, suc, ◌+◌, ◌≡◌, Bool, true, false, Option, none, some, List, [], ◌∷◌, ◌++◌, get_elem?,
  replicate, map, length,
}

-- Where a worker stands in `run`: before or in the initialising callback, before it takes the mutex,
-- in `cond_.wait`, in its task, or returned.
pub data WorkerPc (T : Type 0) : Type 0 where
  starting : WorkerPc T
  ready : WorkerPc T
  waiting : WorkerPc T
  working : (task : T) → WorkerPc T
  gone : WorkerPc T

-- `queue`, `running` and the workers are the pool; `history` and `taken` are the tasks added and
-- taken out so far.
pub record Tpool (T : Type 0) : Type 0 where
  pub queue : List T
  pub running : Bool
  pub workers : List (WorkerPc T)
  pub history : List T
  pub taken : List T

module _ {A : Type 0} where
  -- A write out of bounds changes nothing.
  abbrev pub set : List A → ℕ → A → List A
  set [] i v = []
  set (x ∷ xs) zero v = v ∷ xs
  set (x ∷ xs) (suc i) v = x ∷ set xs i v

module _ {T : Type 0} where
  -- `start` with `tsize_` threads.
  pub start : (tsize : ℕ) → Tpool T
  start tsize = record {
    queue = [];
    running = true;
    workers = replicate tsize starting;
    history = [];
    taken = [];
  }

  abbrev pub AtWorker : Tpool T → ℕ → WorkerPc T → Type 0
  AtWorker p i pc = get_elem? p.workers i ≡ some pc

  abbrev pub go : Tpool T → ℕ → WorkerPc T → Tpool T
  go p i pc = record p { workers = set p.workers i pc }

  abbrev pub awaken : WorkerPc T → WorkerPc T
  awaken waiting = ready
  awaken pc = pc

  pub qsize : Tpool T → ℕ
  qsize p = length p.queue

  -- A step of the worker `i`. A wakeup may also be spurious. An initialising callback or a task that
  -- throws ends the worker: the `catch` stands outside the loop.
  pub data WorkerStep (p : Tpool T) : Tpool T → Type 0 where
    begin : (i : ℕ) → AtWorker p i starting → WorkerStep p (go p i ready)
    begin_throws : (i : ℕ) → AtWorker p i starting → WorkerStep p (go p i gone)
    take :
        (i : ℕ) (task : T) (rest : List T)
        → AtWorker p i ready
        → p.queue ≡ task ∷ rest
        → WorkerStep p
            (record (go p i (working task)) { queue = rest; taken = p.taken ++ task ∷ [] })
    wait :
        (i : ℕ)
        → AtWorker p i ready
        → p.queue ≡ []
        → p.running ≡ true
        → WorkerStep p (go p i waiting)
    leave :
        (i : ℕ) → AtWorker p i ready → p.queue ≡ [] → p.running ≡ false → WorkerStep p (go p i gone)
    wake : (i : ℕ) → AtWorker p i waiting → WorkerStep p (go p i ready)
    finish : (i : ℕ) (task : T) → AtWorker p i (working task) → WorkerStep p (go p i ready)
    throw : (i : ℕ) (task : T) → AtWorker p i (working task) → WorkerStep p (go p i gone)

  abbrev pub push : T → Tpool T → Tpool T
  push task p = record p { queue = p.queue ++ task ∷ []; history = p.history ++ task ∷ [] }

  pub data Step (p : Tpool T) : Tpool T → Type 0 where
    works : {q : Tpool T} → WorkerStep p q → Step p q
    -- `add`, where `notify_one` wakes one worker that waits, or finds none.
    add_notify : (task : T) (i : ℕ) → AtWorker p i waiting → Step p (go (push task p) i ready)
    add_alone :
        (task : T) → ((i : ℕ) → get_elem? p.workers i ≡ some waiting → ⊥) → Step p (push task p)
    -- `stop` wakes all that wait.
    stop : Step p (record p { running = false; workers = map awaken p.workers })

  pub data Reach (tsize : ℕ) : Tpool T → Type 0 where
    here : Reach tsize (start tsize)
    next : {p q : Tpool T} → Reach tsize p → Step p q → Reach tsize q

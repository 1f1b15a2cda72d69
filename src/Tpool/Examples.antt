-- ===== src/Tpool/Examples.antt =====
-- The theorems of the pool on small runs: tasks are numbers, task 7 throws.
use caimr.Prelude.{
  ℕ, ◌+◌, ◌≤◌, ◌<◌, ◌≡◌, ◌≢◌, refl, ◌⊎◌, Bool, true, false, List, [], ◌∷◌, ◌++◌, length, arith,
}
use caimr.Tpool.{
  Tpool, WorkerPc, ready, waiting, working, gone, begin, take, wait, leave, finish, works,
  add_notify, stop, Reach, here, next, start,
}
use caimr.Thread.{Outcome, returned, terminated}
use caimr.Tpool.Threads
use caimr.Tpool.Order.{taken_in_order}
use caimr.Tpool.Waiting.{total, is_waiting, is_ready, sleepers_strand_none}
use caimr.Tpool.Shutdown.{left_to_do, bound, OwnStep, Works, none_yet, and_then, stop_ends}

abbrev pool : Bool → List (WorkerPc ℕ) → List ℕ → List ℕ → List ℕ → Tpool ℕ
pool running workers queue history taken = record {
  queue = queue;
  running = running;
  workers = workers;
  history = history;
  taken = taken;
}

-- Of two workers one waits when a task arrives, so that both are on their way to it.
abbrev awoken : Tpool ℕ
awoken = pool true (ready ∷ ready ∷ []) (4 ∷ []) (4 ∷ []) []

Reach-asleep : Reach 2 (pool true (waiting ∷ ready ∷ []) [] [] [])
unfolding start
Reach-asleep =
    next (next (next here (works (begin 0 refl))) (works (begin 1 refl)))
      (works (wait 0 refl refl refl))

Reach-awoken : Reach 2 awoken
Reach-awoken = next Reach-asleep (add_notify 4 0 refl)

-- The second worker takes the task, the first goes back to sleep, and a task arrives that wakes it.
abbrev busy : Tpool ℕ
busy = pool true (waiting ∷ working 4 ∷ []) [] (4 ∷ []) (4 ∷ [])

Reach-busy : Reach 2 busy
Reach-busy =
    next (next Reach-awoken (works (take 1 4 [] refl refl))) (works (wait 0 refl refl refl))

taken_in_order_example : busy.taken ++ busy.queue ≡ busy.history
taken_in_order_example = taken_in_order Reach-busy

one_waits : total is_waiting busy.workers ≢ 0
one_waits h = omega (arith, h)

sleepers_strand_none_example : length busy.queue ≤ total is_ready busy.workers
sleepers_strand_none_example = sleepers_strand_none Reach-busy one_waits

abbrev stopped : Tpool ℕ
stopped = pool false (ready ∷ working 4 ∷ []) [] (4 ∷ []) (4 ∷ [])

abbrev stopped_later : Tpool ℕ
stopped_later = pool false (gone ∷ ready ∷ []) [] (4 ∷ []) (4 ∷ [])

drain : Works 2 stopped stopped_later
drain = and_then (leave 0 refl refl refl) (and_then (finish 1 4 refl) none_yet)

-- The sleeper has been woken.
Reach-stopped : Reach 2 stopped
Reach-stopped = next Reach-busy stop

stop_ends_example :
    (total is_waiting stopped_later.workers ≡ 0)
    × (2 + bound stopped_later ≤ bound stopped)
    × ((total left_to_do stopped_later.workers ≡ 0) ⊎ ((r : Tpool ℕ) × OwnStep stopped_later r))
stop_ends_example = stop_ends Reach-stopped refl drain

-- A pool "p" of two threads; the callback counts its calls.
abbrev counting : ℕ → Outcome ℕ
counting n = returned (n + 1)

crew_lem_example :
    (0 < 2
      → Threads.start 0 (Threads.prepared (112 ∷ []) 2 counting) 5
        ≡ returned (Threads.started (112 ∷ []) 2 counting, 5))
    × (Threads.start 0 (Threads.prepared (112 ∷ []) 0 counting) 5
        ≡ returned (Threads.started (112 ∷ []) 0 counting, 6))
    × (length (Threads.started (112 ∷ []) 2 counting).threads ≡ 2)
    × (Threads.join_all (Threads.started (112 ∷ []) 2 counting).threads
        ≡ returned (Threads.joined (112 ∷ []) 0 2))
    × (Threads.destroy (Threads.started (112 ∷ []) 2 counting) ≡ returned tt)
    × (0 < 2 → Threads.start 0 (Threads.started (112 ∷ []) 2 counting) 5 ≡ terminated)
crew_lem_example = Threads.crew_lem (112 ∷ []) 2 0 counting 5

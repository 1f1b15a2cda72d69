-- ===== src/EloopThread/Examples.antt =====
-- A run of an eloop_thread from its constructor to its destructor.
use caimr.Prelude.{◌≡◌, refl, true, false}
use caimr.EloopThread.{
  EloopThread, create, starting, asleep, quitting, joining, born, initialising, published, looping,
  notify_one, promised, alive, start, started, sleep, return, find_loop, promise, construct,
  publish, enter, Step, by_owner, by_thread, Steps, here, next, Inevitable,
}
use caimr.EloopThread.Starting.{Returned, start_loop_returns}
use caimr.EloopThread.Ending.{Released, destructor_ends, destructor_hangs, destructor_races}

abbrev at_start : EloopThread
at_start = record {
  owner = starting;
  thread = born;
  loop_ = false;
  quit_flag = false;
  exiting = false;
  joinable = true;
}

-- `start_loop` has waited for the loop and returned, and the destructor has found it.
abbrev at_quit : EloopThread
at_quit = record {
  owner = quitting;
  thread = published;
  loop_ = true;
  quit_flag = false;
  exiting = true;
  joinable = true;
}

abbrev in_loop : EloopThread
in_loop = record at_quit { thread = looping }

starts : Steps false false create at_start
unfolding create
starts = next here (by_owner (start refl))

sleeps : Steps false false create (record at_start { owner = asleep; thread = initialising })
unfolding promised
sleeps =
    next
      (next (next (next starts (by_thread (promise refl))) (by_owner (started refl refl)))
        (by_owner (sleep refl refl)))
      (by_thread (construct refl))

finds : Steps false false create at_quit
unfolding notify_one
finds =
    next (next (next sleeps (by_thread (publish refl))) (by_owner (return refl refl)))
      (by_owner (find_loop refl refl))

start_loop_returns_example : Inevitable false false Returned at_start
start_loop_returns_example = start_loop_returns starts refl

destructor_ends_example : Inevitable false false Released in_loop
destructor_ends_example = destructor_ends (next finds (by_thread (enter refl))) refl refl

destructor_hangs_example :
    (t : EloopThread) × Steps false false at_quit t
    × (t.owner ≡ joining)
    × (t.thread ≡ looping)
    × ((u : EloopThread) → ¬ Step false false t u)
destructor_hangs_example = destructor_hangs false at_quit refl refl

destructor_races_example :
    (t : EloopThread) × Steps true false in_loop t
    × (t.owner ≡ quitting)
    × (alive t.thread ≡ false)
    × ((u : EloopThread) → ¬ Step true false t u)
destructor_races_example = destructor_races false in_loop refl refl

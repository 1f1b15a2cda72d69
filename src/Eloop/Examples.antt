-- ===== src/Eloop/Examples.antt =====
-- The theorems of the event loop on small inputs: the functors are numbers, and functor 1 queues
-- functor 5 while it runs.
use caimr.Prelude.{
  ℕ, ◌+◌, ◌≡◌, refl, true, false, none, some, List, [], ◌∷◌, ◌++◌, arith, ltb, lt→ltb, ◌==◌,
  if◌then◌else◌,
}
use caimr.Poller
use caimr.Poller.{Poller, Wait, wait_failed, poll}
use caimr.Eloop.{Eloop, do_pending_functors}
use caimr.Eloop.Lifetime
use caimr.Eloop.Lifetime.{Owned, Gone, unborn, life_lem}
use caimr.Poller.Registration.{IsRegistered}
use caimr.Poller.Examples.{table}
use caimr.Events.{read_event}
use caimr.Eloop.Pending.{Request, queues, polls, exec, do_pending_functors_lem}
use caimr.Eloop.Threads.{
  EventFd, System, Reach, start, here, next, queue_from, idle, waking, move, push,
}
use caimr.Eloop.Wakeup.{runs_in_order}

abbrev two_pending : Eloop ℕ
two_pending = record {
  looping = true;
  quit_flag = false;
  calling_pending_functors = false;
  thread_id = 3;
  poller = Poller.create;
  pending_functors = 1 ∷ 2 ∷ [];
  wakeups = 0;
}

-- The functor 1 queues another one and registers a channel with the poller.
abbrev registers : Poller → Poller
registers p = record p { chs = (7, 900) ∷ p.chs }

-- `W` is the list of the functors that have run.
abbrev body : ℕ → List ℕ → List (Request ℕ) × List ℕ
body f ran = (if f == 1 then queues 5 ∷ polls registers ∷ [] else [], ran ++ f ∷ [])

do_pending_functors_lem_example :
    let (l, ran) = do_pending_functors (exec body) (two_pending, []) in
    (ran ≡ 1 ∷ 2 ∷ [])
    × (l.pending_functors ≡ 5 ∷ [])
    × (l.wakeups ≡ 0 + 1)
    × (l.calling_pending_functors ≡ false)
    × (l.poller ≡ registers Poller.create)
    × (l.looping ≡ true)
do_pending_functors_lem_example = do_pending_functors_lem body two_pending []

counter_readable : (n : ℕ) → ltb 0 (n + 1) ≡ true
counter_readable n = lt→ltb 0 (n + 1) (omega arith)

-- The counter of an eventfd.
abbrev counter : EventFd
counter = record {
  Fd = ℕ;
  write_one = λ n. n + 1;
  read_all = λ _. 0;
  readable = λ n. ltb 0 n;
  write_readable = counter_readable;
}

-- A functor was queued before the loop began, with its wakeup, and another one comes.
abbrev sleeping : System ℕ ℕ
sleeping = start 1 (λ i. idle) (3 ∷ [])

abbrev queued_once : System ℕ ℕ
queued_once = record (push 4 sleeping) { callers = move 8 waking sleeping.callers }

queued_once-Reach : Reach counter sleeping queued_once
queued_once-Reach = next here (queue_from 8 4 refl)

runs_in_order_example : ◌≡◌ {A = List ℕ} (([] ++ []) ++ 3 ∷ 4 ∷ []) (3 ∷ 4 ∷ [])
runs_in_order_example = runs_in_order counter queued_once-Reach

life_lem_example :
    (o : Owned ℕ) × ((Lifetime.create 3 900 901 false (some 5) none ≡ some (o, 900))
      × ((IsRegistered table (o.loop.poller, o.wakeup_ch) 5 901 read_event)
          × ((o.loop ≡ record (unborn 3) { poller = o.loop.poller })
              × ((later : Eloop ℕ) → Gone table (Lifetime.destroy (record o { loop = later })) 5))))
life_lem_example = life_lem table 3 900 901 5

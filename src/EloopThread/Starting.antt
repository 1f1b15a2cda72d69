-- ===== src/EloopThread/Starting.antt =====
-- eloop_thread::start_loop: the owner waits for the loop that the thread publishes.
use mathlib.Core.Bool.{true≢false}
use caimr.Prelude.{
  ◌≤◌, ◌≡◌, refl, sym, ◌∙◌, ap, ◌⊎◌, inl, inr, Bool-cases, Bool, true, false, arith,
}
use caimr.EloopThread.{
  EloopThread, create, OwnerPc, constructed, starting, checking, asleep, returned, quitting,
  joining, destroyed, ThreadPc, unborn, born, creating, initialising, published, looping, leaving,
  ended, notify_one, promised, OwnerStep, start, started, sleep, return, find_loop, find_none,
  never_started, quit, joined, ThreadStep, promise, construct, publish, enter, leave, end, Step,
  by_owner, by_thread, other_quit, wake, Steps, Inevitable,
}
use caimr.EloopThread.Stages.{stage, Inv, at}
use caimr.EloopThread.Kept.{reached-Inv}
use caimr.EloopThread.Ranks.{inevitable}

-- The owner is inside `start_loop`.
abbrev pub in_start : OwnerPc → Bool
in_start starting = true
in_start checking = true
in_start asleep = true
in_start _ = false

abbrev pub Returned : EloopThread → Type 0
Returned s = (s.owner ≡ returned) × (s.loop_ ≡ true)

abbrev InStart : EloopThread → Type 0
InStart s = in_start s.owner ≡ true

notify-start : (o : OwnerPc) → in_start (notify_one o) ≡ in_start o
unfolding notify_one
notify-start constructed = refl
notify-start starting = refl
notify-start checking = refl
notify-start asleep = refl
notify-start returned = refl
notify-start quitting = refl
notify-start joining = refl
notify-start destroyed = refl

out : {o p : OwnerPc} {A : Type 0} → o ≡ p → in_start p ≡ false → in_start o ≡ true → A
out h f b = absurd (true≢false (sym b ∙ ap in_start h ∙ f))

owner-keep : {s t : EloopThread} → OwnerStep s t → InStart s → Returned t ⊎ InStart t
owner-keep (start h) b = out h refl b
owner-keep (started h p) b = inr refl
owner-keep (sleep h n) b = inr refl
owner-keep (return h n) b = inl (refl, n)
owner-keep (find_loop h n) b = out h refl b
owner-keep (find_none h n) b = out h refl b
owner-keep (never_started h) b = out h refl b
owner-keep (quit h a) b = out h refl b
owner-keep (joined h e) b = out h refl b

thread-keep : {s t : EloopThread} → ThreadStep s t → InStart s → InStart t
thread-keep (promise h) b = b
thread-keep (construct h) b = b
thread-keep {s} (publish h) b = notify-start s.owner ∙ b
thread-keep (enter h) b = b
thread-keep (leave h q) b = b
thread-keep (end h) b = b

keep : (s t : EloopThread) → Step false false s t → Inv s → InStart s → Returned t ⊎ InStart t
keep s t (by_owner o) v b = owner-keep o b
keep s t (by_thread r) v b = inr (thread-keep r b)
keep s t (other_quit q a) v b = absurd (true≢false (sym q))
keep s t (wake p h) v b = inr refl

-- In `thread_.start` either the thread sets the promise or the owner goes on.
starting_go :
    {s : EloopThread} (p : ThreadPc)
    → s.thread ≡ p
    → s.owner ≡ starting
    → 1 ≤ stage p
    → (t : EloopThread) × Step false false s t
unfolding promised
starting_go unborn e h a = absurd (omega (arith, a))
starting_go born e h a = (_, by_thread (promise e))
starting_go creating e h a = (_, by_owner (started h (ap promised e)))
starting_go initialising e h a = (_, by_owner (started h (ap promised e)))
starting_go published e h a = (_, by_owner (started h (ap promised e)))
starting_go looping e h a = (_, by_owner (started h (ap promised e)))
starting_go leaving e h a = (_, by_owner (started h (ap promised e)))
starting_go ended e h a = (_, by_owner (started h (ap promised e)))

-- While the owner sleeps, the thread has still to publish the loop.
asleep_go :
    {s : EloopThread} (p : ThreadPc)
    → s.thread ≡ p
    → (2 ≤ stage p) × (stage p ≤ 3)
    → (t : EloopThread) × Step false false s t
asleep_go creating e a = (_, by_thread (construct e))
asleep_go initialising e a = (_, by_thread (publish e))
asleep_go unborn e a = absurd (omega (arith, a.0))
asleep_go born e a = absurd (omega (arith, a.0))
asleep_go published e a = absurd (omega (arith, a.1))
asleep_go looping e a = absurd (omega (arith, a.1))
asleep_go leaving e a = absurd (omega (arith, a.1))
asleep_go ended e a = absurd (omega (arith, a.1))

go_at :
    {s : EloopThread} (o : OwnerPc)
    → s.owner ≡ o
    → Inv s
    → in_start o ≡ true
    → (t : EloopThread) × Step false false s t
go_at {s} starting h v b = starting_go s.thread refl h (at h v).0
go_at {s} asleep h v b = asleep_go s.thread refl ((at h v).0, (at h v).1)
go_at {s} checking h v b = elim (Bool-cases s.loop_) [
  | inl on ↦ (_, by_owner (return h on))
  | inr off ↦ (_, by_owner (sleep h off))
]
go_at constructed h v b = absurd (true≢false (sym b))
go_at returned h v b = absurd (true≢false (sym b))
go_at quitting h v b = absurd (true≢false (sym b))
go_at joining h v b = absurd (true≢false (sym b))
go_at destroyed h v b = absurd (true≢false (sym b))

-- `start_loop` returns, and never the null pointer. Wherever the owner stands inside it, with any
-- interleaving and any spurious wakeups so far: if the loop is not quit by others than the
-- destructor, and from here on the wait ends only when notified, then some step is possible until it
-- has returned, with `loop_` set, and no sequence of steps goes on without that.
pub start_loop_returns :
    {spurious : Bool} {s : EloopThread}
    → Steps false spurious create s
    → in_start s.owner ≡ true
    → Inevitable false false Returned s
start_loop_returns {s = s} r b =
    inevitable Returned InStart (λ s v g. go_at s.owner refl v g) keep (reached-Inv r) b

-- ===== src/Eloop.antt =====
-- include/net/eloop.h and src/net/eloop.cpp: the event loop of a thread, with the functors that
-- other threads, or its own callbacks, queue for it. The type of the functors is a parameter; what
-- they and the callbacks do is an argument of the functions that run them. A `tid` is the thread
-- that makes the call (`cthread::tid()`).
pub mod Ownership
pub mod Channels
pub mod Pending
pub mod Threads
pub mod Wakeup
pub mod Loop
pub mod Lifetime
mod Examples
use caimr.Prelude.{ℕ, ◌+◌, Bool, true, false, not, ◌||◌, List, [], ◌∷◌, ◌++◌, ◌==◌, if◌then◌else◌}
use caimr.Chan.{Chan}
use caimr.Poller
use caimr.Poller.{Poller}

-- The members of `eloop`; `wakeups` counts the writes to `wakeup_fd_`.
pub record Eloop {ℓ} (F : Type ℓ) : Type ℓ where
  pub looping : Bool
  pub quit_flag : Bool
  pub calling_pending_functors : Bool
  pub thread_id : ℕ
  pub poller : Poller
  pub pending_functors : List F
  pub wakeups : ℕ

module _ {ℓ} {F : Type ℓ} where
  unfoldable pub is_in_loop_thread : ℕ → Eloop F → Bool
  is_in_loop_thread tid l = l.thread_id == tid

  pub wakeup : Eloop F → Eloop F
  wakeup l = record l { wakeups = l.wakeups + 1 }

  pub quit : ℕ → Eloop F → Eloop F
  unfolding is_in_loop_thread wakeup
  quit tid l =
      let l' = record l { quit_flag = true } in
      if not (is_in_loop_thread tid l') then wakeup l' else l'

  pub queue_in_loop : ℕ → F → Eloop F → Eloop F
  unfolding is_in_loop_thread wakeup
  queue_in_loop tid cb l =
      let l' = record l { pending_functors = l.pending_functors ++ cb ∷ [] } in
      if not (is_in_loop_thread tid l') || l'.calling_pending_functors then wakeup l' else l'

  pub update_chan : Chan → Eloop F → Eloop F × Chan
  update_chan ch l = let (p, ch') = Poller.update_chan l.poller ch in (record l { poller = p }, ch')

  pub remove_chan : Chan → Eloop F → Eloop F × Chan
  remove_chan ch l = let (p, ch') = Poller.remove_chan l.poller ch in (record l { poller = p }, ch')

  pub has_chan : Chan → Eloop F → Bool
  has_chan ch l = Poller.has_chan l.poller ch

-- The state behind the loop's callbacks is `W`; `exec` runs one functor, in the thread of the loop.
module _ {ℓ κ} {F : Type ℓ} {W : Type κ} (exec : F → Eloop F × W → Eloop F × W) where
  -- `run_in_loop`: at once in the thread of the loop, through the queue from any other.
  pub run_in_loop : ℕ → F → Eloop F × W → Eloop F × W
  unfolding is_in_loop_thread queue_in_loop
  run_in_loop tid cb (l, w) =
      if is_in_loop_thread tid l then exec cb (l, w) else (queue_in_loop tid cb l, w)

  unfoldable pub run_functors : List F → Eloop F × W → Eloop F × W
  run_functors [] s = s
  run_functors (functor ∷ functors) s = run_functors functors (exec functor s)

  unfoldable pub do_pending_functors : Eloop F × W → Eloop F × W
  unfolding run_functors
  do_pending_functors (l, w) =
      let functors = l.pending_functors in
      let swapped = record l { calling_pending_functors = true; pending_functors = [] } in
      let (l', w') = run_functors functors (swapped, w) in
      (record l' { calling_pending_functors = false }, w')

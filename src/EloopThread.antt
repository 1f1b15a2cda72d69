-- ===== src/EloopThread.antt =====
-- A thread that runs an event loop (include/net/eloop_thread.h, src/net/eloop_thread.cpp): its owner,
-- which calls `start_loop` and later the destructor, and the thread, which runs `thread_func`,
-- interleaved. What a thread does under `mutex_` is one step.
mod Stages
mod Kept
mod Ranks
mod Starting
mod Ending
mod Examples
use caimr.Prelude.{◌≡◌, Bool, true, false}

-- Where the owner stands: before `start_loop`; in `thread_.start`, waiting for the promise of the
-- thread; before a test of the predicate of `condition_.wait`; asleep in it; behind `start_loop`;
-- in the destructor, before `loop_->quit()` and in `thread_.join()`; behind the destructor.
pub data OwnerPc : Type 0 where
  constructed starting checking asleep returned quitting joining destroyed : OwnerPc

-- Where the thread stands: not created; before the promise is set; before `eloop loop`; in the
-- initialising callback and before the block that publishes the loop; between that block and the
-- store that begins `loop.loop()`; in the loop; behind it; at its end.
pub data ThreadPc : Type 0 where
  unborn born creating initialising published looping leaving ended : ThreadPc

-- `loop_` says whether the pointer is set, to the loop on the stack of the thread. `quit_flag` is
-- `quit_` of that loop, `joinable` what `std::thread` says of the thread that `thread_` holds.
pub record EloopThread : Type 0 where
  pub owner : OwnerPc
  pub thread : ThreadPc
  pub loop_ : Bool
  pub quit_flag : Bool
  pub exiting : Bool
  pub joinable : Bool

pub create : EloopThread
create = record {
  owner = constructed;
  thread = unborn;
  loop_ = false;
  quit_flag = false;
  exiting = false;
  joinable = false;
}

-- `condition_.notify_one()`: a sleeper wakes and tests the predicate again.
unfoldable pub notify_one : OwnerPc → OwnerPc
notify_one asleep = checking
notify_one constructed = constructed
notify_one starting = starting
notify_one checking = checking
notify_one returned = returned
notify_one quitting = quitting
notify_one joining = joining
notify_one destroyed = destroyed

-- The promise of `thread_.start` is set.
unfoldable pub promised : ThreadPc → Bool
promised unborn = false
promised born = false
promised creating = true
promised initialising = true
promised published = true
promised looping = true
promised leaving = true
promised ended = true

-- The loop on the stack of the thread exists.
unfoldable pub alive : ThreadPc → Bool
alive unborn = false
alive born = false
alive creating = false
alive initialising = true
alive published = true
alive looping = true
alive leaving = true
alive ended = false

-- The steps of the owner. The destructor reads `loop_` without the mutex: if it finds the null
-- pointer, it ends with the destructor of `thread_`, which detaches a thread that was started. To call
-- `quit` of a loop that is gone is undefined, so there is no such step.
pub data OwnerStep (s : EloopThread) : EloopThread → Type 0 where
  start :
      s.owner ≡ constructed
      → OwnerStep s (record s { owner = starting; thread = born; joinable = true })
  started :
      s.owner ≡ starting → promised s.thread ≡ true → OwnerStep s (record s { owner = checking })
  sleep : s.owner ≡ checking → s.loop_ ≡ false → OwnerStep s (record s { owner = asleep })
  return : s.owner ≡ checking → s.loop_ ≡ true → OwnerStep s (record s { owner = returned })
  find_loop :
      s.owner ≡ returned
      → s.loop_ ≡ true
      → OwnerStep s (record s { owner = quitting; exiting = true })
  find_none :
      s.owner ≡ returned
      → s.loop_ ≡ false
      → OwnerStep s (record s { owner = destroyed; exiting = true; joinable = false })
  never_started :
      s.owner ≡ constructed → OwnerStep s (record s { owner = destroyed; exiting = true })
  quit :
      s.owner ≡ quitting
      → alive s.thread ≡ true
      → OwnerStep s (record s { owner = joining; quit_flag = true })
  joined :
      s.owner ≡ joining
      → s.thread ≡ ended
      → OwnerStep s (record s { owner = destroyed; joinable = false })

-- The steps of the thread. `loop.loop()` stores false in `quit_` first, and is left when a test finds
-- true there.
pub data ThreadStep (s : EloopThread) : EloopThread → Type 0 where
  promise : s.thread ≡ born → ThreadStep s (record s { thread = creating })
  construct :
      s.thread ≡ creating → ThreadStep s (record s { thread = initialising; quit_flag = false })
  publish :
      s.thread ≡ initialising
      → ThreadStep s (record s { thread = published; loop_ = true; owner = notify_one s.owner })
  enter : s.thread ≡ published → ThreadStep s (record s { thread = looping; quit_flag = false })
  leave : s.thread ≡ looping → s.quit_flag ≡ true → ThreadStep s (record s { thread = leaving })
  end : s.thread ≡ leaving → ThreadStep s (record s { thread = ended; loop_ = false })

-- The steps of both; if `quits`, somebody else may quit the loop while it exists (its callbacks, or the
-- owner by the pointer that `start_loop` returned); if `spurious`, the wait may end unnotified.
pub data Step (quits spurious : Bool) (s : EloopThread) : EloopThread → Type 0 where
  by_owner : {t : EloopThread} → OwnerStep s t → Step quits spurious s t
  by_thread : {t : EloopThread} → ThreadStep s t → Step quits spurious s t
  other_quit :
      quits ≡ true → alive s.thread ≡ true → Step quits spurious s (record s { quit_flag = true })
  wake : spurious ≡ true → s.owner ≡ asleep → Step quits spurious s (record s { owner = checking })

pub data Steps (quits spurious : Bool) (s : EloopThread) : EloopThread → Type 0 where
  here : Steps quits spurious s s
  next :
      {t u : EloopThread}
      → Steps quits spurious s t
      → Step quits spurious t u
      → Steps quits spurious s u

-- `P` cannot be missed: it holds now, or some step is possible and none leads away from it.
pub data Inevitable (quits spurious : Bool) (P : EloopThread → Type 0) : EloopThread → Type 0 where
  now : {s : EloopThread} → P s → Inevitable quits spurious P s
  later :
      {s : EloopThread}
      → ((t : EloopThread) × Step quits spurious s t)
      → ((t : EloopThread) → Step quits spurious s t → Inevitable quits spurious P t)
      → Inevitable quits spurious P s

-- ===== src/Eloop/Threads.antt =====
-- The loop thread and the threads that queue functors for it, interleaved: the steps are the shared
-- accesses of `loop`, `handle_read`, `do_pending_functors` and `queue_in_loop` in src/net/eloop.cpp.
-- The eventfd behind `wakeup_fd_` is a parameter.
use caimr.Prelude.{ℕ, ◌≡◌, Bool, true, false, List, [], ◌∷◌, ◌++◌, ◌==◌, if◌then◌else◌}

-- What is relied on of eventfd: after a write it is readable, so that poll returns.
pub record EventFd : Type 1 where
  pub Fd : Type 0
  pub write_one : Fd → Fd
  pub read_all : Fd → Fd
  pub readable : Fd → Bool
  pub write_readable : (fd : Fd) → readable (write_one fd) ≡ true

-- Where the loop thread stands: in `poll`, in the callbacks of the active channels, behind the store
-- that begins `do_pending_functors`, before the next of the functors swapped out, or inside
-- `queue_in_loop`, called by one of these, between the push and the wakeup.
pub data LoopPc (F : Type 0) : Type 0 where
  polling : LoopPc F
  handling : LoopPc F
  swapping : LoopPc F
  running : (functors : List F) → LoopPc F
  pushed : (functors : List F) → LoopPc F

-- Where another thread stands: outside `queue_in_loop`, or between its push and its wakeup.
pub data CallerPc : Type 0 where
  idle waking : CallerPc

-- `history` and `ran` are the functors queued and run so far.
pub record System (Fd F : Type 0) : Type 0 where
  pub pc : LoopPc F
  pub callers : ℕ → CallerPc
  pub pending : List F
  pub calling : Bool
  pub fd : Fd
  pub history : List F
  pub ran : List F

abbrev pub move : ℕ → CallerPc → (ℕ → CallerPc) → ℕ → CallerPc
move i p callers j = if i == j then p else callers j

abbrev pub push : {Fd F : Type 0} → F → System Fd F → System Fd F
push f s = record s { pending = s.pending ++ f ∷ []; history = s.history ++ f ∷ [] }

-- A step of the loop thread, or of the caller `i`. `poll` may return for any reason; a callback may
-- drain the eventfd (`handle_read`) or queue a functor, without a wakeup since no functor is being
-- run; a functor may queue others, each with a wakeup since `calling` is set; and a caller is never
-- the loop thread, so it always wakes it.
pub data Step (e : EventFd) {F : Type 0} (s : System e.Fd F) : System e.Fd F → Type 0 where
  poll_returns : s.pc ≡ polling → Step e s (record s { pc = handling })
  drain : s.pc ≡ handling → Step e s (record s { fd = e.read_all s.fd })
  queue_handling : (f : F) → s.pc ≡ handling → s.calling ≡ false → Step e s (push f s)
  handled : s.pc ≡ handling → Step e s (record s { pc = swapping; calling = true })
  swap : s.pc ≡ swapping → Step e s (record s { pc = running s.pending; pending = [] })
  run :
      (f : F) (fs : List F)
      → s.pc ≡ running (f ∷ fs)
      → Step e s (record s { pc = running fs; ran = s.ran ++ f ∷ [] })
  queue_running :
      (f : F) (fs : List F)
      → s.pc ≡ running fs
      → s.calling ≡ true
      → Step e s (record (push f s) { pc = pushed fs })
  wake_running :
      (fs : List F)
      → s.pc ≡ pushed fs
      → Step e s (record s { pc = running fs; fd = e.write_one s.fd })
  finish : s.pc ≡ running [] → Step e s (record s { pc = polling; calling = false })
  queue_from :
      (i : ℕ) (f : F)
      → s.callers i ≡ idle
      → Step e s (record (push f s) { callers = move i waking s.callers })
  wake_from :
      (i : ℕ)
      → s.callers i ≡ waking
      → Step e s (record s { callers = move i idle s.callers; fd = e.write_one s.fd })

-- Where `loop` begins: functors may have been queued before, by other threads, which have written or
-- have yet to write to the eventfd, or in the thread of the loop, without a wakeup.
abbrev pub start : {Fd F : Type 0} → Fd → (callers : ℕ → CallerPc) → (queue : List F) → System Fd F
start fd callers queue = record {
  pc = polling;
  callers = callers;
  pending = queue;
  calling = false;
  fd = fd;
  history = queue;
  ran = [];
}

pub data Reach (e : EventFd) {F : Type 0} (begin : System e.Fd F) : System e.Fd F → Type 0 where
  here : Reach e begin begin
  next : {s t : System e.Fd F} → Reach e begin s → Step e s t → Reach e begin t

-- The functors swapped out and not yet run.
abbrev pub left : {F : Type 0} → LoopPc F → List F
left (running fs) = fs
left (pushed fs) = fs
left _ = []

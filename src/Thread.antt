-- ===== src/Thread.antt =====
-- include/thread/thread.h, src/thread/thread.cpp and include/thread/cthread.h: the wrapper of
-- std::thread with its flags, its name and its thread id, and the cache of the id of the own thread.
-- The threads' counter `tcount_` is an argument.
pub mod Names
pub mod Life
pub mod Cached
mod Examples
use caimr.Prelude.{
  ℕ, zero, suc, ◌+◌, ◌-◌, ◌%◌, ◌^◌, Bool, true, false, not, ◌&&◌, Bytes, List, [], ◌∷◌, ◌++◌, take,
  ltb, ◌==◌, if◌then◌else◌,
}
use caimr.LogStream.{ℤ, pos, negsuc, decimal}

-- What `thread_` points to: nothing, or a std::thread that can be joined, or that cannot.
pub data Handle : Type 0 where
  null joinable finished : Handle

-- How a call ends: it returns, it calls std::terminate, it throws std::system_error, or it uses a
-- null pointer.
pub data Outcome {ℓ} (A : Type ℓ) : Type ℓ where
  returned : A → Outcome A
  terminated thrown undefined : Outcome A

abbrev pub and_then {ℓ κ} : {A : Type ℓ} {B : Type κ} → Outcome A → (A → Outcome B) → Outcome B
and_then (returned a) f = f a
and_then terminated f = terminated
and_then thrown f = thrown
and_then undefined f = undefined

-- The function that the thread runs is left out.
pub record Thread : Type 0 where
  pub started_ : Bool
  pub joined_ : Bool
  pub thread_ : Handle
  pub tid_ : ℕ
  pub name_ : Bytes

-- The int that 32 bits stand for.
abbrev pub as_int : ℕ → ℤ
as_int n = if ltb n (2 ^ 31) then pos n else negsuc (2 ^ 32 - 1 - n)

-- "thread%d" as snprintf writes it to 32 characters, one of them the final 0.
pub default_name : ℕ → Bytes
default_name n = take 31 (116 ∷ 104 ∷ 114 ∷ 101 ∷ 97 ∷ 100 ∷ decimal (as_int n))

-- With the counter after the call; an atomic int wraps around.
pub set_default : Thread × ℕ → Thread × ℕ
unfolding default_name
set_default (t, tcount) = elim t.name_ [
  | [] ↦ let count = (tcount + 1) % 2 ^ 32 in (record t { name_ = default_name count }, count)
  | _ ∷ _ ↦ (t, tcount)
]

unfoldable pub create : Bytes → ℕ → Thread × ℕ
unfolding set_default
create name tcount =
    set_default
      (record { started_ = false; joined_ = false; thread_ = null; tid_ = 0; name_ = name }, tcount)

abbrev pub started : Thread → Bool
started t = t.started_

abbrev pub tid : Thread → ℕ
tid t = t.tid_

abbrev pub name : Thread → Bytes
name t = t.name_

-- The new thread assigns `thread::tid()`, the accessor of this object, to `tid_`. The std::thread that
-- `thread_` held before is destroyed, which terminates the program when it can still be joined.
unfoldable pub start : Thread → Outcome Thread
start t = elim t.thread_ [
  | null ↦ returned (record t { started_ = true; thread_ = joinable; tid_ = tid t })
  | joinable ↦ terminated
  | finished ↦ returned (record t { started_ = true; thread_ = joinable; tid_ = tid t })
]

-- It returns when the function of the thread has.
unfoldable pub join : Thread → Outcome Thread
join t = elim t.thread_ [
  | null ↦ undefined
  | joinable ↦ returned (record t { joined_ = true; thread_ = finished })
  | finished ↦ thrown
]

-- `thread_->detach()`; what it throws leaves a destructor, which terminates the program.
abbrev pub detach : Handle → Outcome Handle
detach null = undefined
detach joinable = returned finished
detach finished = terminated

-- The destructor of `thread_`.
abbrev pub release : Outcome Handle → Outcome (Unit {0})
release (returned null) = returned tt
release (returned joinable) = terminated
release (returned finished) = returned tt
release terminated = terminated
release thrown = thrown
release undefined = undefined

unfoldable pub destroy : Thread → Outcome (Unit {0})
destroy t = release (if t.started_ && not t.joined_ then detach t.thread_ else returned t.thread_)

-- cthread: `tid_` of the thread, and the system calls made so far. `gettid` is the kernel's answer.
pub record Cache : Type 0 where
  pub tid_ : ℕ
  pub syscalls : ℕ

abbrev pub no_cache : Cache
no_cache = record { tid_ = 0; syscalls = 0 }

pub cache : (gettid : ℕ) → Cache → Cache
cache gettid c = record c { tid_ = gettid; syscalls = c.syscalls + 1 }

unfoldable pub cached_tid : (gettid : ℕ) → Cache → ℕ × Cache
unfolding cache
cached_tid gettid c = let c' = if c.tid_ == 0 then cache gettid c else c in (c'.tid_, c')

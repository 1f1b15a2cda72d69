-- ===== src/Thread/Cached.antt =====
-- cthread::tid asks the kernel once.
use caimr.Prelude.{ℕ, zero, suc, ◌≡◌, ◌≢◌, refl, List, [], ◌∷◌, replicate, ==_iff, arith}
use caimr.Thread.{Cache, no_cache, cached_tid}

-- The answers of a number of calls, and the cache after them.
abbrev pub ask : ℕ → ℕ → Cache → List ℕ × Cache
ask zero gettid c = ([], c)
ask (suc k) gettid c =
    let (id, c') = cached_tid gettid c in let (ids, c'') = ask k gettid c' in (id ∷ ids, c'')

cached-hit :
    (gettid n : ℕ)
    → gettid ≢ 0
    → cached_tid gettid (record { tid_ = gettid; syscalls = n })
      ≡ (gettid, record { tid_ = gettid; syscalls = n })
unfolding cached_tid
cached-hit gettid n live = ground (arith, ==_iff gettid 0)

ask-hit :
    (k gettid n : ℕ)
    → gettid ≢ 0
    → ask k gettid (record { tid_ = gettid; syscalls = n })
      ≡ (replicate k gettid, record { tid_ = gettid; syscalls = n })
ask-hit zero gettid n live = refl
ask-hit (suc k) gettid n live = simp (cached-hit gettid n live, ask-hit k gettid n live)

-- The calls of `cthread::tid` in one thread, be there one or more, all answer the id that the kernel
-- gives the thread, which is not 0, and make a single system call.
pub ask_lem :
    (k gettid : ℕ)
    → gettid ≢ 0
    → ask (suc k) gettid no_cache
      ≡ (replicate (suc k) gettid, record { tid_ = gettid; syscalls = 1 })
unfolding cached_tid
ask_lem k gettid live = simp (ask-hit k gettid 1 live)

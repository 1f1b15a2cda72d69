-- ===== src/Tpool/Threads.antt =====
-- The thread objects of a tpool (src/thread/tpool.cpp): `start` creates and starts them, the destructor
-- stops the pool, joins and destroys them. What the threads do is in Tpool itself.
use caimr.Prelude.{
  ℕ, zero, suc, ◌+◌, ◌<◌, ◌≡◌, refl, sym, ap, ◌∙◌, true, false, Bytes, List, [], ◌∷◌, ◌++◌,
  append_assoc, append-nil, length, length-append, length-take, take, arith, Option, none, some,
}
use caimr.LogStream.{pos, decimal}
use caimr.LogStream.Decimal.{decimal-nonempty}
use caimr.Thread
use caimr.Thread.{
  Thread, joinable, finished, Outcome, returned, terminated, thrown, undefined, and_then,
}

-- `name_`, `t_init_callback_`, `tsize_` and `threads_`. `W` is what the callback works on.
pub record Crew (W : Type 0) : Type 0 where
  pub name : Bytes
  pub t_init_callback : Option (W → Outcome W)
  pub tsize : ℕ
  pub threads : List Thread

pub create : {W : Type 0} → Bytes → Crew W
create name = record { name = name; t_init_callback = none; tsize = 0; threads = [] }

pub set_tcallback : {W : Type 0} → (W → Outcome W) → Crew W → Crew W
set_tcallback callback c = record c { t_init_callback = some callback }

pub set_tsize : {W : Type 0} → ℕ → Crew W → Crew W
set_tsize num c = record c { tsize = num }

-- `name_ + id`, with the number as snprintf writes it to 32 characters.
abbrev pub worker_name : Bytes → ℕ → Bytes
worker_name name i = name ++ take 31 (decimal (pos (i + 1)))

-- `threads_[i]->start()`
pub start_at : ℕ → List Thread → Outcome (List Thread)
start_at i [] = undefined
start_at zero (t ∷ ts) = and_then (Thread.start t) (λ t'. returned (t' ∷ ts))
start_at (suc i) (t ∷ ts) = and_then (start_at i ts) (λ ts'. returned (t ∷ ts'))

-- The loop of `start` from `i` on, with the number of rounds left; `tcount` is the counter of threads.
pub start_loop : {W : Type 0} → (rounds i tcount : ℕ) → Crew W → Outcome (Crew W)
unfolding start_at
start_loop zero i tcount c = returned c
start_loop (suc rounds) i tcount c =
    let (t, tcount') = Thread.create (worker_name c.name i) tcount in
    and_then (start_at i (c.threads ++ t ∷ []))
      (λ ts. start_loop rounds (i + 1) tcount' (record c { threads = ts }))

-- A pool without threads calls the callback itself.
pub call_without_threads : {W : Type 0} → ℕ → Option (W → Outcome W) → W → Outcome W
call_without_threads zero (some callback) w = callback w
call_without_threads zero none w = returned w
call_without_threads (suc n) callback w = returned w

pub start : {W : Type 0} → (tcount : ℕ) → Crew W → W → Outcome (Crew W × W)
unfolding start_loop call_without_threads
start tcount c w =
    and_then (start_loop c.tsize 0 tcount c) (λ c'.
      and_then (call_without_threads c'.tsize c'.t_init_callback w) (λ w'. returned (c', w')))

-- The loop of the destructor, behind `stop`.
pub join_all : List Thread → Outcome (List Thread)
join_all [] = returned []
join_all (t ∷ ts) =
    and_then (Thread.join t) (λ t'. and_then (join_all ts) (λ ts'. returned (t' ∷ ts')))

-- The destructor of `threads_`.
pub destroy_all : List Thread → Outcome (Unit {0})
destroy_all [] = returned tt
destroy_all (t ∷ ts) = and_then (Thread.destroy t) (λ _. destroy_all ts)

pub destroy : {W : Type 0} → Crew W → Outcome (Unit {0})
unfolding join_all destroy_all
destroy c = and_then (join_all c.threads) destroy_all

-- A thread that runs, and one that has been joined.
abbrev running : Bytes → Thread
running name = record {
  started_ = true;
  joined_ = false;
  thread_ = joinable;
  tid_ = 0;
  name_ = name;
}

-- The threads from number `i` on.
abbrev pub workers : Bytes → ℕ → ℕ → List Thread
workers name i zero = []
workers name i (suc k) = running (worker_name name i) ∷ workers name (i + 1) k

length-workers : (name : Bytes) (i k : ℕ) → length (workers name i k) ≡ k
length-workers name i zero = refl
length-workers name i (suc k) = omega (arith, length-workers name (i + 1) k)

worker_name-nonempty : (name : Bytes) (i : ℕ) → 0 < length (worker_name name i)
worker_name-nonempty name i = omega (
  arith,
  length-append name (take 31 (decimal (pos (i + 1)))),
  length-take 31 (decimal (pos (i + 1))),
  decimal-nonempty (i + 1),
)

starts-fresh :
    (name : Bytes) (tcount : ℕ)
    → 0 < length name
    → Thread.start (Thread.create name tcount).0 ≡ returned (running name)
unfolding Thread.start Thread.create
starts-fresh [] tcount h = absurd (omega arith)
starts-fresh (c ∷ name) tcount h = refl

start_at-last :
    (ts : List Thread) (t u : Thread) (i : ℕ)
    → length ts ≡ i
    → Thread.start t ≡ returned u
    → start_at i (ts ++ t ∷ []) ≡ returned (ts ++ u ∷ [])
unfolding start_at
start_at-last [] t u zero e h = ap (λ o. and_then o (λ t'. returned (t' ∷ []))) h
start_at-last [] t u (suc i) e h = absurd (omega (arith, e))
start_at-last (x ∷ ts) t u zero e h = absurd (omega (arith, e))
start_at-last (x ∷ ts) t u (suc i) e h =
    ap (λ o. and_then o (λ ts'. returned (x ∷ ts'))) (start_at-last ts t u i (omega (arith, e)) h)

start_loop_lem :
    {W : Type 0} (rounds i tcount : ℕ) (c : Crew W)
    → length c.threads ≡ i
    → start_loop rounds i tcount c
      ≡ returned (record c { threads = c.threads ++ workers c.name i rounds })
unfolding start_loop
start_loop_lem zero i tcount c e =
    ap (λ ts. returned (record c { threads = ts })) (sym (append-nil c.threads))
start_loop_lem {W} (suc rounds) i tcount c e =
    let (t, tcount') = Thread.create (worker_name c.name i) tcount in
    let u = running (worker_name c.name i) in
    let go : List Thread → Outcome (Crew W) =
      λ ts. start_loop rounds (i + 1) tcount' (record c { threads = ts }) in
    ap (λ o. and_then o go)
      (start_at-last c.threads t u i e
        (starts-fresh (worker_name c.name i) tcount (worker_name-nonempty c.name i)))
    ∙ start_loop_lem rounds (i + 1) tcount' (record c { threads = c.threads ++ u ∷ [] })
        (omega (arith, length-append c.threads (u ∷ []), e))
    ∙ ap (λ ts. returned (record c { threads = ts }))
        (append_assoc c.threads (u ∷ []) (workers c.name (i + 1) rounds))

-- A thread that has been joined.
abbrev ended : Bytes → Thread
ended name = record { started_ = true; joined_ = true; thread_ = finished; tid_ = 0; name_ = name }

abbrev pub joined : Bytes → ℕ → ℕ → List Thread
joined name i zero = []
joined name i (suc k) = ended (worker_name name i) ∷ joined name (i + 1) k

join_all_lem : (name : Bytes) (i k : ℕ) → join_all (workers name i k) ≡ returned (joined name i k)
unfolding join_all Thread.join
join_all_lem name i zero = refl
join_all_lem name i (suc k) =
    ap (λ o. and_then o (λ ts'. returned (ended (worker_name name i) ∷ ts')))
      (join_all_lem name (i + 1) k)

destroy_all_lem : (name : Bytes) (i k : ℕ) → destroy_all (joined name i k) ≡ returned tt
unfolding destroy_all Thread.destroy
destroy_all_lem name i zero = refl
destroy_all_lem name i (suc k) = destroy_all_lem name (i + 1) k

-- A new pool of the given size and with the given callback, and what `start` makes of its threads.
abbrev pub prepared : {W : Type 0} → Bytes → ℕ → (W → Outcome W) → Crew W
prepared name n callback = set_tsize n (set_tcallback callback (create name))

abbrev pub started : {W : Type 0} → Bytes → ℕ → (W → Outcome W) → Crew W
started name n callback = record {
  name = name;
  t_init_callback = some callback;
  tsize = n;
  threads = workers name 0 n;
}

starts :
    {W : Type 0} (name : Bytes) (n tcount : ℕ) (callback : W → Outcome W) (w : W)
    → start tcount (prepared name n callback) w
      ≡ and_then
          (call_without_threads n (some callback) w)
          (λ w'. returned (started name n callback, w'))
unfolding start create set_tsize set_tcallback
starts {W} name n tcount callback w =
    ap
      (λ (o : Outcome (Crew W)). and_then o (λ c'.
        and_then (call_without_threads c'.tsize c'.t_init_callback w) (λ w'. returned (c', w'))))
      (start_loop_lem n 0 tcount (prepared name n callback) refl)

starts-some :
    {W : Type 0} (name : Bytes) (n tcount : ℕ) (callback : W → Outcome W) (w : W)
    → 0 < n
    → start tcount (prepared name n callback) w ≡ returned (started name n callback, w)
unfolding call_without_threads
starts-some name zero tcount callback w h = absurd (omega arith)
starts-some name (suc n) tcount callback w h = starts name (suc n) tcount callback w

restarts :
    {W : Type 0} (n tcount : ℕ) (name : Bytes) (callback : W → Outcome W) (w : W)
    → 0 < n
    → start tcount (started name n callback) w ≡ terminated
unfolding start start_loop start_at Thread.start
restarts zero tcount name callback w h = absurd (omega arith)
restarts (suc n) tcount name callback w h = refl

-- A tpool is started once. `start` on a new pool with an initialising callback returns, with as many
-- threads as the size says, all of them running and named by the pool's name and their numbers from 1
-- on, and leaves the callback to them; without threads it calls the callback once, and throws or
-- returns as this does. When the tasks let them end, the destructor joins the threads and returns; but
-- to start a pool of some threads again, stopped or not, terminates the program, since it starts the
-- old threads instead of the new ones.
pub crew_lem :
    {W : Type 0} (name : Bytes) (n tcount : ℕ) (callback : W → Outcome W) (w : W)
    → (0 < n → start tcount (prepared name n callback) w ≡ returned (started name n callback, w))
      × (start tcount (prepared name 0 callback) w
          ≡ and_then (callback w) (λ w'. returned (started name 0 callback, w')))
      × (length (started name n callback).threads ≡ n)
      × (join_all (started name n callback).threads ≡ returned (joined name 0 n))
      × (destroy (started name n callback) ≡ returned tt)
      × (0 < n → start tcount (started name n callback) w ≡ terminated)
unfolding destroy call_without_threads
crew_lem name n tcount callback w = (
  starts-some name n tcount callback w,
  starts name 0 tcount callback w,
  length-workers name 0 n,
  join_all_lem name 0 n,
  ap (λ o. and_then o destroy_all) (join_all_lem name 0 n) ∙ destroy_all_lem name 0 n,
  restarts n tcount name callback w,
)

-- ===== src/Eloop/Pending.antt =====
-- What one round of `do_pending_functors` does. A functor is known by what it asks of its loop and
-- by what it does to the rest of the program, `W`.
use caimr.Prelude.{
  ℕ, ◌+◌, ◌≡◌, refl, sym, ap, ◌∙◌, true, false, not, ◌||◌, List, [], ◌∷◌, ◌++◌, length,
  length-append, append_assoc, append-nil, arith, ◌==◌,
}
use caimr.Poller.{Poller}
use caimr.Eloop.{Eloop, quit, queue_in_loop, run_functors, do_pending_functors}

pub pending-queue_in_loop {ℓ} :
    {F : Type ℓ} (tid : ℕ) (f : F) (l : Eloop F)
    → (queue_in_loop tid f l).pending_functors ≡ l.pending_functors ++ f ∷ []
unfolding queue_in_loop
pending-queue_in_loop tid f l = ground arith

pub poller-queue_in_loop {ℓ} :
    {F : Type ℓ} (tid : ℕ) (f : F) (l : Eloop F) → (queue_in_loop tid f l).poller ≡ l.poller
unfolding queue_in_loop
poller-queue_in_loop tid f l = ground arith

pub poller-quit {ℓ} : {F : Type ℓ} (tid : ℕ) (l : Eloop F) → (quit tid l).poller ≡ l.poller
unfolding quit
poller-quit tid l = ground arith

-- A request that a functor makes of the loop in whose thread it runs.
pub data Request {ℓ} (F : Type ℓ) : Type ℓ where
  queues : F → Request F
  quits : Request F
  polls : (Poller → Poller) → Request F  -- a channel is registered, changed or removed

abbrev pub queued {ℓ} : {F : Type ℓ} → List (Request F) → List F
queued [] = []
queued (queues f ∷ rs) = f ∷ queued rs
queued (quits ∷ rs) = queued rs
queued (polls g ∷ rs) = queued rs

abbrev pub polled {ℓ} : {F : Type ℓ} → List (Request F) → Poller → Poller
polled [] p = p
polled (queues f ∷ rs) p = polled rs p
polled (quits ∷ rs) p = polled rs p
polled (polls g ∷ rs) p = polled rs (g p)

module _ {ℓ κ} {F : Type ℓ} {W : Type κ} (body : F → W → List (Request F) × W) where
  abbrev request : Request F → Eloop F → Eloop F
  request (queues f) l = queue_in_loop l.thread_id f l
  request quits l = quit l.thread_id l
  request (polls g) l = record l { poller = g l.poller }

  requests : List (Request F) → Eloop F → Eloop F
  requests [] l = l
  requests (r ∷ rs) l = requests rs (request r l)

  -- A functor run in the thread of the loop.
  pub exec : F → Eloop F × W → Eloop F × W
  unfolding requests
  exec f (l, w) = let (rs, w') = body f w in (requests rs l, w')

  -- The functors run one after the other: what they queue, and the state that they leave.
  abbrev pub produced : List F → W → List F × W
  produced [] w = ([], w)
  produced (f ∷ fs) w =
      let (rs, w') = body f w in let (more, w'') = produced fs w' in (queued rs ++ more, w'')

  -- What they ask of the poller.
  abbrev pub asked : List F → W → Poller → Poller
  asked [] w p = p
  asked (f ∷ fs) w p = let (rs, w') = body f w in asked fs w' (polled rs p)

  -- What the requests add to a loop that is calling functors, and what they do to its poller.
  record Grown (l : Eloop F) (fs : List F) (g : Poller → Poller) (l' : Eloop F) : Type ℓ where
    calling : l'.calling_pending_functors ≡ true
    thread : l'.thread_id ≡ l.thread_id
    pending : l'.pending_functors ≡ l.pending_functors ++ fs
    woken : l'.wakeups ≡ l.wakeups + length fs
    poller : l'.poller ≡ g l.poller
    looping : l'.looping ≡ l.looping

  Grown-trans :
      {l m n : Eloop F} {fs gs : List F} {g h : Poller → Poller}
      → Grown l fs g m
      → Grown m gs h n
      → Grown l (fs ++ gs) (λ p. h (g p)) n
  Grown-trans {l} {m} {n} {fs} {gs} {g} {h} a b = record {
    calling = b.calling;
    thread = b.thread ∙ a.thread;
    pending = b.pending ∙ ap (λ p. p ++ gs) a.pending ∙ append_assoc l.pending_functors fs gs;
    woken = omega (arith, a.woken, b.woken, length-append fs gs);
    poller = b.poller ∙ ap h a.poller;
    looping = b.looping ∙ a.looping;
  }

  queue-Grown :
      (f : F) (l : Eloop F)
      → l.calling_pending_functors ≡ true
      → Grown l (f ∷ []) (λ p. p) (queue_in_loop l.thread_id f l)
  unfolding queue_in_loop
  queue-Grown f l c =
      let e : (not (l.thread_id == l.thread_id) || l.calling_pending_functors) ≡ true =
        ground arith in
      rw e (record {
        calling = c;
        thread = refl;
        pending = refl;
        woken = omega arith;
        poller = refl;
        looping = refl;
      })

  quit-Grown :
      (l : Eloop F) → l.calling_pending_functors ≡ true → Grown l [] (λ p. p) (quit l.thread_id l)
  unfolding quit
  quit-Grown l c =
      let e : not (l.thread_id == l.thread_id) ≡ false = ground arith in
      rw e (record {
        calling = c;
        thread = refl;
        pending = sym (append-nil l.pending_functors);
        woken = omega arith;
        poller = refl;
        looping = refl;
      })

  polls-Grown :
      (g : Poller → Poller) (l : Eloop F)
      → l.calling_pending_functors ≡ true
      → Grown l [] g (record l { poller = g l.poller })
  polls-Grown g l c = record {
    calling = c;
    thread = refl;
    pending = sym (append-nil l.pending_functors);
    woken = omega arith;
    poller = refl;
    looping = refl;
  }

  requests-Grown :
      (rs : List (Request F)) (l : Eloop F)
      → l.calling_pending_functors ≡ true
      → Grown l (queued rs) (polled rs) (requests rs l)
  unfolding requests
  requests-Grown [] l c = record {
    calling = c;
    thread = refl;
    pending = sym (append-nil l.pending_functors);
    woken = omega arith;
    poller = refl;
    looping = refl;
  }
  requests-Grown (queues f ∷ rs) l c =
      let a = queue-Grown f l c in Grown-trans a (requests-Grown rs _ a.calling)
  requests-Grown (quits ∷ rs) l c =
      let a = quit-Grown l c in Grown-trans a (requests-Grown rs _ a.calling)
  requests-Grown (polls g ∷ rs) l c = Grown-trans (polls-Grown g l c) (requests-Grown rs _ c)

  run_functors-Grown :
      (fs : List F) (l : Eloop F) (w : W)
      → l.calling_pending_functors ≡ true
      → let (l', w') = run_functors exec fs (l, w) in
        Grown l (produced fs w).0 (asked fs w) l' × (w' ≡ (produced fs w).1)
  unfolding run_functors exec
  run_functors-Grown [] l w c = (requests-Grown [] l c, refl)
  run_functors-Grown (f ∷ fs) l w c =
      let (rs, w') = body f w in
      let a = requests-Grown rs l c in
      let (b, e) = run_functors-Grown fs (requests rs l) w' a.calling in (Grown-trans a b, e)

  -- One round runs the functors that were pending when it began, each once and in the order in which
  -- they were queued, in one pass over the rest of the program, when of its loop a functor asks only
  -- to queue functors, to quit, and to change what the poller has registered. What they queue
  -- meanwhile is not run but is all that is pending afterwards, in order, and for each such functor the
  -- loop has been woken once. The poller has been asked for what they ask, in order, and for nothing
  -- else, and the flag that marks the round is down again. Other threads queue nothing meanwhile.
  pub do_pending_functors_lem :
      (l : Eloop F) (w : W)
      → let (later, after) = produced l.pending_functors w in
        let (l', w') = do_pending_functors exec (l, w) in
        (w' ≡ after)
        × (l'.pending_functors ≡ later)
        × (l'.wakeups ≡ l.wakeups + length later)
        × (l'.calling_pending_functors ≡ false)
        × (l'.poller ≡ asked l.pending_functors w l.poller)
        × (l'.looping ≡ l.looping)
  unfolding do_pending_functors
  do_pending_functors_lem l w =
      let swapped : Eloop F = record l { calling_pending_functors = true; pending_functors = [] } in
      let (g, e) = run_functors-Grown l.pending_functors swapped w refl in
      (e, g.pending, g.woken, refl, g.poller, g.looping)

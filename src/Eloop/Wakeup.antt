-- ===== src/Eloop/Wakeup.antt =====
-- The queue of functors and the wakeup, with the threads interleaved as in Eloop/Threads.
use caimr.Prelude.{
  ℕ, ◌≡◌, refl, sym, ap, ◌∙◌, subst, ◌⊎◌, Bool, true, false, List, [], ◌∷◌, ◌++◌, append_assoc,
  append-nil,
}
use caimr.Eloop.Threads.{
  EventFd, LoopPc, polling, handling, running, waking, System, push, Step, poll_returns, drain,
  queue_handling, handled, swap, run, queue_running, wake_running, finish, queue_from, wake_from,
  CallerPc, start, Reach, here, next, left,
}

module _ (e : EventFd) {F : Type 0} where
  -- The queue is empty, or poll will return at once, or a caller is about to make it do so.
  abbrev pub Awake : System e.Fd F → Type 0
  Awake s = (s.pending ≡ []) ⊎ (e.readable s.fd ≡ true) ⊎ ((i : ℕ) × (s.callers i ≡ waking))

  -- Between the return of poll and the swap the queue needs nobody: the swap will take it.
  abbrev AwakeAt : LoopPc F → System e.Fd F → Type 0
  AwakeAt polling s = Awake s
  AwakeAt (running _) s = Awake s
  AwakeAt _ s = Unit {0}

  abbrev OrderAt : LoopPc F → System e.Fd F → Type 0
  OrderAt pc s = (s.ran ++ left pc) ++ s.pending ≡ s.history

  abbrev is_calling : LoopPc F → Bool
  is_calling polling = false
  is_calling handling = false
  is_calling _ = true

  record Inv (s : System e.Fd F) : Type 0 where
    order : OrderAt s.pc s
    flag : s.calling ≡ is_calling s.pc

  -- What holds at a loop thread that is known to stand at `pc`.
  at :
      {s : System e.Fd F} {pc : LoopPc F}
      → s.pc ≡ pc
      → Inv s
      → OrderAt pc s × (s.calling ≡ is_calling pc)
  at {s} h v = (subst (λ p. OrderAt p s) h v.order, subst (λ p. s.calling ≡ is_calling p) h v.flag)

  order-push : (pc : LoopPc F) (f : F) (s : System e.Fd F) → OrderAt pc s → OrderAt pc (push f s)
  order-push pc f s o =
      sym (append_assoc (s.ran ++ left pc) s.pending (f ∷ [])) ∙ ap (λ h. h ++ f ∷ []) o

  step-Inv : {s t : System e.Fd F} → Step e s t → Inv s → Inv t
  step-Inv (poll_returns h) v = let (o, c) = at h v in record { order = o; flag = c }
  step-Inv (drain h) v = record { order = v.order; flag = v.flag }
  step-Inv {s} (queue_handling f h n) v = record {
    order = order-push s.pc f s v.order;
    flag = v.flag;
  }
  step-Inv (handled h) v = let (o, c) = at h v in record { order = o; flag = refl }
  step-Inv {s} (swap h) v =
      let (o, c) = at h v in
      record {
        order =
            append-nil (s.ran ++ s.pending) ∙ ap (λ r. r ++ s.pending) (sym (append-nil s.ran)) ∙ o;
        flag = c;
      }
  step-Inv {s} (run f fs h) v =
      let (o, c) = at h v in
      record { order = ap (λ r. r ++ s.pending) (append_assoc s.ran (f ∷ []) fs) ∙ o; flag = c }
  step-Inv {s} (queue_running f fs h n) v =
      let (o, c) = at h v in record { order = order-push (running fs) f s o; flag = c }
  step-Inv (wake_running fs h) v = let (o, c) = at h v in record { order = o; flag = c }
  step-Inv (finish h) v = let (o, c) = at h v in record { order = o; flag = refl }
  step-Inv {s} (queue_from i f h) v = record { order = order-push s.pc f s v.order; flag = v.flag }
  step-Inv {s} (wake_from i h) v = record { order = v.order; flag = v.flag }

  Reach-Inv :
      {fd : e.Fd} {callers : ℕ → CallerPc} {queue : List F} {s : System e.Fd F}
      → Reach e (start fd callers queue) s
      → Inv s
  Reach-Inv here = record { order = refl; flag = refl }
  Reach-Inv (next r st) = step-Inv st (Reach-Inv r)

  -- Functors run in the order in which they were queued, each once and none left out: at any time
  -- those that have run, those that are swapped out and those that are pending are, in this order,
  -- all that were ever queued, before `loop` began or since.
  pub runs_in_order :
      {fd : e.Fd} {callers : ℕ → CallerPc} {queue : List F} {s : System e.Fd F}
      → Reach e (start fd callers queue) s
      → (s.ran ++ left s.pc) ++ s.pending ≡ s.history
  runs_in_order r = (Reach-Inv r).order

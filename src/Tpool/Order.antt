-- ===== src/Tpool/Order.antt =====
-- Tasks leave the queue in the order in which they were added, each once.
use caimr.Prelude.{ℕ, ◌≡◌, refl, sym, ap, ◌∙◌, [], ◌∷◌, ◌++◌, append_assoc}
use caimr.Tpool.{
  Tpool, WorkerStep, begin, begin_throws, take, wait, leave, wake, finish, throw, Step, works,
  add_notify, add_alone, stop, Reach, here, next, start, push,
}

module _ {T : Type 0} where
  abbrev Ordered : Tpool T → Type 0
  Ordered p = p.taken ++ p.queue ≡ p.history

  worker-Ordered : {p q : Tpool T} → WorkerStep p q → Ordered p → Ordered q
  worker-Ordered {p} (take i task rest w e) o =
      append_assoc p.taken (task ∷ []) rest ∙ ap (λ r. p.taken ++ r) (sym e) ∙ o
  worker-Ordered (begin i w) o = o
  worker-Ordered (begin_throws i w) o = o
  worker-Ordered (wait i w e r) o = o
  worker-Ordered (leave i w e r) o = o
  worker-Ordered (wake i w) o = o
  worker-Ordered (finish i task w) o = o
  worker-Ordered (throw i task w) o = o

  push-Ordered : (task : T) (p : Tpool T) → Ordered p → Ordered (push task p)
  push-Ordered task p o =
      sym (append_assoc p.taken p.queue (task ∷ [])) ∙ ap (λ r. r ++ task ∷ []) o

  step-Ordered : {p q : Tpool T} → Step p q → Ordered p → Ordered q
  step-Ordered (works s) o = worker-Ordered s o
  step-Ordered {p} (add_notify task i w) o = push-Ordered task p o
  step-Ordered {p} (add_alone task n) o = push-Ordered task p o
  step-Ordered stop o = o

  -- Whatever the interleaving: the tasks taken so far and then those still queued are, in this order,
  -- the tasks added. So none is lost, taken twice or overtaken by a later one.
  pub taken_in_order : {tsize : ℕ} {p : Tpool T} → Reach tsize p → p.taken ++ p.queue ≡ p.history
  unfolding start
  taken_in_order here = refl
  taken_in_order (next r s) = step-Ordered s (taken_in_order r)

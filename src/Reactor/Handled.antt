-- ===== src/Reactor/Handled.antt =====
-- What an active channel and a functor do to the connections (Reactor/Rounds) is a step of the reactor.
use caimr.Prelude.{
  ℕ, ◌≡◌, ◌≢◌, refl, sym, subst, Bool-cases, inl, inr, Option, none, some, List, [], ◌∷◌, lookup,
  map, ◌==◌, ◌+◌, ◌∙◌, ap,
}
use caimr.Chan.{Chan}
use caimr.Eloop.{Eloop, queue_in_loop}
use caimr.Eloop.Pending.{poller-queue_in_loop, poller-quit}
use caimr.Functor.{Functor}
use caimr.Poller.Interest.{Epoll}
use caimr.Poller.Poll.{Alike}
use caimr.TcpConn.{TcpConn, Callbacks, connenting, create}
use caimr.TcpConn.Inputs.{Room, flushes, shuts_in_loop, handle}
use caimr.Reactor.{
  Told, absent, told, Step, Reach, visit, establishes, calls, dispatches, completes, overflows,
  destroys, turns, next,
}
use caimr.Reactor.Begun.{StartedAt}
use caimr.Reactor.Newcomers.{newcomer-found, newcomer-connenting, entered-Reached}
use caimr.Reactor.Rounds.{
  Answers, Running, reactor, operate_on, operate, bury_on, put_chans, handle_now, handle_event,
  exec_now, exec, Newcomer, queue_all, interfere, before, newcomer, accept_conn, remove_on,
}
use caimr.Reactor.Conditions.{OnSome, AdmitAllowed, EventAllowed, FunctorAllowed}

pub put_chans-Told :
    (conns : List (ℕ × TcpConn)) (chans : List Chan)
    → Alike (map (λ e. e.1.ch) conns) chans
    → (b : ℕ) → Told (lookup b conns) (lookup b (put_chans chans conns))
unfolding lookup
put_chans-Told [] [] alike b = absent
put_chans-Told [] (ch ∷ chans) alike b = absurd alike
put_chans-Told ((a, c) ∷ conns) [] alike b = absurd alike
put_chans-Told ((a, c) ∷ conns) (ch ∷ chans) ((revents, e), alike) b = elim (Bool-cases (a == b)) [
  | inl here ↦
      simp here (subst (λ x. Told (some c) (some (record c { ch = x }))) (sym e) (told c revents))
  | inr other ↦ simp other (put_chans-Told conns chans alike b)
]

-- Other threads do not touch the poller.
queue_all-poller :
    (functors : List Functor) (l : Eloop Functor) → (queue_all functors l).poller ≡ l.poller
unfolding queue_all
queue_all-poller [] l = refl
queue_all-poller (f ∷ functors) l =
    queue_all-poller functors (queue_in_loop (l.thread_id + 1) f l)
    ∙ poller-queue_in_loop (l.thread_id + 1) f l

interfere-poller : (answers : Answers) (l : Eloop Functor) → (interfere answers l).poller ≡ l.poller
interfere-poller answers l = elim (Bool-cases answers.quits) [
  | inl on ↦ simp on (
      poller-quit (l.thread_id + 1) (queue_all answers.queued l)
      ∙ queue_all-poller answers.queued l)
  | inr off ↦ simp off (queue_all-poller answers.queued l)
]

module _ (k : Epoll) (cb : Callbacks) (room : Room) (l₀ : Eloop Functor) where
  abbrev pub Reached : Running → Type 0
  Reached s = Reach k cb room l₀ (reactor s)

  -- A change of the loop that does not concern the poller.
  pub turned :
      (l : Eloop Functor) (s : Running) → l.poller ≡ s.0.poller → Reached s → Reached (l, s.1)
  turned l s same reached =
      next reached (turns l (ap (λ p. p.chs) same) (ap (λ p. p.requests) same))

  both :
      (o : Option TcpConn) (P Q : TcpConn → Type 0)
      → OnSome o P
      → OnSome o Q
      → OnSome o (λ c. P c × Q c)
  both none P Q p q = tt
  both (some c) P Q p q = (p, q)

  operate_on-Reached :
      (o : Option TcpConn) (a : ℕ) (f : TcpConn → TcpConn) (s : Running) (P : TcpConn → Type 0)
      → lookup a s.1.conns ≡ o
      → Reached s
      → OnSome o P
      → ((c : TcpConn)
          → lookup a s.1.conns ≡ some c
          → P c
          → Step k cb room l₀ (reactor s) (visit a f c (reactor s)))
      → Reached (operate_on o a f s)
  operate_on-Reached none a f s P e reached p step = reached
  operate_on-Reached (some c) a f s P e reached p step = next reached (step c e p)

  operate-Reached :
      (a : ℕ) (f : TcpConn → TcpConn) (s : Running) (P : TcpConn → Type 0)
      → Reached s
      → OnSome (lookup a s.1.conns) P
      → ((c : TcpConn)
          → lookup a s.1.conns ≡ some c
          → P c
          → Step k cb room l₀ (reactor s) (visit a f c (reactor s)))
      → Reached (operate a f s)
  unfolding operate
  operate-Reached a f s P reached p step =
      operate_on-Reached (lookup a s.1.conns) a f s P refl reached p step

  bury_on-Reached :
      (o : Option TcpConn) (a : ℕ) (s : Running)
      → lookup a s.1.conns ≡ o
      → Reached s
      → OnSome o (λ c. c.state ≢ connenting)
      → Reached (bury_on cb o a s)
  bury_on-Reached none a s e reached p = reached
  bury_on-Reached (some c) a s e reached p = next reached (destroys a c (e, p))

  remove_on-Reached :
      (o : Option TcpConn) (conn : ℕ) (s : Running) → Reached s → Reached (remove_on o conn s)
  remove_on-Reached none conn s reached = reached
  remove_on-Reached (some c) conn s reached =
      turned (queue_in_loop s.0.thread_id (Functor.destroy_conn conn) s.0) s
        (poller-queue_in_loop s.0.thread_id (Functor.destroy_conn conn) s.0) reached

  module _ (place : ℕ → ℕ) (env : ℕ → Answers) where
    pub before-Reached : (s : Running) → Reached s → Reached (before cb place env s)
    before-Reached s reached =
        turned (interfere (env s.1.clock) s.0) s (interfere-poller (env s.1.clock) s.0) reached

    accept_conn-Reached :
        (o : Option Newcomer) (s : Running)
        → Reached s
        → AdmitAllowed k cb room l₀ place env o s
        → Reached (accept_conn cb place env o s)
    unfolding create
    accept_conn-Reached none s reached allowed = reached
    accept_conn-Reached (some n) s reached allowed =
        next (entered-Reached k cb room l₀ place env n s reached allowed) (
          establishes (place n.id) (newcomer cb place env n s.0) (newcomer-found cb place env n s)
            (newcomer-connenting cb place env n s.0) allowed.4)

    handle_now-Reached :
        (ptr : ℕ) (s : Running)
        → Reached s
        → StartedAt ptr s.1.conns
        → EventAllowed k cb room l₀ place env ptr s
        → Reached (handle_now cb place env ptr s)
    unfolding handle_now
    handle_now-Reached ptr s reached up allowed = elim (Bool-cases (ptr == s.1.accept_ch.id)) [
      | inl on ↦
          simp on (accept_conn-Reached (env s.1.clock).accepted s reached (simp on at allowed))
      | inr off ↦ simp off (
          operate-Reached ptr _ s _ reached
            (both (lookup ptr s.1.conns) _ _ up (simp off at allowed))
            (λ c found (started, ok).
              dispatches ptr c (env s.1.clock).readv (env s.1.clock).write (found, started) ok))
    ]

    pub handle_event-Reached :
        (ptr : ℕ) (s : Running)
        → Reached s
        → StartedAt ptr s.1.conns
        → EventAllowed k cb room l₀ place env ptr (before cb place env s)
        → Reached (handle_event cb place env ptr s)
    unfolding handle_event
    handle_event-Reached ptr s reached up allowed =
        handle_now-Reached ptr (before cb place env s) (before-Reached s reached) up allowed

    exec_now-Reached :
        (f : Functor) (s : Running)
        → Reached s
        → FunctorAllowed k cb room l₀ place env f s
        → Reached (exec_now cb place env f s)
    unfolding exec_now handle
    exec_now-Reached (Functor.send_in_loop conn ptr len) s reached allowed =
        operate-Reached (place conn) _ s _ reached allowed (λ c found (started, ok).
          calls (place conn) c (flushes (env s.1.clock).write ((env s.1.clock).memory ptr len))
            (found, started) tt ok)
    exec_now-Reached (Functor.shutdown_in_loop conn) s reached allowed =
        operate-Reached (place conn) _ s _ reached allowed
          (λ c found started. calls (place conn) c shuts_in_loop (found, started) tt tt)
    exec_now-Reached (Functor.establish_conn conn) s reached allowed =
        operate-Reached (place conn) _ s _ reached allowed
          (λ c found (e, ok). establishes (place conn) c found e ok)
    exec_now-Reached (Functor.destroy_conn conn) s reached allowed =
        bury_on-Reached (lookup (place conn) s.1.conns) (place conn) s refl reached allowed
    exec_now-Reached (Functor.write_complete conn) s reached allowed =
        operate-Reached (place conn) _ s _ reached allowed
          (λ c found (started, ok). completes (place conn) c (found, started) ok)
    exec_now-Reached (Functor.high_water_mark conn len) s reached allowed =
        operate-Reached (place conn) _ s _ reached allowed
          (λ c found (started, ok). overflows (place conn) c len (found, started) ok)
    exec_now-Reached (Functor.remove_conn_in_loop conn) s reached allowed =
        remove_on-Reached (lookup (place conn) s.1.conns) conn s reached
    exec_now-Reached Functor.listen s reached allowed = absurd allowed

    pub exec-Reached :
        (f : Functor) (s : Running)
        → Reached s
        → FunctorAllowed k cb room l₀ place env f (before cb place env s)
        → Reached (exec cb place env f s)
    unfolding exec
    exec-Reached f s reached allowed =
        exec_now-Reached f (before cb place env s) (before-Reached s reached) allowed

-- ===== src/Reactor/Newcomers.antt =====
-- A connection that the acceptor gives to the loop (Reactor/Rounds) enters the reactor.
use caimr.Prelude.{
  ℕ, ◌≡◌, refl, ap, ◌∙◌, true, some, lookup, lookup-insert, ◌==◌, if◌then◌else◌, arith,
}
use caimr.Eloop.{Eloop}
use caimr.Functor.{Functor}
use caimr.Poller.Interest.{Epoll}
use caimr.TcpConn.{Callbacks, connenting, create}
use caimr.TcpConn.Inputs.{Room}
use caimr.Reactor.{Reach, enters, next}
use caimr.Reactor.Rounds.{Answers, Newcomer, Running, reactor, newcomer, entered_with}
use caimr.Reactor.Conditions.{AdmitAllowed}

module _ (cb : Callbacks) (place : ℕ → ℕ) (env : ℕ → Answers) where
  pub newcomer-found :
      (n : Newcomer) (s : Running)
      → lookup (place n.id) (entered_with cb place env n s).conns
        ≡ some (newcomer cb place env n s.0)
  newcomer-found n s =
      let same : (place n.id == place n.id) ≡ true = ground arith in
      lookup-insert (place n.id) (place n.id) (newcomer cb place env n s.0) s.1.conns
      ∙ ap (λ b. if b then some (newcomer cb place env n s.0) else lookup (place n.id) s.1.conns)
          same

  pub newcomer-connenting :
      (n : Newcomer) (l : Eloop Functor) → (newcomer cb place env n l).state ≡ connenting
  unfolding create
  newcomer-connenting n l = refl

module _ (k : Epoll) (cb : Callbacks) (room : Room) (l₀ : Eloop Functor) (place : ℕ → ℕ)
    (env : ℕ → Answers) where
  pub entered-Reached :
      (n : Newcomer) (s : Running)
      → Reach k cb room l₀ (reactor s)
      → AdmitAllowed k cb room l₀ place env (some n) s
      → Reach k cb room l₀ (entered_with cb place env n s)
  entered-Reached n s reached (unknown, elsewhere, unwatched, apart, ok) =
      next reached
        (enters n.id n.sockfd (place n.id) n.keep_alive_answer unknown elsewhere unwatched apart)

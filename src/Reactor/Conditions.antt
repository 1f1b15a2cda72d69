-- ===== src/Reactor/Conditions.antt =====
-- What a run of the loop over connections (Reactor/Rounds) is subject to: what the kernel keeps to, the
-- room that is needed, and the order in which the functors of a connection come.
use caimr.Prelude.{
  ℕ, ◌≡◌, ◌≢◌, Bool, true, false, Option, none, some, List, [], ◌∷◌, lookup, ◌==◌, if◌then◌else◌,
}
use caimr.Eloop.{Eloop}
use caimr.Eloop.Loop.{round, handle_events}
use caimr.Functor.{Functor}
use caimr.Events.{Events}
use caimr.Poller.{Poller, Wait, wait_failed, ready}
use caimr.Poller.Interest
use caimr.Poller.Interest.{Epoll}
use caimr.TcpConn.{TcpConn, Callbacks, connenting, opened}
use caimr.TcpConn.Dispatch.{inputs_of}
use caimr.TcpConn.Inputs.{Room, flushes, Allowed}
use caimr.TcpConn.States.{AllAllowed}
use caimr.Reactor.Rounds.{
  Newcomer, Answers, Running, handle_event, exec, program, polled, swapped, before, newcomer,
}

abbrev pub OnSome : Option TcpConn → (TcpConn → Type 0) → Type 0
OnSome none P = Unit {0}
OnSome (some c) P = P c

-- Each of the reported addresses is watched for some descriptor.
abbrev pub AllWatched : Epoll → Poller → List (Events × ℕ) → Type 0
AllWatched k p [] = Unit {0}
AllWatched k p ((revt, ptr) ∷ events) =
    ((fd : ℕ) × ((wanted : Events) × (Interest.watches k p fd ≡ some (wanted, ptr))))
    × AllWatched k p events

abbrev pub Truthful : Epoll → Poller → Wait → Type 0
Truthful k p wait_failed = Unit {0}
Truthful k p (ready events) = AllWatched k p events

abbrev pub Unless : Bool → Type 0 → Type 0
Unless true A = Unit {0}
Unless false A = A

module _ (k : Epoll) (cb : Callbacks) (room : Room) (l₀ : Eloop Functor) (place : ℕ → ℕ)
    (env : ℕ → Answers) where
  -- A new connection has a descriptor and an address that nothing else has (Reactor), and the callback
  -- for it has room.
  abbrev pub AdmitAllowed : Option Newcomer → Running → Type 0
  AdmitAllowed none s = Unit {0}
  AdmitAllowed (some n) s =
      (lookup (place n.id) s.1.conns ≡ none)
      × ((fd : ℕ) (events : Events) → Interest.watches k l₀.poller fd ≢ some (events, place n.id))
      × (Interest.watches k l₀.poller n.sockfd ≡ none)
      × ((b : ℕ) (d : TcpConn) → lookup b s.1.conns ≡ some d → n.sockfd ≢ d.ch.fd)
      × room.ok (opened (newcomer cb place env n s.0))

  -- The kernel keeps to its bounds, and what comes in fits into the buffer.
  abbrev pub EventAllowed : (ptr : ℕ) → Running → Type 0
  EventAllowed ptr s =
      let answers = env s.1.clock in
      if ptr == s.1.accept_ch.id
      then AdmitAllowed answers.accepted s
      else OnSome (lookup ptr s.1.conns) (λ c.
        AllAllowed cb room (inputs_of answers.readv answers.write true c.ch)
          (record c { loop = s.0 }))

  abbrev pub Started : (conn : ℕ) → Running → Type 0
  Started conn (l, w) = OnSome (lookup (place conn) w.conns) (λ c. c.state ≢ connenting)

  abbrev pub Roomy : (conn : ℕ) → Running → Type 0
  Roomy conn (l, w) =
      OnSome (lookup (place conn) w.conns)
        (λ c. (c.state ≢ connenting) × room.ok (record c { loop = l }))

  -- A connection is established once, and before anything else runs for it; what is sent fits into
  -- the buffer, and the callbacks have room. An acceptor listens before the loop runs.
  abbrev pub FunctorAllowed : Functor → Running → Type 0
  FunctorAllowed (Functor.send_in_loop conn ptr len) (l, w) =
      let answers = env w.clock in
      OnSome (lookup (place conn) w.conns) (λ c.
        (c.state ≢ connenting)
        × Allowed room (flushes answers.write (answers.memory ptr len)) (record c { loop = l }))
  FunctorAllowed (Functor.establish_conn conn) (l, w) =
      OnSome (lookup (place conn) w.conns)
        (λ c. (c.state ≡ connenting) × room.ok (opened (record c { loop = l })))
  FunctorAllowed (Functor.shutdown_in_loop conn) s = Started conn s
  FunctorAllowed (Functor.destroy_conn conn) s = Started conn s
  FunctorAllowed (Functor.write_complete conn) s = Roomy conn s
  FunctorAllowed (Functor.high_water_mark conn len) s = Roomy conn s
  FunctorAllowed (Functor.remove_conn_in_loop conn) s = Unit {0}
  FunctorAllowed Functor.listen s = ⊥

  abbrev pub EventsAllowed : List ℕ → Running → Type 0
  EventsAllowed [] s = Unit {0}
  EventsAllowed (ptr ∷ active) s =
      EventAllowed ptr (before cb place env s)
      × EventsAllowed active (handle_event cb place env ptr s)

  abbrev pub FunctorsAllowed : List Functor → Running → Type 0
  FunctorsAllowed [] s = Unit {0}
  FunctorsAllowed (f ∷ functors) s =
      FunctorAllowed f (before cb place env s) × FunctorsAllowed functors (exec cb place env f s)

  -- epoll_wait reports what the kernel watches.
  abbrev pub RoundAllowed : Wait → Running → Type 0
  RoundAllowed answer s =
      let (begun, active) = polled cb place env answer s in
      let handled = handle_events (program cb place env) active begun in
      Truthful k s.0.poller answer
      × EventsAllowed active begun
      × FunctorsAllowed handled.0.pending_functors (swapped cb place env handled)

  -- While the loop runs.
  abbrev pub RoundsAllowed : List Wait → Running → Type 0
  RoundsAllowed [] s = Unit {0}
  RoundsAllowed (answer ∷ answers) s =
      Unless s.0.quit_flag
        (RoundAllowed answer s × RoundsAllowed answers (round (program cb place env) answer s))

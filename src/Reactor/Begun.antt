-- ===== src/Reactor/Begun.antt =====
-- In a round of the loop the active channels are those of established connections, and these stay
-- established while the channels are handled.
use caimr.Prelude.{
  ℕ, ◌≡◌, ◌≢◌, refl, ap, true, Bool-cases, inl, inr, Option, none, some, List, [], ◌∷◌, lookup,
  lookup-insert, insert, map, ◌==◌, arith,
}
use caimr.Events.{Events}
use caimr.Eloop.{Eloop}
use caimr.Functor.{Functor}
use caimr.Poller.{Wait, wait_failed, ready}
use caimr.Poller.Interest.{Epoll}
use caimr.Poller.Poll.{pointers}
use caimr.TcpConn.{TcpConn, Callbacks, connenting, create}
use caimr.TcpConn.Dispatch.{on_event, on_event-Kept, inputs_of}
use caimr.TcpConn.Inputs.{Room, rank, rank-started}
use caimr.TcpConn.States.{AllAllowed}
use caimr.Reactor.{Told, absent, told, Reach}
use caimr.Reactor.Owners.{Consistent}
use caimr.Reactor.Steps.{Fair, Reach-Inv}
use caimr.Reactor.Reported.{reported_started}
use caimr.Reactor.Rounds.{
  Answers, Running, reactor, operate_on, operate, handle_event, Newcomer, before, newcomer,
  accept_conn, handle_now,
}
use caimr.Reactor.Conditions.{OnSome, EventAllowed, AllWatched, Truthful, AdmitAllowed}
use caimr.Reactor.Newcomers.{newcomer-found, newcomer-connenting, entered-Reached}
use caimr.TcpConn.Established.{establish_conn-started}

abbrev pub StartedAt : (ptr : ℕ) → List (ℕ × TcpConn) → Type 0
StartedAt ptr conns = OnSome (lookup ptr conns) (λ c. c.state ≢ connenting)

abbrev pub AllStarted : List ℕ → List (ℕ × TcpConn) → Type 0
AllStarted [] conns = Unit {0}
AllStarted (ptr ∷ active) conns = StartedAt ptr conns × AllStarted active conns

some_case :
    (o : Option TcpConn) (P : TcpConn → Type 0) → ((c : TcpConn) → o ≡ some c → P c) → OnSome o P
some_case none P f = tt
some_case (some c) P f = f c refl

Told-started :
    {o o' : Option TcpConn}
    → Told o o'
    → OnSome o (λ c. c.state ≢ connenting)
    → OnSome o' (λ c. c.state ≢ connenting)
Told-started absent s = s
Told-started (told c revents) s = s

-- What poll has told them does not change that.
pub Told-AllStarted :
    (active : List ℕ) (conns conns' : List (ℕ × TcpConn))
    → ((b : ℕ) → Told (lookup b conns) (lookup b conns'))
    → AllStarted active conns
    → AllStarted active conns'
Told-AllStarted [] conns conns' was s = tt
Told-AllStarted (ptr ∷ active) conns conns' was (s, rest) =
    (Told-started (was ptr) s, Told-AllStarted active conns conns' was rest)

insert-StartedAt :
    (ptr b : ℕ) (c : TcpConn) (conns : List (ℕ × TcpConn))
    → c.state ≢ connenting
    → StartedAt ptr conns
    → StartedAt ptr (insert b c conns)
insert-StartedAt ptr b c conns up s = elim (Bool-cases (b == ptr)) [
  | inl same ↦ simp (lookup-insert b ptr c conns, same) up
  | inr other ↦ simp (lookup-insert b ptr c conns, other) s
]

insert-AllStarted :
    (active : List ℕ) (b : ℕ) (c : TcpConn) (conns : List (ℕ × TcpConn))
    → c.state ≢ connenting
    → AllStarted active conns
    → AllStarted active (insert b c conns)
insert-AllStarted [] b c conns up s = tt
insert-AllStarted (ptr ∷ active) b c conns up (s, rest) =
    (insert-StartedAt ptr b c conns up s, insert-AllStarted active b c conns up rest)

-- Of two connections put at one address the second one counts.
insert_twice-AllStarted :
    (active : List ℕ) (b : ℕ) (c d : TcpConn) (conns : List (ℕ × TcpConn))
    → c.state ≢ connenting
    → AllStarted active conns
    → AllStarted active (insert b c (insert b d conns))
insert_twice-AllStarted [] b c d conns up s = tt
insert_twice-AllStarted (ptr ∷ active) b c d conns up (s, rest) = (
  elim (Bool-cases (b == ptr)) [
    | inl same ↦ simp (lookup-insert b ptr c (insert b d conns), same) up
    | inr other ↦
        simp (lookup-insert b ptr c (insert b d conns), lookup-insert b ptr d conns, other) s
  ],
  insert_twice-AllStarted active b c d conns up rest,
)

module _ (k : Epoll) (cb : Callbacks) (room : Room) (l₀ : Eloop Functor) (fair : Fair k cb room)
    (start : Consistent k l₀.poller) where
  watched-AllStarted :
      (events : List (Events × ℕ)) (s : Running)
      → Reach k cb room l₀ (reactor s)
      → AllWatched k s.0.poller events
      → AllStarted (map (λ e. e.1) events) s.1.conns
  watched-AllStarted [] s reached w = tt
  watched-AllStarted ((revt, ptr) ∷ events) s reached ((fd, (wanted, w)), rest) = (
    some_case (lookup ptr s.1.conns) (λ c. c.state ≢ connenting)
        (reported_started k cb room l₀ fair start (reactor s) reached fd wanted ptr w),
    watched-AllStarted events s reached rest,
  )

  pub Truthful-AllStarted :
      (answer : Wait) (s : Running)
      → Reach k cb room l₀ (reactor s)
      → Truthful k s.0.poller answer
      → AllStarted (pointers answer) s.1.conns
  Truthful-AllStarted wait_failed s reached t = tt
  Truthful-AllStarted (ready events) s reached t = watched-AllStarted events s reached t

  module _ (place : ℕ → ℕ) (env : ℕ → Answers) where
    operate_on-AllStarted :
        (o : Option TcpConn) (active : List ℕ) (ptr : ℕ) (s : Running)
        → lookup ptr s.1.conns ≡ o
        → Reach k cb room l₀ (reactor s)
        → OnSome o (λ c. c.state ≢ connenting)
        → OnSome o (λ c.
          AllAllowed cb room
            (inputs_of (env s.1.clock).readv (env s.1.clock).write true c.ch)
            (record c { loop = s.0 }))
        → AllStarted active s.1.conns
        → AllStarted active
            (operate_on o ptr
              (on_event cb (env s.1.clock).readv (env s.1.clock).write true)
              s).1.conns
    operate_on-AllStarted none active ptr s e reached up allowed all = all
    operate_on-AllStarted (some c) active ptr s e reached up allowed all =
        let v = ((Reach-Inv k cb room fair l₀ start reached).0.served ptr c e).valid in
        let kept =
          on_event-Kept cb (env s.1.clock).readv (env s.1.clock).write room fair.polite true
            (record c { loop = s.0 })
            (record { input = v.input; output = v.output; writing = v.writing }) allowed in
        insert-AllStarted active ptr _ s.1.conns
          (λ h. omega (arith, rank-started c.state up, kept.1, ap rank h)) all

    accept_conn-AllStarted :
        (o : Option Newcomer) (active : List ℕ) (s : Running)
        → Reach k cb room l₀ (reactor s)
        → AdmitAllowed k cb room l₀ place env o s
        → AllStarted active s.1.conns
        → AllStarted active (accept_conn cb place env o s).1.conns
    unfolding create
    accept_conn-AllStarted none active s reached allowed all = all
    accept_conn-AllStarted (some n) active s reached allowed all =
        let a = place n.id in
        let c = newcomer cb place env n s.0 in
        let e = newcomer-connenting cb place env n s.0 in
        let r = entered-Reached k cb room l₀ place env n s reached allowed in
        let v =
          ((Reach-Inv k cb room fair l₀ start r).0.served a c
            (newcomer-found cb place env n s)).valid in
        let up =
          establish_conn-started k cb room fair.polite.conn c e allowed.4
            (record { input = v.input; output = v.output; writing = v.writing }) in
        insert_twice-AllStarted active a _ c s.1.conns up all

    handle_now-AllStarted :
        (active : List ℕ) (ptr : ℕ) (s : Running)
        → Reach k cb room l₀ (reactor s)
        → StartedAt ptr s.1.conns
        → EventAllowed k cb room l₀ place env ptr s
        → AllStarted active s.1.conns
        → AllStarted active (handle_now cb place env ptr s).1.conns
    unfolding handle_now operate
    handle_now-AllStarted active ptr s reached up allowed all =
        elim (Bool-cases (ptr == s.1.accept_ch.id)) [
          | inl on ↦ simp on (
              accept_conn-AllStarted (env s.1.clock).accepted active s reached (simp on at allowed)
                all)
          | inr off ↦ simp off (
              operate_on-AllStarted (lookup ptr s.1.conns) active ptr s refl reached up
                (simp off at allowed) all)
        ]

    -- What other threads do is no business of the connections.
    pub handle_event-AllStarted :
        (active : List ℕ) (ptr : ℕ) (s : Running)
        → Reach k cb room l₀ (reactor (before cb place env s))
        → StartedAt ptr s.1.conns
        → EventAllowed k cb room l₀ place env ptr (before cb place env s)
        → AllStarted active s.1.conns
        → AllStarted active (handle_event cb place env ptr s).1.conns
    unfolding handle_event
    handle_event-AllStarted active ptr s reached up allowed all =
        handle_now-AllStarted active ptr (before cb place env s) reached up allowed all

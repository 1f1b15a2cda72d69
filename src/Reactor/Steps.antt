-- ===== src/Reactor/Steps.antt =====
-- What each step of a reactor comes to (Reactor/Served), when the callbacks of the user keep to their
-- own connection.
use caimr.Prelude.{ℕ, ◌≡◌, ◌≢◌, sym, ap, subst, ◌∙◌, ◌≤◌, Option, none, some, lookup, true, arith}
use mathlib.Core.Option.{some-injective}
use caimr.Chan
use caimr.Chan.{is_writing}
use caimr.Eloop.{Eloop}
use caimr.Functor.{Functor}
use caimr.Poller.Interest.{Epoll}
use caimr.TcpConn.{TcpConn, Callbacks, connenting, create, call, establish_conn, destroy_conn}
use caimr.Poller.Registration.{Synced-same}
use caimr.TcpConn.Stream.{IsValid}
use caimr.TcpConn.Inputs.{
  Room, rank, KeepsConn, Keeps, Polite, Input, sends, flushes, shuts, shuts_in_loop, handle,
  call-Keeps,
}
use caimr.TcpConn.States.{handle-Kept}
use caimr.TcpConn.Tame.{
  OwnConn, Tames, Tame, call-Own, send-Own, send_in_loop-Own, shutdown-Own, shutdown_in_loop-Own,
}
use caimr.TcpConn.Dispatch.{on_event, on_event-Kept, on_event-Own}
use caimr.TcpConn.Served.{Served, Apart, Carried, operation-Carried, create-Served}
use caimr.TcpConn.Established.{establish_conn-Carried, destroy_conn-Apart, destroy_conn-unknown}
use caimr.Reactor.{
  Reactor, Step, Reach, visit, call_high_water, IsCall, enters, establishes, calls, reports,
  dispatches, completes, overflows, destroys, turns, here, next,
}
use caimr.Reactor.Owners.{Owner, Consistent, Consistent-Owner, Moved-Owner, unowned}
use caimr.Reactor.Served.{Inv, Inv-empty, Moved, puts, takes, keeps, tells, Moved-Inv}

module _ (k : Epoll) where
  -- What a callback may do to its connection: it sends, shuts down, reads from the input buffer, and
  -- leaves the other connections alone. The callback of the echo server does (TcpConn/Replies).
  abbrev pub FairConn : Room → (TcpConn → TcpConn) → Type 0
  FairConn room f = KeepsConn room f × ((c : TcpConn) → OwnConn k c (f c))

  abbrev pub FairHighWater : Room → Option (ℕ → TcpConn → TcpConn) → Type 0
  FairHighWater room none = Unit {0}
  FairHighWater room (some f) = (len : ℕ) → FairConn room (f len)

  pub record Fair (cb : Callbacks) (room : Room) : Type 0 where
    pub polite : Polite cb room
    pub tame : Tame k cb
    pub write_complete : Keeps room cb.write_complete_callback × Tames k cb.write_complete_callback
    pub high_water : FairHighWater room cb.high_water_mark_callback

  -- The connection with the loop of the reactor.
  abbrev at_loop : Reactor → TcpConn → TcpConn
  at_loop r c = record c { loop = r.loop }

  visit-Moved :
      (r : Reactor) (a : ℕ) (c : TcpConn) (f : TcpConn → TcpConn)
      → Inv k r
      → lookup a r.conns ≡ some c
      → (Served k r.loop.poller a (at_loop r c) → Carried k a (at_loop r c) (f (at_loop r c)))
      → Moved k r (visit a f c r)
  visit-Moved r a c f i found carry =
      let s = i.served a c found in
      let carried = carry (record {
        valid = record {
          input = s.valid.input;
          output = s.valid.output;
          writing = s.valid.writing;
        };
        id = s.id;
        phase = s.phase;
        synced = s.synced;
        hears = s.hears;
      }) in
      puts a _
        (λ d h. carried.fd ∙ ap (λ (t : TcpConn). t.ch.fd) (some-injective c d (sym found ∙ h)))
        (λ b d h ne e. i.apart a b c d found h ne (sym carried.fd ∙ e))
        (subst (λ x. Apart k x r.loop.poller (f (at_loop r c)).loop.poller) (sym carried.fd)
          carried.apart)
        carried.served

  -- An operation of an established connection.
  operation-Moved :
      (r : Reactor) (a : ℕ) (c : TcpConn) (f : TcpConn → TcpConn)
      → Inv k r
      → lookup a r.conns ≡ some c
      → c.state ≢ connenting
      → (IsValid (at_loop r c)
          → OwnConn k (at_loop r c) (f (at_loop r c))
            × (IsValid (f (at_loop r c)) × (rank c.state ≤ rank (f (at_loop r c)).state)))
      → Moved k r (visit a f c r)
  operation-Moved r a c f i found started act = visit-Moved r a c f i found (λ s.
      let (own, kept) = act s.valid in operation-Carried k a (at_loop r c) _ started s own kept)

  high_water-Fair :
      (room : Room) (f : Option (ℕ → TcpConn → TcpConn)) (len : ℕ) (c : TcpConn)
      → FairHighWater room f
      → IsValid c
      → room.ok c
      → OwnConn k c (call_high_water f len c)
        × (IsValid (call_high_water f len c)
            × (rank c.state ≤ rank (call_high_water f len c).state))
  high_water-Fair room none len c fair v o = (call-Own k none c tt, (v, omega arith))
  high_water-Fair room (some f) len c fair v o = ((fair len).1 c, (fair len).0 c v o)

  module _ (cb : Callbacks) (room : Room) where
    handle-Own : (input : Input) (c : TcpConn) → IsCall input → OwnConn k c (handle cb input c)
    unfolding handle
    handle-Own (sends tid ptr answer bytes) c is = send-Own k cb tid ptr answer bytes c
    handle-Own (flushes answer bytes) c is = send_in_loop-Own k cb answer bytes c
    handle-Own (shuts tid) c is = shutdown-Own k tid c
    handle-Own shuts_in_loop c is = shutdown_in_loop-Own k c
    handle-Own _ c is = absurd is

    pub step-Moved :
        Fair cb room
        → (l : Eloop Functor) {r s : Reactor} → Step k cb room l r s
        → Inv k r
        → ((fd : ℕ) → Owner k l r fd)
        → Moved k r s
    unfolding create Chan.create
    step-Moved fair l {r} (enters id sockfd a answer absent elsewhere unwatched apart) i o =
        let (unknown, unasked) = unowned k l r sockfd unwatched apart (o sockfd) in
        puts a (create r.loop id sockfd a answer) (λ d h. absurd (cc (absent, h)))
          (λ b d h ne. apart b d h) (λ other ne t. t)
          (create-Served k r.loop id sockfd a answer unknown unasked)
    step-Moved fair l {r} (establishes a c found e ok) i o =
        visit-Moved r a c (establish_conn cb) i found (λ s.
          establish_conn-Carried k cb room fair.polite.conn fair.tame.conn a (at_loop r c) e ok s)
    step-Moved fair l {r} (calls a c input (found, started) is allowed) i o =
        operation-Moved r a c (handle cb input) i found started (λ v. (
          handle-Own input (at_loop r c) is,
          handle-Kept cb room fair.polite input (at_loop r c) v allowed,
        ))
    step-Moved fair l {r} (reports conns was) i o = tells conns was
    step-Moved fair l {r} (dispatches a c readv write (found, started) allowed) i o =
        operation-Moved r a c (on_event cb readv write true) i found started (λ v. (
          on_event-Own cb readv write k fair.tame true (at_loop r c),
          on_event-Kept cb readv write room fair.polite true (at_loop r c) v allowed,
        ))
    step-Moved fair l {r} (completes a c (found, started) ok) i o =
        operation-Moved r a c (call cb.write_complete_callback) i found started (λ v. (
          call-Own k cb.write_complete_callback (at_loop r c) fair.write_complete.1,
          call-Keeps room cb.write_complete_callback (at_loop r c) fair.write_complete.0 v ok,
        ))
    step-Moved fair l {r} (overflows a c len (found, started) ok) i o =
        operation-Moved r a c (call_high_water cb.high_water_mark_callback len) i found started
          (λ v.
            high_water-Fair room cb.high_water_mark_callback len (at_loop r c) fair.high_water v ok)
    step-Moved fair l {r} (destroys a c (found, started)) i o =
        let (unknown, unwatched) = destroy_conn-unknown k cb fair.tame.conn (at_loop r c) in
        takes a c (destroy_conn cb (at_loop r c)).loop found
          (destroy_conn-Apart k cb fair.tame.conn (at_loop r c)) unknown unwatched
    step-Moved fair l {r} (turns l' chs requests) i o =
        keeps l' (λ ch s. Synced-same k r.loop.poller l'.poller ch chs requests s)

    pub Reach-Inv :
        Fair cb room
        → (l : Eloop Functor) → Consistent k l.poller
        → {r : Reactor} → Reach k cb room l r
        → Inv k r × ((fd : ℕ) → Owner k l r fd)
    Reach-Inv fair l start here = (Inv-empty k l, Consistent-Owner k l start)
    Reach-Inv fair l start (next before step) =
        let (i, o) = Reach-Inv fair l start before in
        let m = step-Moved fair l step i o in (Moved-Inv k m i, λ fd. Moved-Owner k l m fd (o fd))

-- ===== src/Reactor/Dangling.antt =====
-- What the kernel reports is a channel of a connection that exists: the pointers in its set do not
-- dangle.
use caimr.Prelude.{ℕ, ◌≡◌, ◌≢◌, arith, ◌⊎◌, inl, inr, sym, ap, subst, ◌∙◌, some, lookup}
use mathlib.Core.Option.{some-injective}
use caimr.Events.{Events}
use caimr.Eloop.{Eloop}
use caimr.Functor.{Functor}
use caimr.Poller.Interest
use caimr.Poller.Interest.{Epoll}
use caimr.TcpConn.{TcpConn, Callbacks, connenting}
use caimr.TcpConn.Inputs.{Room, rank}
use caimr.TcpConn.Served.{Phase, Served}
use caimr.Poller.{Poller}
use caimr.Poller.Registration.{Agrees, Synced}
use caimr.Reactor.Served.{Inv}
use caimr.Reactor.{Reactor, Reach}
use caimr.Reactor.Owners.{Consistent, Owner, nobody, loop_itself, connection}
use caimr.Reactor.Steps.{Fair, Reach-Inv}

-- The kernel's pointer `ptr` for the descriptor `fd` leads to an established connection, which has
-- the descriptor and wants the events.
pub record Alive (r : Reactor) (at : ℕ) (wanted : Events) (ptr : ℕ) : Type 0 where
  pub conn : TcpConn
  pub started : conn.state ≢ connenting
  pub found : lookup ptr r.conns ≡ some conn
  pub fd : conn.ch.fd ≡ at
  pub events : conn.ch.events ≡ wanted

module _ (k : Epoll) where
  -- The kernel watches no connection that is not established.
  watched_started :
      {p : Poller} {a : ℕ} {e : Events × ℕ} (c : TcpConn)
      → Served k p a c
      → Interest.watches k p c.ch.fd ≡ some e
      → c.state ≢ connenting
  watched_started {p} c s w h = still s.phase s.synced
    where
      still : Phase c → Synced k p c.ch → ⊥
      still (inl (_, new)) s = absurd (cc ((subst (λ x. Agrees k x p c.ch) new s).1, w))
      still (inr (up, _)) s = omega (arith, up, ap rank h)

  Owner-Alive :
      (l : Eloop Functor) (r : Reactor) (fd : ℕ) (events : Events) (ptr : ℕ)
      → Inv k r
      → Owner k l r fd
      → Interest.watches k r.loop.poller fd ≡ some (events, ptr)
      → (Interest.watches k l.poller fd ≡ some (events, ptr)) ⊎ Alive r fd events ptr
  Owner-Alive l r fd events ptr i (nobody (_, w)) h = absurd (cc (w, h))
  Owner-Alive l r fd events ptr i (loop_itself e id (_, was) (_, w)) h = inl (was ∙ sym w ∙ h)
  Owner-Alive l r fd events ptr i (connection a c found e (_, w)) h =
      let same = some-injective (c.ch.events, a) (events, ptr) (sym w ∙ h) in
      inr (record {
        conn = c;
        started =
            watched_started c (i.served a c found)
              (subst (λ x. Interest.watches k r.loop.poller x ≡ some (c.ch.events, a)) (sym e) w);
        found = subst (λ x. lookup x r.conns ≡ some c) (ap (λ t. t.1) same) found;
        fd = e;
        events = ap (λ t. t.0) same;
      })

  -- Whatever happens to the connections of a loop that begins without any, and whose map agrees with
  -- the kernel's set, under the conditions of a reactor: what the kernel watches it has either watched
  -- from the start, with the same pointer, or the pointer is the channel of a connection that exists
  -- and is established, with this descriptor and these events. The kernel never reports a connection
  -- that has been destroyed.
  pub watches-Alive :
      (cb : Callbacks) (room : Room)
      → Fair k cb room
      → (l : Eloop Functor) → Consistent k l.poller
      → (r : Reactor) → Reach k cb room l r
      → (fd : ℕ) (events : Events) (ptr : ℕ)
      → Interest.watches k r.loop.poller fd ≡ some (events, ptr)
      → (Interest.watches k l.poller fd ≡ some (events, ptr)) ⊎ Alive r fd events ptr
  watches-Alive cb room fair l start r reached fd events ptr h =
      Owner-Alive l r fd events ptr (Reach-Inv k cb room fair l start reached).0
        ((Reach-Inv k cb room fair l start reached).1 fd) h

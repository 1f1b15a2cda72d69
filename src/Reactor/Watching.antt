-- ===== src/Reactor/Watching.antt =====
-- The loop, its poller and the kernel serve every connection of a reactor, whatever happens to the
-- connections and in whatever order.
use caimr.Prelude.{true, ℕ, ◌≡◌, ◌≢◌, inl, inr, subst, some, lookup, not, length, ◌==◌}
use caimr.Buffer.Content.{content}
use caimr.Chan.{is_reading, is_writing}
use caimr.Eloop.{Eloop}
use caimr.Functor.{Functor}
use caimr.Poller.Interest
use caimr.Poller.Interest.{Epoll}
use caimr.Poller.Registration.{Agrees, Synced}
use caimr.TcpConn.{TcpConn, Callbacks, connenting, disconnected}
use caimr.TcpConn.Served.{Phase}
use caimr.TcpConn.Inputs.{Room, rank-started}
use caimr.Reactor.{Reactor, Reach}
use caimr.Reactor.Owners.{Consistent}
use caimr.Reactor.Steps.{Fair, Reach-Inv}

module _ (k : Epoll) where
  -- What the poller's map, the kernel and the channel say of an established connection `c` at `a`.
  pub record Watched (r : Reactor) (a : ℕ) (c : TcpConn) : Type 0 where
    pub known : lookup c.ch.fd r.loop.poller.chs ≡ some a
    pub watched : Interest.watches k r.loop.poller c.ch.fd ≡ some (c.ch.events, a)
    pub reading : c.state ≢ disconnected → is_reading c.ch ≡ true
    pub writing :
        c.state ≢ disconnected → is_writing c.ch ≡ not (length (content c.output_buf) == 0)

  -- Whatever happens to the connections of a loop that begins without any and whose map agrees with
  -- the kernel's set, and in whatever order: they are created, established, sent to, shut down,
  -- written to from the queue, reported and handled, called back and destroyed, and between these the
  -- loop polls and runs. As long as the kernel keeps to its bounds, what is sent fits into the buffers,
  -- a new connection has a descriptor and an address that nothing else has, and the user's callbacks
  -- keep to their own connection and have the room that they need: an established connection is in
  -- the map of the poller, the kernel watches its descriptor for exactly the events that its channel
  -- wants and reports its channel for them, and while it is not closed it waits for EPOLLIN, and for
  -- EPOLLOUT exactly if output is waiting.
  pub Reach-Watched :
      (cb : Callbacks) (room : Room)
      → Fair k cb room
      → (l : Eloop Functor) → Consistent k l.poller
      → (r : Reactor) → Reach k cb room l r
      → (a : ℕ) (c : TcpConn) → lookup a r.conns ≡ some c
      → c.state ≢ connenting
      → Watched r a c
  Reach-Watched cb room fair l start r reached a c found started =
      let s = (Reach-Inv k cb room fair l start reached).0.served a c found in
      let (known, watched) = registered c started s.phase s.synced in
      record {
        known = subst (λ x. lookup c.ch.fd r.loop.poller.chs ≡ some x) s.id known;
        watched =
            subst (λ x. Interest.watches k r.loop.poller c.ch.fd ≡ some (c.ch.events, x)) s.id
              watched;
        reading = s.hears (rank-started c.state started);
        writing = s.valid.writing;
      }
    where
      registered :
          (c : TcpConn)
          → c.state ≢ connenting
          → Phase c
          → Synced k r.loop.poller c.ch
          → (lookup c.ch.fd r.loop.poller.chs ≡ some c.ch.id)
            × (Interest.watches k r.loop.poller c.ch.fd ≡ some (c.ch.events, c.ch.id))
      registered c started (inl (e, _)) s = absurd (started e)
      registered c started (inr (_, i)) s = subst (λ x. Agrees k x r.loop.poller c.ch) i s

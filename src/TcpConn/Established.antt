-- ===== src/TcpConn/Established.antt =====
-- What `establish_conn` and `destroy_conn` of src/net/tcp_conn.cpp do to the poller: the connection is
-- registered by the one, and unknown after the other.
use caimr.Prelude.{
  ℕ, ◌≡◌, ◌≢◌, inl, inr, refl, sym, ap, subst, ◌∙◌, true, none, lookup, Bool-cases, arith,
}
use caimr.Events.{read_event, union}
use caimr.Chan
use caimr.Chan.{Chan, Index, fresh, added, deleted, is_writing}
use caimr.Eloop.Channels
use caimr.Poller.{Poller}
use caimr.Poller.Interest
use caimr.Poller.Interest.{Epoll}
use caimr.Poller.Registration.{Agrees-seen, IsRegistered-Synced}
use caimr.TcpConn.{
  TcpConn, Callbacks, opened, connenting, connected, disconnected, is_state, call, on_chan,
  establish_conn, destroy_conn,
}
use caimr.TcpConn.Stream.{IsValid}
use caimr.TcpConn.Inputs.{rank, Room, Keeps, call-Keeps}
use caimr.TcpConn.Tame.{OwnConn, OwnConn-trans, Tames, call-Own}
use caimr.TcpConn.Served.{Phase, Served, Apart, Carried, Carried-trans, operation-Carried}

module _ (k : Epoll) (cb : Callbacks) where
  opened-IsValid : (c : TcpConn) → c.state ≡ connenting → IsValid c → IsValid (opened c)
  opened-IsValid c e v = record {
    input = v.input;
    output = v.output;
    writing = λ h.
        ap is_writing (Channels.enable_reading-events (Chan.tie c.ch) c.loop)
        ∙ ground arith
        ∙ v.writing (λ h. cc (e, h));
  }

  opened-Carried :
      (a : ℕ) (c : TcpConn)
      → c.state ≡ connenting
      → c.ch.index ≡ fresh
      → Served k c.loop.poller a c
      → Carried k a c (opened c)
  opened-Carried a c e new s =
      let tied = Chan.tie c.ch in
      let r =
        Channels.enable_reading-IsRegistered k tied c.loop (λ h. cc (h, new))
          (Agrees-seen k c.ch.index c.loop.poller c.ch c.ch.revents true s.synced) in
      record {
        served = record {
          valid = opened-IsValid c e s.valid;
          id = r.2 ∙ s.id;
          phase = inr (omega arith, r.0);
          synced = IsRegistered-Synced k _ _ c.ch.fd c.ch.id (union c.ch.events read_event) r;
          hears = λ _ _. Channels.is_reading-enable_reading tied c.loop;
        };
        fd = r.1;
        apart = λ other ne t. Channels.enable_reading-others k tied other c.loop ne t;
      }

  is_new : (c : TcpConn) → c.state ≡ connenting → Phase c → c.ch.index ≡ fresh
  is_new c e (inl (_, new)) = new
  is_new c e (inr (up, _)) = absurd (omega (arith, up, ap rank e))

  opened_started : (c : TcpConn) → (opened c).state ≢ connenting
  opened_started c = λ h. cc h

  pub establish_conn-Carried :
      (room : Room)
      → Keeps room cb.conn_callback
      → Tames k cb.conn_callback
      → (a : ℕ) (c : TcpConn) → c.state ≡ connenting
      → room.ok (opened c)
      → Served k c.loop.poller a c
      → Carried k a c (establish_conn cb c)
  unfolding establish_conn
  establish_conn-Carried room keeps tames a c e o s =
      let u = opened-Carried a c e (is_new c e s.phase) s in
      let own = call-Own k cb.conn_callback (opened c) tames in
      Carried-trans k a u (
        operation-Carried k a (opened c) _ (opened_started c) u.served own
          (call-Keeps room cb.conn_callback (opened c) keeps u.served.valid o))

  pub establish_conn-started :
      (room : Room)
      → Keeps room cb.conn_callback
      → (c : TcpConn) → c.state ≡ connenting
      → room.ok (opened c)
      → IsValid c
      → (establish_conn cb c).state ≢ connenting
  unfolding establish_conn
  establish_conn-started room keeps c e o v h = omega (
    arith,
    (call-Keeps room cb.conn_callback (opened c) keeps (opened-IsValid c e v) o).1,
    ap rank h,
  )

  removed :
      (c : TcpConn) (fd : ℕ) (p : Poller)
      → c.ch.fd ≡ fd
      → Apart k fd p c.loop.poller
      → Apart k fd p (on_chan Channels.remove c).loop.poller
  removed c fd p e apart other ne t =
      Channels.remove-others k c.ch other c.loop (λ h. ne (sym e ∙ h)) (apart other ne t)

  -- The end of a connection does not concern the others.
  pub destroy_conn-Apart :
      Tames k cb.conn_callback
      → (c : TcpConn) → Apart k c.ch.fd c.loop.poller (destroy_conn cb c).loop.poller
  unfolding destroy_conn
  destroy_conn-Apart tames c = elim (Bool-cases (is_state c.state connected)) [
    | inr off ↦ simp off (removed c c.ch.fd c.loop.poller refl (λ other ne t. t))
    | inl on ↦
        let c' = on_chan Channels.disable_all (record c { state = disconnected }) in
        let off : OwnConn k c c' =
          (Channels.disable_all-Own k c.ch c.loop, λ h live. absurd (live refl)) in
        let own = OwnConn-trans k off (call-Own k cb.conn_callback c' tames) in
        simp on (removed (call cb.conn_callback c') c.ch.fd c.loop.poller own.0.fd own.0.others)
  ]

  gone :
      (c : TcpConn) (fd : ℕ)
      → c.ch.fd ≡ fd
      → let p = (on_chan Channels.remove c).loop.poller in
        (lookup fd p.chs ≡ none) × (Interest.watches k p fd ≡ none)
  gone c fd e =
      let p = (on_chan Channels.remove c).loop.poller in
      subst (λ x. (lookup x p.chs ≡ none) × (Interest.watches k p x ≡ none)) e
        (Channels.remove-unknown k c.ch c.loop)

  -- Afterwards neither the poller nor the kernel knows its descriptor.
  pub destroy_conn-unknown :
      Tames k cb.conn_callback
      → (c : TcpConn)
      → let p = (destroy_conn cb c).loop.poller in
        (lookup c.ch.fd p.chs ≡ none) × (Interest.watches k p c.ch.fd ≡ none)
  unfolding destroy_conn
  destroy_conn-unknown tames c = elim (Bool-cases (is_state c.state connected)) [
    | inr off ↦ simp off (gone c c.ch.fd refl)
    | inl on ↦
        let c' = on_chan Channels.disable_all (record c { state = disconnected }) in
        let off : OwnConn k c c' =
          (Channels.disable_all-Own k c.ch c.loop, λ h live. absurd (live refl)) in
        let own = OwnConn-trans k off (call-Own k cb.conn_callback c' tames) in
        simp on (gone (call cb.conn_callback c') c.ch.fd own.0.fd)
  ]

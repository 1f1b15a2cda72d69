-- ===== src/TcpConn/Phases.antt =====
-- The state of a connection and the index of its channel over `establish_conn`, `handle_close` and
-- `destroy_conn`: what the service of TcpServer/Service follows of a connection.
use caimr.Prelude.{◌≡◌, refl, ap, ◌∙◌, inl, inr, Bool-cases, Option, none, some, if◌then◌else◌}
use caimr.Chan
use caimr.Chan.{added, deleted}
use caimr.Eloop.Channels
use caimr.TcpConn.{
  TcpConn, Callbacks, connected, disconnected, is_state, call, establish_conn, destroy_conn,
  handle_close,
}

-- A user callback that leaves the state of the connection and the index of its channel alone.
abbrev pub LeavesAlone : Option (TcpConn → TcpConn) → Type 0
LeavesAlone none = Unit {0}
LeavesAlone (some f) = (c : TcpConn) → ((f c).state ≡ c.state) × ((f c).ch.index ≡ c.ch.index)

call-LeavesAlone :
    (f : Option (TcpConn → TcpConn)) (c : TcpConn)
    → LeavesAlone f
    → ((call f c).state ≡ c.state) × ((call f c).ch.index ≡ c.ch.index)
call-LeavesAlone none c h = (refl, refl)
call-LeavesAlone (some f) c h = h c

module _ (cb : Callbacks) (conn : LeavesAlone cb.conn_callback) where
  pub establish_conn-phase :
      (c : TcpConn)
      → ((establish_conn cb c).state ≡ connected) × ((establish_conn cb c).ch.index ≡ added)
  unfolding establish_conn
  establish_conn-phase c =
      let (s, i) = call-LeavesAlone cb.conn_callback _ conn in
      (
        s,
        i
            ∙ ap (λ (ch : Chan.Chan). ch.index)
                (Channels.enable_reading-events (Chan.tie c.ch) c.loop),
      )

  pub handle_close-phase :
      (c : TcpConn)
      → LeavesAlone cb.close_callback
      → ((handle_close cb c).state ≡ disconnected) × ((handle_close cb c).ch.index ≡ added)
  unfolding handle_close
  handle_close-phase c close =
      let (s, i) = call-LeavesAlone cb.conn_callback _ conn in
      let (s', i') = call-LeavesAlone cb.close_callback _ close in
      (s' ∙ s, i' ∙ i ∙ ap (λ (ch : Chan.Chan). ch.index) (Channels.disable_all-events c.ch c.loop))

  pub destroy_conn-phase :
      (c : TcpConn)
      → ((destroy_conn cb c).state ≡ (if is_state c.state connected then disconnected else c.state))
        × ((destroy_conn cb c).ch.index ≡ deleted)
  unfolding destroy_conn
  destroy_conn-phase c = elim (Bool-cases (is_state c.state connected)) [
    | inl on ↦
        let (s, i) = call-LeavesAlone cb.conn_callback _ conn in
        simp on (s, ap (λ (ch : Chan.Chan). ch.index) (Channels.remove_lem _ _).0)
    | inr off ↦
        simp off (refl, ap (λ (ch : Chan.Chan). ch.index) (Channels.remove_lem c.ch c.loop).0)
  ]

-- ===== src/TcpConn/TameHandlers.antt =====
-- The handlers of a connection, src/net/tcp_conn.cpp, touch the poller at its own descriptor only
-- (TcpConn/Tame).
use caimr.Prelude.{◌∙◌, refl, inl, inr, Bytes, ◌++◌, take, ltb, ◌==◌, Bool-cases}
use caimr.Buffer
use caimr.Buffer.{IoResult, failed, moved, Readv}
use caimr.Chan.{is_writing}
use caimr.Eloop.Channels
use caimr.Functor.{Functor}
use caimr.Poller.Interest.{Epoll}
use caimr.TcpConn.{
  TcpConn, Callbacks, disconnenting, disconnected, is_state, is_set, on_chan, queue_here,
  handle_close, handle_error, after_read, handle_read, drained, after_write, handle_write,
}
use caimr.TcpConn.Tame.{
  OwnConn, OwnConn-trans, Tame, unmoved, queued, call-Own, shutdown_in_loop-Own,
}

module _ (k : Epoll) (cb : Callbacks) where
  drained-Own : (c : TcpConn) → OwnConn k c (drained cb c)
  unfolding drained
  drained-Own c =
      let c₁ = on_chan Channels.disable_writing c in
      let c₂ = queue_here (Functor.write_complete c.id) c₁ in
      let off : OwnConn k c c₁ = (
        Channels.disable_writing-Own k c.ch c.loop,
        λ h live. (Channels.is_reading-writing c.ch c.loop).1 ∙ h live,
      ) in
      let told : OwnConn k c c₂ =
        OwnConn-trans k off (queued k c₁.loop.thread_id (Functor.write_complete c.id) c₁) in
      elim (Bool-cases (is_set cb.write_complete_callback)) [
        | inl on ↦ elim (Bool-cases (is_state c.state disconnenting)) [
          | inl ends ↦ simp (on, ends) (OwnConn-trans k told (shutdown_in_loop-Own k c₂))
          | inr goes_on ↦ simp (on, goes_on) told
        ]
        | inr unset ↦ elim (Bool-cases (is_state c.state disconnenting)) [
          | inl ends ↦ simp (unset, ends) (OwnConn-trans k off (shutdown_in_loop-Own k c₁))
          | inr goes_on ↦ simp (unset, goes_on) off
        ]
      ]

  after_write-Own :
      (offered : Bytes) (answer : IoResult) (c : TcpConn)
      → OwnConn k c (after_write cb offered answer c)
  unfolding after_write
  after_write-Own offered (failed errno) c = unmoved k c
  after_write-Own offered (moved n) c =
      let c' = record c {
        output_buf = Buffer.retrieve c.output_buf n;
        socket = record (c.socket) { sent = c.socket.sent ++ take n offered };
      } in
      elim (Bool-cases (ltb 0 n)) [
        | inr none_taken ↦ simp none_taken (unmoved k c)
        | inl taken ↦ elim (Bool-cases (Buffer.readable_bytes c'.output_buf == 0)) [
          | inl none_left ↦ simp (taken, none_left) (drained-Own c')
          | inr some_left ↦ simp (taken, some_left) (unmoved k c')
        ]
      ]

  pub handle_write-Own : (answer : IoResult) (c : TcpConn) → OwnConn k c (handle_write cb answer c)
  unfolding handle_write
  handle_write-Own answer c = elim (Bool-cases (is_writing c.ch)) [
    | inr off ↦ simp off (unmoved k c)
    | inl on ↦ simp on (
        after_write-Own (Buffer.write_fd c.output_buf answer).0
          (Buffer.write_fd c.output_buf answer).1 c)
  ]

  module _ (t : Tame k cb) where
    pub handle_close-Own : (c : TcpConn) → OwnConn k c (handle_close cb c)
    unfolding handle_close
    handle_close-Own c =
        let off : OwnConn k c (on_chan Channels.disable_all (record c { state = disconnected })) =
          (Channels.disable_all-Own k c.ch c.loop, λ h live. absurd (live refl)) in
        OwnConn-trans k off (
          OwnConn-trans k (call-Own k cb.conn_callback _ t.conn)
            (call-Own k cb.close_callback _ t.close))

    after_read-Own : (n : IoResult) (c : TcpConn) → OwnConn k c (after_read cb n c)
    unfolding after_read handle_error
    after_read-Own (failed errno) c = unmoved k c
    after_read-Own (moved n) c = elim (Bool-cases (ltb 0 n)) [
      | inl some_bytes ↦ simp some_bytes (call-Own k cb.msg_callback c t.msg)
      | inr end ↦ simp end (handle_close-Own c)
    ]

    pub handle_read-Own : (answer : Readv) (c : TcpConn) → OwnConn k c (handle_read cb answer c)
    unfolding handle_read
    handle_read-Own answer c =
        after_read-Own (Buffer.read_fd c.input_buf answer).1
          (record c { input_buf = (Buffer.read_fd c.input_buf answer).0 })

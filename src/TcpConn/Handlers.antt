-- ===== src/TcpConn/Handlers.antt =====
-- What each operation of src/net/tcp_conn.cpp does to a valid connection and its state.
use caimr.Prelude.{
  ℕ, ◌≤◌, ◌≡◌, ◌≢◌, inl, inr, refl, sym, ap, subst, ◌∙◌, Bytes, length, arith, ltb, Bool-cases,
}
use caimr.Buffer.{IoResult, failed, moved, Readv, read_failed, received, read_fd}
use caimr.Buffer.Content
use caimr.Buffer.Content.{content, Fits}
use caimr.Buffer.Io
use caimr.Chan.{is_writing}
use caimr.Eloop
use caimr.Eloop.{Eloop}
use caimr.Eloop.Channels
use caimr.Functor.{Functor}
use caimr.TcpConn.{
  TcpConn, Callbacks, State, connected, disconnenting, disconnected, is_state, shutdown_in_loop,
  shutdown, send_in_loop, send, destroy_conn, handle_close, handle_error, after_read, handle_read,
}
use caimr.TcpConn.Stream.{IsValid}
use caimr.TcpConn.Failing.{send_in_loop-Handed}
use caimr.TcpConn.Inputs.{
  rank, Bounded, Room, Polite, rank-disconnected, rank-le, is_connected-eq, call-Keeps, reads,
  Allowed,
}

module _ (cb : Callbacks) where
  abbrev pub Kept : TcpConn → TcpConn → Type 0
  Kept c c' = IsValid c' × (rank c.state ≤ rank c'.state)

  send_in_loop-disconnected :
      (answer : IoResult) (bytes : Bytes) (c : TcpConn)
      → c.state ≡ disconnected
      → send_in_loop cb answer bytes c ≡ c
  unfolding send_in_loop
  send_in_loop-disconnected answer bytes c e = simp e

  pub send_in_loop-Kept :
      (answer : IoResult) (bytes : Bytes) (c : TcpConn) (s : State)
      → c.state ≡ s
      → IsValid c
      → Fits c.output_buf (length bytes)
      → Bounded answer bytes
      → Kept c (send_in_loop cb answer bytes c)
  send_in_loop-Kept answer bytes c disconnected e v f a =
      rw (send_in_loop-disconnected answer bytes c e) (v, omega arith)
  send_in_loop-Kept answer bytes c _ e v f a =
      let s = send_in_loop-Handed cb answer bytes c v (λ h. cc (e, h)) f a in
      (s.valid, omega (arith, ap rank s.state))

  -- A change of the loop alone.
  requeued : (c : TcpConn) (l : Eloop Functor) → IsValid c → Kept c (record c { loop = l })
  requeued c l v = (record { input = v.input; output = v.output; writing = v.writing }, omega arith)

  pub send-Kept :
      (tid ptr : ℕ) (answer : IoResult) (bytes : Bytes) (c : TcpConn)
      → IsValid c
      → Fits c.output_buf (length bytes)
      → Bounded answer bytes
      → Kept c (send cb tid ptr answer bytes c)
  unfolding send
  send-Kept tid ptr answer bytes c v f a = elim (Bool-cases (is_state c.state connected)) [
    | inr off ↦ simp off (v, omega arith)
    | inl on ↦ elim (Bool-cases (Eloop.is_in_loop_thread tid c.loop)) [
      | inl own ↦ simp (on, own) (send_in_loop-Kept answer bytes c c.state refl v f a)
      | inr other ↦ simp (on, other) (requeued c _ v)
    ]
  ]

  pub shutdown_in_loop-Kept : (c : TcpConn) → IsValid c → Kept c (shutdown_in_loop c)
  unfolding shutdown_in_loop
  shutdown_in_loop-Kept c v = elim (Bool-cases (is_writing c.ch)) [
    | inl on ↦ simp on (v, omega arith)
    | inr off ↦
        simp off (record { input = v.input; output = v.output; writing = v.writing }, omega arith)
  ]

  pub shutdown-Kept : (tid : ℕ) (c : TcpConn) → IsValid c → Kept c (shutdown tid c)
  unfolding shutdown
  shutdown-Kept tid c v = elim (Bool-cases (is_state c.state connected)) [
    | inr off ↦ simp off (v, omega arith)
    | inl on ↦
        let e = is_connected-eq c.state on in
        let c' = record c { state = disconnenting } in
        let live : c.state ≢ disconnected = λ h. cc (e, h) in
        let v' : IsValid c' = record {
          input = v.input;
          output = v.output;
          writing = λ _. v.writing live;
        } in
        elim (Bool-cases (Eloop.is_in_loop_thread tid c'.loop)) [
          | inl own ↦
              let (v₁, r₁) = shutdown_in_loop-Kept c' v' in
              simp (on, own) (v₁, omega (arith, r₁, ap rank e))
          | inr other ↦
              let (v₁, r₁) =
                requeued c' (Eloop.queue_in_loop tid (Functor.shutdown_in_loop c.id) c.loop) v' in
              simp (on, other) (v₁, omega (arith, r₁, ap rank e))
        ]
  ]

  disconnect-Kept :
      (c : TcpConn)
      → IsValid c
      → Kept c (record c {
        state = disconnected;
        loop = (Channels.disable_all c.ch c.loop).0;
        ch = (Channels.disable_all c.ch c.loop).1;
      })
  disconnect-Kept c v = (
    record { input = v.input; output = v.output; writing = λ live. absurd (live refl) },
    rank-le c.state,
  )

  pub handle_close-Kept :
      (room : Room) → Polite cb room → (c : TcpConn) → IsValid c → Kept c (handle_close cb c)
  unfolding handle_close
  handle_close-Kept room p c v =
      let (v₁, r₁) = disconnect-Kept c v in
      let (v₂, r₂) = call-Keeps room cb.conn_callback _ p.conn v₁ (room.closed _ refl) in
      let gone = room.closed _ (rank-disconnected _ r₂) in
      let (v₃, r₃) = call-Keeps room cb.close_callback _ p.close v₂ gone in
      (v₃, omega (arith, r₁, r₂, r₃))

  remove-Kept :
      (c : TcpConn)
      → IsValid c
      → Kept c (record c {
        loop = (Channels.remove c.ch c.loop).0;
        ch = (Channels.remove c.ch c.loop).1;
      })
  remove-Kept c v = (
    record {
      input = v.input;
      output = v.output;
      writing = λ live. ap is_writing (Channels.remove_lem c.ch c.loop).0 ∙ v.writing live;
    },
    omega arith,
  )

  pub destroy_conn-Kept :
      (room : Room) → Polite cb room → (c : TcpConn) → IsValid c → Kept c (destroy_conn cb c)
  unfolding destroy_conn
  destroy_conn-Kept room p c v = elim (Bool-cases (is_state c.state connected)) [
    | inr off ↦ simp off (remove-Kept c v)
    | inl on ↦
        let (v₁, r₁) = disconnect-Kept c v in
        let (v₂, r₂) = call-Keeps room cb.conn_callback _ p.conn v₁ (room.closed _ refl) in
        let (v₃, r₃) = remove-Kept _ v₂ in simp on (v₃, omega (arith, r₁, r₂, r₃))
  ]

  after_read-Kept :
      (room : Room)
      → Polite cb room
      → (n : IoResult) (c : TcpConn) → IsValid c
      → room.ok c
      → Kept c (after_read cb n c)
  unfolding after_read handle_error
  after_read-Kept room p (failed errno) c v o = (v, omega arith)
  after_read-Kept room p (moved n) c v o = elim (Bool-cases (ltb 0 n)) [
    | inl some_bytes ↦ simp some_bytes (call-Keeps room cb.msg_callback c p.msg v o)
    | inr end ↦ simp end (handle_close-Kept room p c v)
  ]

  pub handle_read-Kept :
      (room : Room)
      → Polite cb room
      → (answer : Readv) (c : TcpConn) → IsValid c
      → Allowed room (reads answer) c
      → Kept c (handle_read cb answer c)
  unfolding handle_read
  handle_read-Kept room p answer c v a =
      let c' = record c { input_buf = (read_fd c.input_buf answer).0 } in
      let v' : IsValid c' = record {
        input = still answer a;
        output = v.output;
        writing = v.writing;
      } in
      after_read-Kept room p (read_fd c.input_buf answer).1 c' v' (roomy answer a)
    where
      still :
          (answer : Readv)
          → Allowed room (reads answer) c
          → Content.IsValid (read_fd c.input_buf answer).0
      still (read_failed errno) a =
          subst Content.IsValid (sym (ap (λ r. r.0) (Io.read_fd-failed c.input_buf errno))) v.input
      still (received bytes) (f, cap, _) = (Io.read_fd_lem c.input_buf bytes v.input f cap).0

      roomy :
          (answer : Readv)
          → Allowed room (reads answer) c
          → room.ok (record c { input_buf = (read_fd c.input_buf answer).0 })
      roomy (read_failed errno) o = o
      roomy (received bytes) (_, _, o) = o

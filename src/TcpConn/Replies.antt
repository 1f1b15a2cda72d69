-- ===== src/TcpConn/Replies.antt =====
-- The message callback of the echo server (TcpConn/Echo) is one that a connection can bear: it keeps
-- the connection valid as long as the output buffer has room for what has come in.
use caimr.Prelude.{ℕ, ◌≤◌, ◌≡◌, ◌≢◌, sym, subst, inl, inr, Bool-cases, Bytes, length, arith}
use caimr.Buffer.{IoResult, retrieve_all_as_string}
use caimr.Buffer.Content.{content, Fits}
use caimr.Buffer.Strings.{retrieve_all_as_string_lem}
use caimr.Poller.Interest.{Epoll}
use caimr.TcpConn.{TcpConn, Callbacks, connected, disconnected, is_state, send}
use caimr.TcpConn.Stream.{IsValid}
use caimr.TcpConn.Inputs.{Room, Bounded, KeepsConn, rank, is_connected-eq}
use caimr.TcpConn.Handlers.{send-Kept}
use caimr.TcpConn.Closing.{send-refused}
use caimr.TcpConn.Tame.{OwnConn, send-Own}
use caimr.TcpConn.Echo.{on_message}

pub closed_not_up : (c : TcpConn) → c.state ≡ disconnected → c.state ≢ connected
closed_not_up c gone = λ up. cc (gone, up)

-- What has come in fits into the output buffer, and the kernel takes no more of it than there is.
abbrev pub reply_room : (answer : IoResult) → Room
reply_room answer = record {
  ok = λ c.
      c.state ≡ connected
      → Fits c.output_buf (length (content c.input_buf)) × Bounded answer (content c.input_buf);
  closed = λ c gone up. absurd (closed_not_up c gone up);
}

module _ (cb : Callbacks) (ptr : ℕ) (answer : IoResult) where
  reply-Kept :
      (msg : Bytes) (c : TcpConn)
      → IsValid c
      → (c.state ≡ connected → Fits c.output_buf (length msg) × Bounded answer msg)
      → IsValid (send cb c.loop.thread_id ptr answer msg c)
        × (rank c.state ≤ rank (send cb c.loop.thread_id ptr answer msg c).state)
  reply-Kept msg c v ok = elim (Bool-cases (is_state c.state connected)) [
    | inl on ↦
        let (f, b) = ok (is_connected-eq c.state on) in
        send-Kept cb c.loop.thread_id ptr answer msg c v f b
    | inr off ↦ rw (send-refused cb c.loop.thread_id ptr answer msg c off) (v, omega arith)
  ]

  pub on_message-Keeps : KeepsConn (reply_room answer) (on_message cb ptr answer)
  unfolding on_message
  on_message-Keeps c v ok =
      let (msg, input) = retrieve_all_as_string c.input_buf in
      let (m, _, vi, _) = retrieve_all_as_string_lem c.input_buf v.input in
      reply-Kept msg (record c { input_buf = input })
        (record { input = vi; output = v.output; writing = v.writing })
        (subst
          (λ (q : Bytes). c.state ≡ connected → Fits c.output_buf (length q) × Bounded answer q)
          (sym m) ok)

  pub on_message-Own : (k : Epoll) (c : TcpConn) → OwnConn k c (on_message cb ptr answer c)
  unfolding on_message
  on_message-Own k c =
      let (msg, input) = retrieve_all_as_string c.input_buf in
      send-Own k cb c.loop.thread_id ptr answer msg (record c { input_buf = input })

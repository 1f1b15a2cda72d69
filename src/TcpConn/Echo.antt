-- ===== src/TcpConn/Echo.antt =====
-- An echo server, as in test/tcp_server_test.cpp: the message callback sends back what has come in.
-- It puts the reading handler, both buffers, `send` and the writing handler together.
use caimr.Prelude.{
  ℕ, ◌≤◌, ◌<◌, ◌≡◌, ◌≢◌, refl, sym, ap, subst, ◌∙◌, true, List, [], ◌∷◌, ◌++◌, append_assoc,
  append-nil, Bytes, length, lt→ltb, ==_iff,
}
use caimr.Buffer.{IoResult, received, read_fd, read_capacity, retrieve_all_as_string}
use caimr.Buffer.Content.{content, Fits}
use caimr.Buffer.Io.{read_fd_lem}
use caimr.Buffer.Strings.{retrieve_all_as_string_lem}
use caimr.Eloop
use caimr.TcpConn.{
  TcpConn, Callbacks, set_msg_callback, connected, disconnected, is_state, send, after_read,
  handle_read, handle_write,
}
use caimr.TcpConn.Stream.{IsValid, Answered, stream}
use caimr.TcpConn.Sending.{send_in_loop_lem}
use caimr.TcpConn.Writable.{handle_write_lem}

-- `on_message`, in the thread of the loop. `ptr` and `answer` are where the message lies and what
-- write(2) answers if it is asked to take it.
unfoldable pub on_message : Callbacks → (ptr : ℕ) → IoResult → TcpConn → TcpConn
on_message cb ptr answer c =
    let (msg, input) = retrieve_all_as_string c.input_buf in
    send cb c.loop.thread_id ptr answer msg (record c { input_buf = input })

-- The callbacks of an echo server.
abbrev pub echo : Callbacks → (ptr : ℕ) → IoResult → Callbacks
echo cb ptr answer = set_msg_callback (on_message cb ptr answer) cb

-- Data arrives, with the answer of write(2) for the echo, or the socket can be written to.
pub data Event : Type 0 where
  arrives : (bytes : Bytes) → (ptr : ℕ) → (answer : IoResult) → Event
  writable : (answer : IoResult) → Event

pub handle : Callbacks → Event → TcpConn → TcpConn
handle cb (arrives bytes ptr answer) c = handle_read (echo cb ptr answer) (received bytes) c
handle cb (writable answer) c = handle_write cb answer c

abbrev pub run : Callbacks → List Event → TcpConn → TcpConn
run cb [] c = c
run cb (e ∷ es) c = run cb es (handle cb e c)

-- What has come in.
abbrev pub arrived : Event → Bytes
arrived (arrives bytes ptr answer) = bytes
arrived (writable answer) = []

abbrev pub incoming : List Event → Bytes
incoming [] = []
incoming (e ∷ es) = arrived e ++ incoming es

-- The bytes are some, readv was offered room for them, both buffers can hold them, and the kernel
-- takes no more of the echo than there is and does not report a broken connection.
abbrev pub Allowed : Event → TcpConn → Type 0
Allowed (arrives bytes ptr answer) c =
    (0 < length bytes)
    × Fits c.input_buf (length bytes)
    × (length bytes ≤ read_capacity c.input_buf)
    × Fits c.output_buf (length bytes)
    × Answered answer bytes
Allowed (writable answer) c = Unit {0}

abbrev pub AllAllowed : Callbacks → List Event → TcpConn → Type 0
AllAllowed cb [] c = Unit {0}
AllAllowed cb (e ∷ es) c = Allowed e c × AllAllowed cb es (handle cb e c)

-- A connection whose input has all been taken.
pub record Ready (c : TcpConn) : Type 0 where
  pub valid : IsValid c
  pub up : c.state ≡ connected
  pub taken : content c.input_buf ≡ []

-- `bytes` have gone to the end of the stream.
record Echoed (c : TcpConn) (bytes : Bytes) (c' : TcpConn) : Type 0 where
  ready : Ready c'
  stream : stream c' ≡ stream c ++ bytes

own_thread : (c : TcpConn) → Eloop.is_in_loop_thread c.loop.thread_id c.loop ≡ true
unfolding Eloop.is_in_loop_thread
own_thread c = (==_iff c.loop.thread_id c.loop.thread_id).1 refl

module _ (cb : Callbacks) where
  send-Echoed :
      (c : TcpConn) (ptr : ℕ) (answer : IoResult) (bytes : Bytes)
      → Ready c
      → Fits c.output_buf (length bytes)
      → Answered answer bytes
      → Echoed c bytes (send cb c.loop.thread_id ptr answer bytes c)
  unfolding send
  send-Echoed c ptr answer bytes r f a =
      let live : c.state ≢ disconnected = λ h. cc (r.up, h) in
      let on : is_state c.state connected ≡ true = ap (λ s. is_state s connected) r.up in
      let s = send_in_loop_lem cb answer bytes c r.valid live f a in
      simp (on, own_thread c)
        (record {
          ready = record {
            valid = s.valid;
            up = s.state ∙ r.up;
            taken = ap content s.input ∙ r.taken;
          };
          stream = s.stream;
        })

  on_message-Echoed :
      (c : TcpConn) (ptr : ℕ) (answer : IoResult) (bytes : Bytes)
      → IsValid c
      → c.state ≡ connected
      → content c.input_buf ≡ bytes
      → Fits c.output_buf (length bytes)
      → Answered answer bytes
      → Echoed c bytes (on_message cb ptr answer c)
  unfolding on_message
  on_message-Echoed c ptr answer bytes v up holds f a =
      let (s, empty, v', _) = retrieve_all_as_string_lem c.input_buf v.input in
      let c' = record c { input_buf = (retrieve_all_as_string c.input_buf).1 } in
      let ready : Ready c' = record {
        valid = record { input = v'; output = v.output; writing = v.writing };
        up = up;
        taken = empty;
      } in
      let r = send-Echoed c' ptr answer bytes ready f a in
      subst (λ msg. Echoed c bytes (send cb c.loop.thread_id ptr answer msg c')) (sym (s ∙ holds))
        (record { ready = r.ready; stream = r.stream })

  arrives-Echoed :
      (c : TcpConn) (ptr : ℕ) (answer : IoResult) (bytes : Bytes)
      → Ready c
      → Allowed (arrives bytes ptr answer) c
      → Echoed c bytes (handle_read (echo cb ptr answer) (received bytes) c)
  unfolding handle_read after_read
  arrives-Echoed c ptr answer bytes r (some_bytes, fits, offered, room, a) =
      let (rv, rc, rn, _) = read_fd_lem c.input_buf bytes r.valid.input fits offered in
      let c' = record c { input_buf = (read_fd c.input_buf (received bytes)).0 } in
      let v' : IsValid c' = record {
        input = rv;
        output = r.valid.output;
        writing = r.valid.writing;
      } in
      let m =
        on_message-Echoed c' ptr answer bytes v' r.up (rc ∙ ap (λ q. q ++ bytes) r.taken) room a in
      subst (λ n. Echoed c bytes (after_read (echo cb ptr answer) n c')) (sym rn)
        (simp (lt→ltb 0 (length bytes) some_bytes) (record { ready = m.ready; stream = m.stream }))

  handle-Echoed :
      (e : Event) (c : TcpConn) → Ready c → Allowed e c → Echoed c (arrived e) (handle cb e c)
  unfolding handle
  handle-Echoed (arrives bytes ptr answer) c r a = arrives-Echoed c ptr answer bytes r a
  handle-Echoed (writable answer) c r a =
      let w = handle_write_lem cb answer c r.valid in
      record {
        ready = record {
          valid = w.valid;
          up = w.state ∙ r.up;
          taken = ap content w.input ∙ r.taken;
        };
        stream = w.stream ∙ sym (append-nil (stream c));
      }

  -- An echo server echoes. However the data arrives in pieces, and however much the kernel takes of
  -- each answer and whenever it can be written to: what the kernel has taken from the connection and
  -- what still waits in its output buffer are, in this order, what had been sent before and all that
  -- has come in, each byte once; nothing is left in the input buffer, and the connection is valid and
  -- up. The buffers must have room for each piece, and the kernel report no broken connection.
  pub echo_lem :
      (es : List Event) (c : TcpConn)
      → Ready c
      → AllAllowed cb es c
      → (stream (run cb es c) ≡ stream c ++ incoming es) × Ready (run cb es c)
  echo_lem [] c r a = (sym (append-nil (stream c)), r)
  echo_lem (e ∷ es) c r (a, as_) =
      let h = handle-Echoed e c r a in
      let (s, ready) = echo_lem es (handle cb e c) h.ready as_ in
      (
        s ∙ ap (λ t. t ++ incoming es) h.stream ∙ append_assoc (stream c) (arrived e) (incoming es),
        ready,
      )

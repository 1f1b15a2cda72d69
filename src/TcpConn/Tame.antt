-- ===== src/TcpConn/Tame.antt =====
-- Every operation of a connection touches the poller at its own descriptor only, and leaves map, kernel
-- and channel telling the same there (Eloop/Ownership); and the channel goes on asking for what comes
-- in.
use caimr.Prelude.{
  true, ◌≡◌, ◌≢◌, ◌∙◌, ℕ, inl, inr, not, ◌&&◌, Option, none, some, Bytes, length, ltb, leb, ◌==◌,
  add_size, sub_size, Bool-cases,
}
use caimr.Buffer
use caimr.Buffer.{IoResult, failed, moved, Readv}
use caimr.Chan.{Chan, is_reading, is_writing}
use caimr.Eloop
use caimr.Eloop.Channels
use caimr.Eloop.Ownership.{Own, Own-refl, Own-trans, Own-same}
use caimr.Eloop.Pending.{poller-queue_in_loop}
use caimr.Functor.{Functor}
use caimr.Poller.{Poller}
use caimr.Poller.Interest.{Epoll}
use caimr.TcpConn.Inputs.{is_connected-eq}
use caimr.TcpConn.{
  TcpConn, Callbacks, State, connected, disconnenting, disconnected, is_state, is_set, call,
  Attempt, shutdown_in_loop, shutdown, store_rest, write_directly, attempt, note_high_water,
  keep_rest, send_in_loop, send,
}

-- The channel asks for what comes in, as long as the connection is not closed.
abbrev pub Hears : State → Chan → Type 0
Hears s ch = s ≢ disconnected → is_reading ch ≡ true

module _ (k : Epoll) where
  abbrev pub OwnConn : TcpConn → TcpConn → Type 0
  OwnConn c c' =
      Own k c.loop.poller c.ch c'.loop.poller c'.ch × (Hears c.state c.ch → Hears c'.state c'.ch)

  pub OwnConn-trans :
      {p q r : Poller} {a b c : Chan} {s t u : State}
      → Own k p a q b × (Hears s a → Hears t b)
      → Own k q b r c × (Hears t b → Hears u c)
      → Own k p a r c × (Hears s a → Hears u c)
  OwnConn-trans (u, g) (w, h) = (Own-trans k u w, λ x. h (g x))

  -- A user callback that does the same, as one does that sends or calls `shutdown`.
  abbrev pub Tames : Option (TcpConn → TcpConn) → Type 0
  Tames none = Unit {0}
  Tames (some f) = (c : TcpConn) → OwnConn c (f c)

  pub record Tame (cb : Callbacks) : Type 0 where
    pub conn : Tames cb.conn_callback
    pub msg : Tames cb.msg_callback
    pub close : Tames cb.close_callback

  pub unmoved : (c : TcpConn) → OwnConn c c
  unmoved c = (Own-refl k c.loop.poller c.ch, λ h. h)

  pub queued :
      (tid : ℕ) (f : Functor) (c : TcpConn)
      → OwnConn c (record c { loop = Eloop.queue_in_loop tid f c.loop })
  queued tid f c = (Own-same k c.loop.poller _ c.ch (poller-queue_in_loop tid f c.loop), λ h. h)

  pub call-Own : (f : Option (TcpConn → TcpConn)) (c : TcpConn) → Tames f → OwnConn c (call f c)
  call-Own none c t = unmoved c
  call-Own (some f) c t = t c

  store_rest-Own : (rest : Bytes) (c : TcpConn) → OwnConn c (store_rest rest c)
  unfolding store_rest
  store_rest-Own rest c = elim (Bool-cases (is_writing c.ch)) [
    | inl on ↦ simp on (unmoved c)
    | inr off ↦ simp off (
      Channels.enable_writing-Own k c.ch c.loop,
      λ h live. (Channels.is_reading-writing c.ch c.loop).0 ∙ h live,
    )
  ]

  pub shutdown_in_loop-Own : (c : TcpConn) → OwnConn c (shutdown_in_loop c)
  unfolding shutdown_in_loop
  shutdown_in_loop-Own c = elim (Bool-cases (is_writing c.ch)) [
    | inl on ↦ simp on (unmoved c)
    | inr off ↦ simp off (unmoved c)
  ]

  -- DISCONNENTING instead of CONNECTED.
  ends-Own :
      (c : TcpConn)
      → is_state c.state connected ≡ true
      → OwnConn c (record c { state = disconnenting })
  ends-Own c on =
      (Own-refl k c.loop.poller c.ch, λ h live. h (λ e. cc (is_connected-eq c.state on, e)))

  pub shutdown-Own : (tid : ℕ) (c : TcpConn) → OwnConn c (shutdown tid c)
  unfolding shutdown
  shutdown-Own tid c = elim (Bool-cases (is_state c.state connected)) [
    | inr off ↦ simp off (unmoved c)
    | inl on ↦
        let c' = record c { state = disconnenting } in
        elim (Bool-cases (Eloop.is_in_loop_thread tid c.loop)) [
          | inl own ↦ simp (on, own) (OwnConn-trans (ends-Own c on) (shutdown_in_loop-Own c'))
          | inr other ↦
              simp (on, other)
                (OwnConn-trans (ends-Own c on) (queued tid (Functor.shutdown_in_loop c.id) c'))
        ]
  ]

  module _ (cb : Callbacks) where
    write_directly-Own :
        (answer : IoResult) (bytes : Bytes) (c : TcpConn)
        → OwnConn c (write_directly cb answer bytes c).conn
    unfolding write_directly
    write_directly-Own (failed errno) bytes c = unmoved c
    write_directly-Own (moved n) bytes c =
        elim (Bool-cases (sub_size (length bytes) n == 0 && is_set cb.write_complete_callback)) [
          | inr off ↦ simp off (unmoved c)
          | inl on ↦ simp on (queued c.loop.thread_id (Functor.write_complete c.id) c)
        ]

    attempt-Own :
        (answer : IoResult) (bytes : Bytes) (c : TcpConn)
        → OwnConn c (attempt cb answer bytes c).conn
    unfolding attempt
    attempt-Own answer bytes c =
        elim (Bool-cases (not (is_writing c.ch) && Buffer.readable_bytes c.output_buf == 0)) [
          | inl idle ↦ simp idle (write_directly-Own answer bytes c)
          | inr busy ↦ simp busy (unmoved c)
        ]

    note_high_water-Own : (remaining : ℕ) (c : TcpConn) → OwnConn c (note_high_water cb remaining c)
    unfolding note_high_water
    note_high_water-Own remaining c =
        let total = add_size (Buffer.readable_bytes c.output_buf) remaining in
        elim (Bool-cases (
          leb c.high_water_mark total
          && ltb (Buffer.readable_bytes c.output_buf) c.high_water_mark
          && is_set cb.high_water_mark_callback)) [
            | inl on ↦ simp on (queued c.loop.thread_id (Functor.high_water_mark c.id total) c)
            | inr off ↦ simp off (unmoved c)
          ]

    keep_rest-Own : (bytes : Bytes) (a : Attempt) → OwnConn a.conn (keep_rest cb bytes a)
    unfolding keep_rest
    keep_rest-Own bytes a = elim (Bool-cases (not a.fault_occurred && ltb 0 a.remaining)) [
      | inr off ↦ simp off (unmoved a.conn)
      | inl on ↦ simp on (
          OwnConn-trans (note_high_water-Own a.remaining a.conn)
            (store_rest-Own _ (note_high_water cb a.remaining a.conn)))
    ]

    pub send_in_loop-Own :
        (answer : IoResult) (bytes : Bytes) (c : TcpConn)
        → OwnConn c (send_in_loop cb answer bytes c)
    unfolding send_in_loop
    send_in_loop-Own answer bytes c = elim (Bool-cases (is_state c.state disconnected)) [
      | inl gone ↦ simp gone (unmoved c)
      | inr live ↦ simp live (
          OwnConn-trans (attempt-Own answer bytes c)
            (keep_rest-Own bytes (attempt cb answer bytes c)))
    ]

    pub send-Own :
        (tid ptr : ℕ) (answer : IoResult) (bytes : Bytes) (c : TcpConn)
        → OwnConn c (send cb tid ptr answer bytes c)
    unfolding send
    send-Own tid ptr answer bytes c = elim (Bool-cases (is_state c.state connected)) [
      | inr off ↦ simp off (unmoved c)
      | inl on ↦ elim (Bool-cases (Eloop.is_in_loop_thread tid c.loop)) [
        | inl own ↦ simp (on, own) (send_in_loop-Own answer bytes c)
        | inr other ↦ simp (on, other) (queued tid (Functor.send_in_loop c.id ptr (length bytes)) c)
      ]
    ]

-- ===== src/TcpConn/Birth.antt =====
-- A new connection: the constructor, and then `establish_conn`.
use caimr.Prelude.{
  ℕ, ◌≡◌, refl, sym, ap, ◌∙◌, Bool, true, false, none, [], ◌++◌, Bytes, length, lookup, ◌==◌, not,
  arith,
}
use caimr.Events.{read_event}
use caimr.Buffer
use caimr.Buffer.Content
use caimr.Buffer.Content.{content}
use caimr.Chan
use caimr.Chan.{Chan, is_writing}
use caimr.Poller.Interest
use caimr.Poller.Interest.{Epoll}
use caimr.Poller.Registration.{IsRegistered}
use caimr.Eloop.{Eloop}
use caimr.Eloop.Channels
use caimr.Functor.{Functor}
use caimr.Socket
use caimr.Socket.{Socket}
use caimr.TcpConn.{TcpConn, Callbacks, connected, create, call, establish_conn}
use caimr.TcpConn.Stream.{IsValid, stream}

-- A connection that is up and has seen nothing yet.
pub record IsNew (k : Epoll) (sockfd address : ℕ) (keep_alive : Bool) (c : TcpConn) : Type 0 where
  pub valid : IsValid c
  pub up : c.state ≡ connected
  pub socket : c.socket ≡ record (Socket.create sockfd) { keep_alive = keep_alive }
  pub nothing_sent : stream c ≡ []
  pub nothing_read : content c.input_buf ≡ []
  pub tied : c.ch.tied ≡ true
  pub registered : IsRegistered k (c.loop.poller, c.ch) sockfd address read_event

keep_alive_lem :
    (sockfd : ℕ) (answer : Bool)
    → Socket.set_keep_alive answer true (Socket.create sockfd)
      ≡ record (Socket.create sockfd) { keep_alive = answer }
keep_alive_lem sockfd true = refl
keep_alive_lem sockfd false = refl

module _ (k : Epoll) (cb : Callbacks) where
  -- In a loop that does not know its descriptor, a new connection that is established hands itself to
  -- `conn_callback` once it is all that it should be: it is connected and valid, has sent and read
  -- nothing, keeps its peer alive if setsockopt has allowed it, its channel is tied to it, stands in
  -- the map of the poller, and is watched by the kernel for reading and for nothing else.
  pub establish_conn-create :
      (loop : Eloop Functor) (id sockfd address : ℕ) (answer : Bool)
      → lookup sockfd loop.poller.chs ≡ none
      → Interest.watches k loop.poller sockfd ≡ none
      → (c : TcpConn) × ((establish_conn cb (create loop id sockfd address answer)
            ≡ call cb.conn_callback c)
          × IsNew k sockfd address answer c)
  unfolding establish_conn create Chan.create
  establish_conn-create loop id sockfd address answer l w =
      let (bv, bc) = Content.create_lem Buffer.initial_size (omega arith) in
      let ch = Chan.tie (create loop id sockfd address answer).ch in
      let e = Channels.enable_reading-events ch loop in
      (
        _,
        (
          refl,
          record {
            valid = record {
              input = bv;
              output = bv;
              writing = λ h. ap is_writing e ∙ sym (ap (λ (q : Bytes). not (length q == 0)) bc);
            };
            up = refl;
            socket = keep_alive_lem sockfd answer;
            nothing_sent =
                ap (λ (t : Socket). t.sent ++ content (Buffer.create Buffer.initial_size))
                  (keep_alive_lem sockfd answer)
                ∙ bc;
            nothing_read = bc;
            tied = ap (λ (d : Chan). d.tied) e;
            registered = Channels.enable_reading-IsRegistered k ch loop (λ e. cc) (l, w);
          },
        ),
      )

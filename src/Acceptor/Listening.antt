-- ===== src/Acceptor/Listening.antt =====
-- When the kernel watches the listening socket, and what becomes of the accepted descriptors.
use caimr.Prelude.{
  ℕ, ◌≡◌, refl, subst, ap, ◌∙◌, Bool, true, false, inl, inr, Bool-cases, ◌&&◌, none, some, List, [],
  ◌∷◌, map, lookup, ◌>>=◌, if◌then◌else◌, arith,
}
use caimr.Events.{read_event}
use caimr.Chan
use caimr.Chan.{Chan, fresh, deleted}
use caimr.Poller.Interest
use caimr.Poller.Interest.{Epoll}
use caimr.Poller.Registration.{IsRegistered}
use caimr.Eloop.{Eloop}
use caimr.Eloop.Channels
use caimr.Functor.{Functor}
use caimr.Socket
use caimr.Socket.{Socket, Accept, refused, accepted}
use caimr.Acceptor.{
  Acceptor, Answers, create, set_new_conn_callback, listen, destroy, Outcome, hands_over, closes,
  logs, handle_read,
}

-- A new acceptor on the socket `s`.
abbrev pub acceptor_on : Eloop Functor → (address : ℕ) → Socket → Acceptor
acceptor_on loop address s = record {
  loop = loop;
  accept_socket = s;
  accept_ch = Chan.set_read_callback (Chan.create address s.sockfd);
  has_callback = false;
  listening = false;
}

-- The answers of system calls that give a socket on `sockfd`, bind it, and grant the two options
-- as said.
abbrev pub granting : (sockfd : ℕ) → (reuse_addr_answer reuse_port_answer : Bool) → Answers
granting sockfd reuse_addr_answer reuse_port_answer = record {
  socket_answer = some sockfd;
  reuse_addr_answer = reuse_addr_answer;
  reuse_port_answer = reuse_port_answer;
  bind_answer = true;
}

-- The socket of an acceptor that listens, with the options that were asked for and granted.
abbrev pub listening_socket : (sockfd : ℕ) → (reuse_addr reuse_port : Bool) → Socket
listening_socket sockfd reuse_addr reuse_port = record (Socket.create sockfd) {
  reuse_addr = reuse_addr;
  reuse_port = reuse_port;
  bound = true;
  accepting = true;
}

abbrev pub bound_socket : (sockfd : ℕ) → (reuse_addr reuse_port : Bool) → Socket
bound_socket sockfd reuse_addr reuse_port = record (Socket.create sockfd) {
  reuse_addr = reuse_addr;
  reuse_port = reuse_port;
  bound = true;
}

create_lem :
    (loop : Eloop Functor) (address sockfd : ℕ) (reuse_port ra rp : Bool)
    → create loop address reuse_port (granting sockfd ra rp)
      ≡ some (acceptor_on loop address (bound_socket sockfd ra (rp && reuse_port)))
unfolding create
create_lem loop address sockfd reuse_port true true = refl
create_lem loop address sockfd reuse_port true false = refl
create_lem loop address sockfd reuse_port false true = refl
create_lem loop address sockfd reuse_port false false = refl

module _ (k : Epoll) where
  pub record IsListening (a : Acceptor) (address : ℕ) (s : Socket) : Type 0 where
    pub listening : a.listening ≡ true
    pub socket : a.accept_socket ≡ s
    pub registered : IsRegistered k (a.loop.poller, a.accept_ch) s.sockfd address read_event

  -- Neither the map of the poller nor the kernel's set knows the descriptor, which is closed.
  pub record IsGone (a : Acceptor) (sockfd : ℕ) : Type 0 where
    pub unknown : lookup sockfd a.loop.poller.chs ≡ none
    pub unwatched : Interest.watches k a.loop.poller sockfd ≡ none
    pub closed : (a.accept_socket.sockfd ≡ sockfd) × (a.accept_socket.closed ≡ true)

  pub listen-IsListening :
      (loop : Eloop Functor) (address : ℕ) (s : Socket)
      → lookup s.sockfd loop.poller.chs ≡ none
      → Interest.watches k loop.poller s.sockfd ≡ none
      → (a : Acceptor) × ((listen true (set_new_conn_callback (acceptor_on loop address s))
            ≡ some a)
          × IsListening a address (record s { accepting = true }))
  unfolding listen set_new_conn_callback Chan.create
  listen-IsListening loop address s l w = (
    _,
    (
      refl,
      record {
        listening = refl;
        socket = refl;
        registered =
            Channels.enable_reading-IsRegistered k
              (Chan.set_read_callback (Chan.create address s.sockfd)) loop (λ e. cc) (l, w);
      },
    ),
  )

  destroy-IsGone :
      (a : Acceptor) (address : ℕ) (s : Socket)
      → IsListening a address s
      → IsGone (destroy a) s.sockfd
  unfolding destroy
  destroy-IsGone a address s v =
      let (loop, ch) = Channels.disable_all a.accept_ch a.loop in
      let (l, w) = Channels.remove-unknown k ch loop in
      let same : ch.fd ≡ s.sockfd =
        ap (λ (c : Chan). c.fd) (Channels.disable_all-events a.accept_ch a.loop) ∙ v.registered.1 in
      record {
        unknown = subst (λ d. lookup d (Channels.remove ch loop).0.poller.chs ≡ none) same l;
        unwatched =
            subst (λ d. Interest.watches k (Channels.remove ch loop).0.poller d ≡ none) same w;
        closed = (ap (λ (t : Socket). t.sockfd) v.socket, refl);
      }

  -- The life of an acceptor, in a loop that does not know its descriptor, when no system call fails but
  -- perhaps setsockopt. Told to listen, it listens: the poller's map has its channel, the kernel
  -- watches for incoming connections and for nothing else, and the socket is bound, accepts, and has
  -- of the two options those that were asked for and granted. When it is destroyed, neither the map
  -- nor the kernel's set knows the descriptor, which is closed.
  pub destroy-listen :
      (loop : Eloop Functor) (address sockfd : ℕ) (reuse_port ra rp : Bool)
      → lookup sockfd loop.poller.chs ≡ none
      → Interest.watches k loop.poller sockfd ≡ none
      → (a : Acceptor) × (((create loop address reuse_port (granting sockfd ra rp) >>= λ new.
              listen true (set_new_conn_callback new))
            ≡ some a)
          × (IsListening a address (listening_socket sockfd ra (rp && reuse_port))
              × IsGone (destroy a) sockfd))
  destroy-listen loop address sockfd reuse_port ra rp l w =
      let s = bound_socket sockfd ra (rp && reuse_port) in
      let (a, (e, v)) = listen-IsListening loop address s l w in
      let made = create_lem loop address sockfd reuse_port ra rp in
      (
        a,
        (
          ap (λ o. o >>= λ new. listen true (set_new_conn_callback new)) made ∙ e,
          (v, destroy-IsGone a address (listening_socket sockfd ra (rp && reuse_port)) v),
        ),
      )

module _ {A : Type 0} where
  -- The descriptors among the answers of accept4, with the peers.
  abbrev pub descriptors : List (Accept A) → List (ℕ × A)
  descriptors [] = []
  descriptors (refused errno ∷ answers) = descriptors answers
  descriptors (accepted connfd peer ∷ answers) = (connfd, peer) ∷ descriptors answers

  abbrev pub handed : List (Outcome A) → List (ℕ × A)
  handed [] = []
  handed (hands_over connfd peer ∷ os) = (connfd, peer) ∷ handed os
  handed (closes connfd ∷ os) = handed os
  handed (logs ∷ os) = handed os

  abbrev pub closed : List (Outcome A) → List ℕ
  closed [] = []
  closed (hands_over connfd peer ∷ os) = closed os
  closed (closes connfd ∷ os) = connfd ∷ closed os
  closed (logs ∷ os) = closed os

  -- No accepted descriptor is leaked or used twice: over any sequence of answers of accept4, failures
  -- among them, an acceptor with a callback hands every descriptor over to it, in order, and closes
  -- none, and one without closes each, in order, and hands none over.
  handle_read-descriptors :
      (a : Acceptor) (peer_addr : A) (answers : List (Accept A))
      → let os = map (handle_read a peer_addr) answers in
        (handed os ≡ (if a.has_callback then descriptors answers else []))
        × (closed os ≡ (if a.has_callback then [] else map (λ d. d.0) (descriptors answers)))
  unfolding handle_read Socket.accept
  handle_read-descriptors a peer_addr [] = ground arith
  handle_read-descriptors a peer_addr (refused errno ∷ answers) =
      handle_read-descriptors a peer_addr answers
  handle_read-descriptors a peer_addr (accepted connfd peer ∷ answers) =
      let (h, c) = handle_read-descriptors a peer_addr answers in
      elim (Bool-cases a.has_callback) [
        | inl on ↦ simp on (ap (λ t. (connfd, peer) ∷ t) (simp on at h), simp on at c)
        | inr off ↦ simp off (simp off at h, ap (λ t. connfd ∷ t) (simp off at c))
      ]

-- ===== src/Acceptor.antt =====
-- include/net/acceptor.h and src/net/acceptor.cpp: the listening socket and its channel, in the base
-- loop. The answers of the system calls are arguments; `none` stands for the abort() of LOG_FATAL.
-- `A` is the type of the peers' addresses.
pub mod Listening
mod Examples
use caimr.Prelude.{ℕ, Bool, true, false, Option, none, some, List, [], ◌∷◌, if◌then◌else◌, ◌>>=◌}
use caimr.Chan
use caimr.Chan.{Chan}
use caimr.Eloop.{Eloop}
use caimr.Eloop.Channels
use caimr.Functor.{Functor}
use caimr.Socket
use caimr.Socket.{Socket, Accept}

pub record Acceptor : Type 0 where
  pub loop : Eloop Functor
  pub accept_socket : Socket
  pub accept_ch : Chan
  pub has_callback : Bool
  pub listening : Bool

-- `none` if there is no socket.
abbrev pub create_nonblocking : (socket_answer : Option ℕ) → Option ℕ
create_nonblocking none = none
create_nonblocking (some sockfd) = some sockfd

-- What socket(2), setsockopt(2) for SO_REUSEADDR and for SO_REUSEPORT, and bind(2) answer.
pub record Answers : Type 0 where
  pub socket_answer : Option ℕ
  pub reuse_addr_answer : Bool
  pub reuse_port_answer : Bool
  pub bind_answer : Bool

-- The constructor; `address` is where the channel lies.
pub create : Eloop Functor → (address : ℕ) → (reuse_port : Bool) → Answers → Option Acceptor
create loop address reuse_port ans = do
  sockfd ← create_nonblocking ans.socket_answer
  s ← Socket.bind_address ans.bind_answer (
      Socket.set_reuse_port ans.reuse_port_answer reuse_port
        (Socket.set_reuse_addr ans.reuse_addr_answer true (Socket.create sockfd)))
  some (record {
    loop = loop;
    accept_socket = s;
    accept_ch = Chan.set_read_callback (Chan.create address sockfd);
    has_callback = false;
    listening = false;
  })

pub set_new_conn_callback : Acceptor → Acceptor
set_new_conn_callback a = record a { has_callback = true }

pub listen : Bool → Acceptor → Option Acceptor
listen listen_answer a = do
  s ← Socket.listen listen_answer a.accept_socket
  let (loop, ch) = Channels.enable_reading a.accept_ch a.loop
  some (record a { accept_socket = s; listening = true; loop = loop; accept_ch = ch })

-- The destructor, and then those of the members.
pub destroy : Acceptor → Acceptor
destroy a =
    let (loop, ch) = Channels.disable_all a.accept_ch a.loop in
    let (loop', ch') = Channels.remove ch loop in
    record a { loop = loop'; accept_ch = ch'; accept_socket = Socket.destroy a.accept_socket }

-- What `handle_read` does with the answer of accept4.
pub data Outcome (A : Type 0) : Type 0 where
  hands_over : (connfd : ℕ) (peer : A) → Outcome A
  closes : (connfd : ℕ) → Outcome A
  logs : Outcome A

-- What comes after `accept`: `connfd` and `peer_addr` are what it returned.
abbrev pub after_accept : {A : Type 0} → Acceptor → Option ℕ × A → Outcome A
after_accept a (none, peer_addr) = logs
after_accept a (some connfd, peer_addr) =
    if a.has_callback then hands_over connfd peer_addr else closes connfd

-- `peer_addr` is the address that `accept` fills in.
unfoldable pub handle_read : {A : Type 0} → Acceptor → (peer_addr : A) → Accept A → Outcome A
handle_read a peer_addr answer = after_accept a (Socket.accept answer peer_addr)

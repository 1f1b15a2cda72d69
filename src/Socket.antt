-- ===== src/Socket.antt =====
-- include/net/socket.h and src/net/socket.cpp: a socket, with what the kernel keeps about its
-- descriptor: the options that have been set, whether bind(2), listen(2), shutdown(SHUT_WR) and
-- close(2) have been called with success, and the bytes that write(2) accepted. The answers of the
-- system calls are arguments, `true` where they succeed; `none` stands for the abort() of LOG_FATAL.
-- `A` is the type of the peers' addresses.
use caimr.Prelude.{ℕ, Bool, true, false, Option, none, some, [], Bytes, if◌then◌else◌}

pub record Socket : Type 0 where
  pub sockfd : ℕ
  pub tcp_no_delay : Bool
  pub reuse_addr : Bool
  pub reuse_port : Bool
  pub keep_alive : Bool
  pub bound : Bool
  pub accepting : Bool
  pub sent : Bytes
  pub write_closed : Bool
  pub closed : Bool

-- A socket of a descriptor on which nothing has been called yet.
abbrev pub create : ℕ → Socket
create sockfd = record {
  sockfd = sockfd;
  tcp_no_delay = false;
  reuse_addr = false;
  reuse_port = false;
  keep_alive = false;
  bound = false;
  accepting = false;
  sent = [];
  write_closed = false;
  closed = false;
}

-- The destructor.
abbrev pub destroy : Socket → Socket
destroy s = record s { closed = true }

abbrev pub bind_address : (answer : Bool) → Socket → Option Socket
bind_address true s = some (record s { bound = true })
bind_address false s = none

abbrev pub listen : (answer : Bool) → Socket → Option Socket
listen true s = some (record s { accepting = true })
listen false s = none

abbrev pub shutdown_write : (answer : Bool) → Socket → Socket
shutdown_write answer s = if answer then record s { write_closed = true } else s

abbrev pub set_tcp_no_delay : (answer on : Bool) → Socket → Socket
set_tcp_no_delay answer on s = if answer then record s { tcp_no_delay = on } else s

abbrev pub set_reuse_addr : (answer on : Bool) → Socket → Socket
set_reuse_addr answer on s = if answer then record s { reuse_addr = on } else s

abbrev pub set_reuse_port : (answer on : Bool) → Socket → Socket
set_reuse_port answer on s = if answer then record s { reuse_port = on } else s

abbrev pub set_keep_alive : (answer on : Bool) → Socket → Socket
set_keep_alive answer on s = if answer then record s { keep_alive = on } else s

-- The answer of accept4: -1 with errno, or a descriptor and the peer's address.
pub data Accept (A : Type 0) : Type 0 where
  refused : (errno : ℕ) → Accept A
  accepted : (connfd : ℕ) (peer : A) → Accept A

-- The descriptor, `none` for -1, and what is at `peeraddr` afterwards.
unfoldable pub accept : {A : Type 0} → Accept A → (peeraddr : A) → Option ℕ × A
accept (refused errno) peeraddr = (none, peeraddr)
accept (accepted connfd peer) peeraddr = (some connfd, peer)

-- ===== src/TcpServer/Accepting.antt =====
-- The acceptor and the server together: `acceptor::handle_read` of src/net/acceptor.cpp with
-- `tcp_server::new_conn` as its callback.
use caimr.Prelude.{
  ℕ, ◌+◌, ◌<◌, ◌^◌, ◌≡◌, refl, ap, ◌∙◌, subst, true, Option, some, List, [], ◌∷◌, ◌>>=◌, length,
  lookup, arith,
}
use caimr.Socket.{Accept, refused, accepted}
use caimr.Socket
use caimr.Acceptor.{Acceptor, Outcome, hands_over, closes, logs, handle_read}
use caimr.Acceptor.Listening.{descriptors}
use caimr.TcpServer.{TcpServer, new_conn}
use caimr.TcpServer.Counts.{established}
use caimr.TcpServer.Lifecycle.{Reach, next, accepts, Reach-Inv}
use caimr.TcpServer.Placing.{Config, config, conn_of, new_conn-Placed}

module _ {A : Type 0} where
  -- What the acceptor makes of an accepted descriptor, with the server's callback.
  abbrev pub served : Outcome A → TcpServer → Option TcpServer
  served (hands_over connfd peer) s = new_conn connfd s
  served (closes connfd) s = some s
  served logs s = some s

  -- The listening socket is readable, time after time.
  abbrev pub serve : Acceptor → A → List (Accept A) → TcpServer → Option TcpServer
  serve a peer_addr [] s = some s
  serve a peer_addr (answer ∷ answers) s =
      served (handle_read a peer_addr answer) s >>= serve a peer_addr answers

  -- The descriptors are the sockets of connections with ids from `id` on, in the map of the server, each
  -- with the name and the callbacks that the server gives and handed to its loop to be established once.
  abbrev pub Entered : Config → List (ℕ × A) → ℕ → TcpServer → Type 0
  Entered f [] id s = Unit {0}
  Entered f ((sockfd, peer) ∷ ds) id s =
      ((io_loop : ℕ) × ((lookup id s.conns ≡ some (conn_of f id io_loop sockfd))
          × (established id s ≡ 1)))
      × Entered f ds (id + 1) s

  pub record Served (loop : ℕ) (s : TcpServer) (ds : List (ℕ × A)) (s' : TcpServer) : Type 0 where
    pub reach : Reach loop s'
    pub entered : Entered (config s) ds s.next_conn_id s'
    pub count : s'.next_conn_id ≡ s.next_conn_id + length ds
    pub others : (id : ℕ) → id < s.next_conn_id → lookup id s'.conns ≡ lookup id s.conns

  -- The acceptor feeds the server. In the life of a server, as long as it has had less than 2^32 - 1
  -- connections, and whatever accept4 answers time after time, failures among them: an acceptor with
  -- the server's callback hands every accepted descriptor, in order, to the server, which makes it
  -- the socket of a connection of its own, with the next id, the name made of it and the callbacks
  -- that the server has, in the map and handed to a loop to be established once. Connections that the
  -- server had before stay in the map as they were.
  pub serve_lem :
      {loop : ℕ} (a : Acceptor) (peer_addr : A)
      → a.has_callback ≡ true
      → (answers : List (Accept A)) (s : TcpServer) → Reach loop s
      → s.next_conn_id + length (descriptors answers) < 2 ^ 32
      → (s' : TcpServer) × ((serve a peer_addr answers s ≡ some s')
          × Served loop s (descriptors answers) s')
  unfolding handle_read Socket.accept
  serve_lem a peer_addr on [] s r small =
      (s, (refl, record { reach = r; entered = tt; count = omega arith; others = λ id h. refl }))
  serve_lem a peer_addr on (refused errno ∷ answers) s r small =
      serve_lem a peer_addr on answers s r small
  serve_lem a peer_addr on (accepted connfd peer ∷ answers) s r small =
      let first : s.next_conn_id + 1 < 2 ^ 32 = omega (arith, small) in
      let (s₁, (e, p)) = new_conn-Placed r connfd first in
      let (s', (e', v)) =
        serve_lem a peer_addr on answers s₁ (next r (accepts connfd first e))
          (omega (arith, small, p.count)) in
      (
        s',
        (
          simp on (ap (λ o. o >>= serve a peer_addr answers) e ∙ e'),
          record {
            reach = v.reach;
            entered = (
              (
                p.io_loop,
                (
                  v.others s.next_conn_id (omega (arith, p.count)) ∙ p.entry,
                  ground (
                    arith,
                    (Reach-Inv v.reach).created s.next_conn_id,
                    (Reach-Inv r).positive,
                    v.count,
                    p.count,
                  ),
                ),
              ),
              subst (λ id. Entered (config s) (descriptors answers) id s') p.count
                  (subst (λ f. Entered f (descriptors answers) s₁.next_conn_id s') p.same
                    v.entered),
            );
            count = omega (arith, v.count, p.count);
            others = λ id h.
                v.others id (omega (arith, h, p.count))
                ∙ p.others id (λ same. omega (arith, h, same));
          },
        ),
      )

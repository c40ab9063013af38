-- ===== src/Server/Accounting.antt =====
-- What a server has taken when it is opened, and gives back when it is closed.
use ezwebsocket.Prelude.{ℕ, ◌+◌, ◌≡◌, refl, arith}
use ezwebsocket.Prelude.{Bool, true, false, not, List, [], ◌∷◌, Option, none, some, if◌then◌else◌}
use ezwebsocket.Prelude.{◌>>=◌, Ensures, ensure, Ensures-some, Ensures-if, Ensures-bind}
use ezwebsocket.Resources.{Live, take_block, take_fd, free_block, close_fd, free_infos}
use ezwebsocket.SocketServer.Registry.{close_all_connections_none}
use ezwebsocket.Server.{
  ServerAnswers, bind_first, open_on, open_at, socket_server_open, socket_server_close,
  websocket_server_open, websocket_server_close,
}

-- There is so much more than before.
pub record HasMore (blocks fds threads infos : ℕ) (before after : Live) : Type 0 where
  pub more_blocks : after.blocks ≡ before.blocks + blocks
  pub more_fds : after.fds ≡ before.fds + fds
  pub more_threads : after.threads ≡ before.threads + threads
  pub more_infos : after.infos ≡ before.infos + infos
  pub same_tls : after.tls ≡ before.tls

abbrev one_if : Bool → ℕ
one_if b = if b then 1 else 0

bind_first-takes :
    (addresses : List (Bool × Bool)) (before now : Live)
    → HasMore 0 0 0 0 before now
    → Ensures (λ out. HasMore 0 (one_if out.0) 0 0 before out.1) (bind_first addresses now)
unfolding bind_first
bind_first-takes [] before now same = Ensures-some _ same
bind_first-takes ((socket_ok, bind_ok) ∷ rest) before now same =
    Ensures-if (not socket_ok) (λ _. bind_first-takes rest before now same)
      λ _.
        Ensures-if bind_ok (λ _. Ensures-some _ (ground arith))
          λ _.
            Ensures-bind
              (ensure {P = λ r. HasMore 0 0 0 0 before r} (close_fd (take_fd now)) (ground arith))
              λ r back. bind_first-takes rest before r back

-- What `socketServer_open` leaves of the lists of `getaddrinfo`.
abbrev pub infos_of : ServerAnswers → Option (List (Bool × Bool)) → ℕ
infos_of a none = 0
infos_of a (some addresses) = if a.socket_desc_ok then 0 else 1

abbrev pub infos_lost : ServerAnswers → ℕ
infos_lost a = if a.desc_ok then infos_of a a.addresses else 0

abbrev OpensSocket : ServerAnswers → ℕ → Live → Bool × Live → Type 0
OpensSocket a lost before (false, now) = HasMore 0 0 0 lost before now
OpensSocket a lost before (true, now) = HasMore 1 1 (one_if a.thread_ok) lost before now

open_on-opens :
    (a : ServerAnswers) (addresses : List (Bool × Bool)) (before now : Live)
    → HasMore 0 0 0 1 before now
    → Ensures (OpensSocket a (if a.socket_desc_ok then 0 else 1) before) (open_on a addresses now)
unfolding open_on
open_on-opens a addresses before now more =
    Ensures-if (not a.socket_desc_ok) (λ none_left. Ensures-some _ (ground arith))
      λ got.
        Ensures-bind (bind_first-takes addresses (take_block now) (take_block now) (ground arith))
          λ out taken.
            Ensures-bind
              (ensure {P = λ r. HasMore 1 (one_if out.0) 0 0 before r} (free_infos out.1)
                (ground arith))
              λ r2 left.
                Ensures-if (not out.0)
                  (λ unbound.
                    Ensures-bind
                      (ensure {P = λ r. HasMore 0 0 0 0 before r} (free_block true r2)
                        (ground arith))
                      λ r3 back. Ensures-some _ (ground arith))
                  (λ bound. Ensures-some _ (ground arith))

open_at-opens :
    (a : ServerAnswers) (addresses : Option (List (Bool × Bool))) (before now : Live)
    → HasMore 0 0 0 0 before now
    → Ensures (OpensSocket a (infos_of a addresses) before) (open_at a addresses now)
unfolding open_at
open_at-opens a none before now same = Ensures-some _ same
open_at-opens a (some addresses) before now same = open_on-opens a addresses before _ (ground arith)

-- `websocketServer_close`, where all connections are gone, gives back a running server.
websocket_server_close-gives :
    (before now : Live) (lost : ℕ)
    → HasMore 2 1 1 lost before now
    → Ensures (HasMore 0 0 0 lost before) (websocket_server_close [] now)
unfolding websocket_server_close socket_server_close
websocket_server_close-gives before now lost more =
    rw close_all_connections_none (ensure _ (ground arith))

-- `websocketServer_close` gives back a server whose thread was started. Without it there is no
-- thread of the server, and its join goes to a thread that is none.
abbrev pub Serves : Bool → ℕ → Live → Live → Type 0
Serves true lost before now = Ensures (HasMore 0 0 0 lost before) (websocket_server_close [] now)
Serves false lost before now =
    HasMore 2 1 0 lost before now × (websocket_server_close [] (record now { threads = 0 }) ≡ none)

-- What `websocketServer_open` leaves: nothing where it answers NULL, and else a server; but for the
-- lists of `getaddrinfo` that are lost.
abbrev pub OpensServer : ServerAnswers → Live → Bool × Live → Type 0
OpensServer a before (false, now) = HasMore 0 0 0 (infos_lost a) before now
OpensServer a before (true, now) = Serves a.thread_ok (infos_lost a) before now

-- Without a thread the join of `websocketServer_close` fails.
websocket_server_close-joins_none :
    (now : Live) → websocket_server_close [] (record now { threads = 0 }) ≡ none
unfolding websocket_server_close socket_server_close
websocket_server_close-joins_none now = rw close_all_connections_none refl

serves :
    (thread_ok : Bool) (before now : Live) (lost : ℕ)
    → HasMore 2 1 (one_if thread_ok) lost before now
    → Serves thread_ok lost before now
serves true before now lost more = websocket_server_close-gives before now lost more
serves false before now lost more = (more, websocket_server_close-joins_none now)

opened :
    (a : ServerAnswers) (lost : ℕ) (before now : Live) (out : Bool × Live)
    → lost ≡ infos_lost a
    → OpensSocket a lost (take_block before) out
    → Ensures
        (OpensServer a before)
        (if out.0 then some (true, out.1) else (do r2 ← free_block true out.1; some (false, r2)))
opened a lost before now (true, r) is opens =
    Ensures-some _ (serves a.thread_ok before r (infos_lost a) (ground arith))
opened a lost before now (false, r) is opens =
    Ensures-bind
      (ensure {P = λ r2. HasMore 0 0 0 (infos_lost a) before r2} (free_block true r) (ground arith))
      λ r2 back. Ensures-some _ back

-- `websocketServer_open`, whichever of its calls fail, returns. Where it answers NULL, every block and
-- descriptor that it took has been given back, once. Where it answers a server whose thread was
-- started, `websocketServer_close` without connections gives back all. Where the thread could not be
-- started it answers a server all the same, with two blocks and a descriptor and no thread, and in a
-- process without other threads `websocketServer_close` then joins one that is none. What is lost is
-- the list of `getaddrinfo`, where the block of the socket's descriptor cannot be had, and only there.
pub websocket_server_open-OpensServer :
    (a : ServerAnswers) (before : Live)
    → Ensures (OpensServer a before) (websocket_server_open a before)
unfolding websocket_server_open socket_server_open
websocket_server_open-OpensServer a before =
    Ensures-if (not a.desc_ok) (λ failed. Ensures-some _ (ground arith))
      λ got.
        Ensures-bind
          (open_at-opens a a.addresses (take_block before) (take_block before) (ground arith))
          λ out opens. opened a (infos_of a a.addresses) before before out (ground arith) opens

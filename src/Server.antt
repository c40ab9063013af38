-- ===== src/Server.antt =====
-- Opening and closing a server: `socketServer_open`, `socketServer_close`, `startConnection` and the end
-- of `connectionThread` of lib/socket_server/socket_server.c, and `websocketServer_open`,
-- `websocketServer_close` and the references of a connection of lib/ezwebsocket.c, as far as resources go. `none` is a resource given back
-- twice, or an access to one that is gone.
pub mod Accounting
pub mod Life
pub mod Dead
mod Examples
use ezwebsocket.Prelude.{ℕ, ◌+◌, ◌-◌, Bool, true, false, not, ◌||◌, List, [], ◌∷◌}
use ezwebsocket.Prelude.{Option, none, some, if◌then◌else◌, ◌==◌, ◌>>=◌}
use ezwebsocket.Resources.{Live, take_block, take_fd, free_block, close_fd, join, free_infos}
use ezwebsocket.SocketServer.{
  ServerList, add_ref, drop_ref, add_connection, remove_connection, close_all_connections,
}

-- What the calls of the system answer: whether the blocks can be had, the addresses of `getaddrinfo`,
-- each with whether `socket` and `bind` succeed on it, and whether the thread starts.
pub record ServerAnswers : Type 0 where
  pub desc_ok : Bool
  pub addresses : Option (List (Bool × Bool))
  pub socket_desc_ok : Bool
  pub thread_ok : Bool

-- The loop of `socketServer_open` over the addresses; the answer is false behind the last one.
pub bind_first : List (Bool × Bool) → Live → Option (Bool × Live)
bind_first [] r = some (false, r)
bind_first ((socket_ok, bind_ok) ∷ rest) r =
    if not socket_ok
    then bind_first rest r
    else if bind_ok
    then some (true, take_fd r)
    else (do r' ← close_fd (take_fd r); bind_first rest r')

-- `socketServer_open` from the allocation of the descriptor on.
pub open_on : ServerAnswers → List (Bool × Bool) → Live → Option (Bool × Live)
open_on a addresses r = if not a.socket_desc_ok then some (false, r) else (do
  (bound, r1) ← bind_first addresses (take_block r)
  r2 ← free_infos r1
  if not bound
      then (do r3 ← free_block true r2; some (false, r3))
      else some (true, if a.thread_ok then record r2 { threads = r2.threads + 1 } else r2))

-- The same behind `getaddrinfo`, whose list is none where it fails.
pub open_at : ServerAnswers → Option (List (Bool × Bool)) → Live → Option (Bool × Live)
open_at a none r = some (false, r)
open_at a (some addresses) r = open_on a addresses (record r { infos = r.infos + 1 })

-- `socketServer_open`; the answer says whether it is a descriptor or NULL.
pub socket_server_open : ServerAnswers → Live → Option (Bool × Live)
socket_server_open a r = open_at a a.addresses r

-- `socketServer_close`, with the list of its connections.
pub socket_server_close : List ℕ → Live → Option Live
socket_server_close connections r = do
  closed ← close_all_connections connections
  r1 ← join r
  r2 ← close_fd r1
  free_block true r2

-- `websocketServer_open`, and `websocket_open`, which does the same with other callbacks.
pub websocket_server_open : ServerAnswers → Live → Option (Bool × Live)
websocket_server_open a r = if not a.desc_ok then some (false, r) else (do
  (opened, r1) ← socket_server_open a (take_block r)
  if opened then some (true, r1) else (do r2 ← free_block true r1; some (false, r2)))

-- `websocketServer_close`, where no other reference is held.
pub websocket_server_close : List ℕ → Live → Option Live
websocket_server_close connections r = do r1 ← socket_server_close connections r; free_block true r1

-- `refcnt_unref` of a connection's descriptor; `none` where its count is 0 already.
pub unref_desc : ServerList → ℕ → Option ServerList
unref_desc l desc =
    if l.refs desc == 0 then none else some (record l { refs = drop_ref l.refs desc })

-- `startConnection` of a descriptor not in use: whether its block, that of the list and the thread can
-- be had. The answer is true for 0.
pub start_connection : Bool → Bool → Bool → ServerList → ℕ → Option (Bool × ServerList)
start_connection desc_ok list_ok thread_ok l desc =
    if not desc_ok
    then some (false, l)
    else (let l1 = record l { refs = add_ref l.refs desc } in
        let (added, l2) = add_connection list_ok l1 desc in
        if thread_ok then some (true, l2) else (do l3 ← unref_desc l2 desc; some (false, l3)))

-- `websocketServer_onOpen`: it takes a reference of the socket's descriptor and allocates the
-- connection, whose count is the number; `memset` of NULL is `none`.
pub server_on_open : Bool → ServerList → ℕ → Option (ServerList × ℕ)
server_on_open got l desc = if got then some (record l { refs = add_ref l.refs desc }, 1) else none

-- The references that `websocket_onClose` gives back for a server, with the count of the connection.
pub server_on_close : ServerList → ℕ → ℕ → Option (ServerList × ℕ)
server_on_close l desc cnt = do
  l' ← unref_desc l desc
  if cnt == 0 then none else some (l', cnt - 1)

-- The end of `connectionThread`: `removeConnection` and `refcnt_unref`.
pub end_connection : ServerList → ℕ → Option ServerList
end_connection l desc = unref_desc (remove_connection l desc).1 desc

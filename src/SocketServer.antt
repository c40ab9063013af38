-- ===== src/SocketServer.antt =====
-- The server side of the sockets, lib/socket_server/socket_server.c: the list of the connections, and
-- how `connectionThread` hands over what was received. A descriptor is a number.
pub mod Drain
pub mod Registry
pub mod Others
mod Examples
use ezwebsocket.Prelude.{
  ℕ, zero, suc, ◌+◌, ◌-◌, Bool, true, false, not, ◌&&◌, List, [], ◌∷◌, Option, none, some,
}
use ezwebsocket.Prelude.{if◌then◌else◌, ◌>>=◌, ◌==◌}
use ezwebsocket.DynBuffer.{DynBuffer, remove_leading_bytes, unread}

-- `struct socket_server_desc`, as far as the list goes, with the references that the list holds.
pub record ServerList : Type 0 where
  pub list : List ℕ
  pub num_connections : ℕ
  pub refs : ℕ → ℕ

-- `refcnt_ref` and `refcnt_unref` on the count of a descriptor.
unfoldable pub add_ref : (ℕ → ℕ) → ℕ → ℕ → ℕ
add_ref refs desc other = if other == desc then refs other + 1 else refs other

unfoldable pub drop_ref : (ℕ → ℕ) → ℕ → ℕ → ℕ
drop_ref refs desc other = if other == desc then refs other - 1 else refs other

-- `addConnection`; `got` says whether its `malloc` succeeded, and true is its 0.
unfoldable pub add_connection : Bool → ServerList → ℕ → Bool × ServerList
add_connection got r desc =
    if got
    then (
      true,
      record {
        list = desc ∷ r.list;
        num_connections = r.num_connections + 1;
        refs = add_ref r.refs desc;
      },
    )
    else (false, r)

-- The loop of `removeConnection`: the first element that has the descriptor is taken out.
unfoldable pub unlink : List ℕ → ℕ → Bool × List ℕ
unlink [] desc = (false, [])
unlink (x ∷ xs) desc =
    let (found, rest) = unlink xs desc in if x == desc then (true, xs) else (found, x ∷ rest)

-- `removeConnection`; the reference is given back whether the descriptor was found or not.
unfoldable pub remove_connection : ServerList → ℕ → Bool × ServerList
remove_connection r desc =
    let (found, rest) = unlink r.list desc in
    (
      found,
      record {
        list = rest;
        num_connections = if found then r.num_connections - 1 else r.num_connections;
        refs = drop_ref r.refs desc;
      },
    )

-- `closeAllConnections`: the descriptors that are closed, in order. It steps on before it closes, and
-- looks for the descriptor behind the pointer that it stepped to.
pub close_all_connections : List ℕ → Option (List ℕ)
close_all_connections [] = some []
close_all_connections (x ∷ []) = none
close_all_connections (x ∷ y ∷ rest) = do
  closed ← close_all_connections (y ∷ rest)
  some (y ∷ closed)

-- The inner loop of `connectionThread`: `socket_onMessage` is given what is in the buffer until it
-- takes nothing, the buffer is empty or the connection is down. `fuel` bounds the rounds.
module _ {A : Type 0} (is_up : A → Bool) (on_message : A → List ℕ → Option (ℕ × A)) where
  pub drain : ℕ → A → DynBuffer → Option (A × DynBuffer)
  drain zero c b = none
  drain (suc fuel) c b = do
    (count, c') ← on_message c (unread b)
    let b' = (remove_leading_bytes b count).1
    let rest = drain fuel c' b'
    if not (count == 0) && not (b'.used == 0) && is_up c' then rest else some (c', b')

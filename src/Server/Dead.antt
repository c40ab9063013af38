-- ===== src/Server/Dead.antt =====
-- A connection of lib/socket_server/socket_server.c whose thread could not be started, and what the
-- other connections do.
use ezwebsocket.Prelude.{ℕ, ◌≡◌, refl, ap, sym, arith, ◌==◌, ◌>>=◌}
use ezwebsocket.Prelude.{Bool, true, false, List, [], ◌∷◌, Option, none, some, All}
use ezwebsocket.SocketServer.{ServerList, add_ref, add_connection, remove_connection}
use ezwebsocket.SocketServer.Registry.{count, add_ref_at, drop_ref_at, add_connection_got}
use ezwebsocket.SocketServer.Others.{
  Keeps, Keeps-trans, add_connection-Keeps, remove_connection-Keeps, add_ref-Keeps, drop_ref-Keeps,
}
use ezwebsocket.Server.{
  unref_desc, start_connection, server_on_open, server_on_close, end_connection,
}

-- What happens to a connection: it is started, opened, closed with the count of its connection of
-- lib/ezwebsocket.c, and its thread ends.
pub data Event : Type 0 where
  starts : (desc_ok list_ok thread_ok : Bool) (desc : ℕ) → Event
  opens closes ends : (desc : ℕ) → Event

abbrev pub desc_of : Event → ℕ
desc_of (starts desc_ok list_ok thread_ok desc) = desc
desc_of (opens desc) = desc
desc_of (closes desc) = desc
desc_of (ends desc) = desc

abbrev pub happens : Event → ServerList → Option ServerList
happens (starts desc_ok list_ok thread_ok desc) l = do
  (started, l') ← start_connection desc_ok list_ok thread_ok l desc
  some l'
happens (opens desc) l = do (l', cnt) ← server_on_open true l desc; some l'
happens (closes desc) l = do (l', cnt) ← server_on_close l desc 1; some l'
happens (ends desc) l = end_connection l desc

-- The events in their order; `none` where one of them gives back a reference that is gone.
abbrev pub happen : List Event → ServerList → Option ServerList
happen [] l = some l
happen (event ∷ events) l = do l' ← happens event l; happen events l'

-- The event is one of another connection.
abbrev pub IsOther : ℕ → Event → Type 0
IsOther desc event = (desc == desc_of event) ≡ false

happens-Keeps :
    (event : Event) (l l' : ServerList) (desc : ℕ)
    → IsOther desc event
    → happens event l ≡ some l'
    → Keeps desc l l'
unfolding start_connection server_on_open server_on_close end_connection unref_desc
happens-Keeps (starts false list_ok thread_ok other) l l' desc differ is = record {
  same_places = ground arith;
  same_refs = ground arith;
}
happens-Keeps (starts true list_ok true other) l l' desc differ is =
    let l1 = record l { refs = add_ref l.refs other } in
    ground
      (arith, add_ref-Keeps l other desc differ, add_connection-Keeps list_ok l1 other desc differ)
happens-Keeps (starts true list_ok false other) l l' desc differ is =
    let l1 = record l { refs = add_ref l.refs other } in
    ground (
      arith,
      add_ref-Keeps l other desc differ,
      add_connection-Keeps list_ok l1 other desc differ,
      drop_ref-Keeps (add_connection list_ok l1 other).1 other desc differ,
    )
happens-Keeps (opens other) l l' desc differ is = ground (arith, add_ref-Keeps l other desc differ)
happens-Keeps (closes other) l l' desc differ is =
    ground (arith, drop_ref-Keeps l other desc differ)
happens-Keeps (ends other) l l' desc differ is = ground (
  arith,
  remove_connection-Keeps l other desc differ,
  drop_ref-Keeps (remove_connection l other).1 other desc differ,
)

happen-Keeps :
    (events : List Event) (l l' : ServerList) (desc : ℕ)
    → All (IsOther desc) events
    → happen events l ≡ some l'
    → Keeps desc l l'
happen-Keeps [] l l' desc others is = record {
  same_places = ground arith;
  same_refs = ground arith;
}
happen-Keeps (event ∷ events) l l' desc (differs, others) is =
    by_first (happens event l) refl is (λ l1. happen-Keeps events l1 l' desc others)
  where
    by_first :
        (m : Option ServerList)
        → m ≡ happens event l
        → (do l1 ← m; happen events l1) ≡ some l'
        → ((l1 : ServerList) → happen events l1 ≡ some l' → Keeps desc l1 l')
        → Keeps desc l l'
    by_first none here is later = absurd (ground arith)
    by_first (some l1) here is later =
        Keeps-trans (happens-Keeps event l l1 desc differs (sym here)) (later l1 is)

-- Where the thread of a fresh connection cannot be started, `startConnection` fails. Whatever starts,
-- opens, closes and ends of other connections follow, as long as none of them gives back a
-- reference that is gone, the connection stands in the list once and its count is one.
pub dead_connection :
    (l l' l'' : ServerList) (desc : ℕ) (started : Bool) (events : List Event)
    → count desc l.list ≡ 0
    → l.refs desc ≡ 0
    → start_connection true true false l desc ≡ some (started, l')
    → All (IsOther desc) events
    → happen events l' ≡ some l''
    → (started ≡ false) × (count desc l''.list ≡ 1) × (l''.refs desc ≡ 1)
unfolding start_connection unref_desc count
dead_connection l l' l'' desc started events absent fresh is others goes_on =
    let kept = happen-Keeps events l' l'' desc others goes_on in
    let l1 = record l { refs = add_ref l.refs desc } in
    let (in_list, one_more, refs) = add_connection_got l1 desc in
    ground (
      arith,
      ap (λ f. f desc) refs,
      add_ref_at l.refs desc desc,
      add_ref_at l1.refs desc desc,
      drop_ref_at (add_connection true l1 desc).1.refs desc desc,
    )

-- ===== src/Server/Life.antt =====
-- A connection's descriptor between `startConnection` and the end of `connectionThread`.
use ezwebsocket.Prelude.{ℕ, ◌+◌, ◌≡◌, refl, ap, ◌∙◌, arith}
use ezwebsocket.Prelude.{true, false, none, some}
use ezwebsocket.Prelude.{◌==◌, Ensures, Ensures-some, Ensures-if}
use ezwebsocket.SocketServer.{ServerList, add_ref, drop_ref, add_connection, remove_connection}
use ezwebsocket.SocketServer.Registry.{
  remove-add_counts, add_ref_at, drop_ref_at, remove_connection-drop_ref, add_connection_full,
  add_connection_got,
}
use ezwebsocket.Server.{
  unref_desc, start_connection, server_on_open, server_on_close, end_connection,
}

-- The list and the counts are what they were.
pub record IsSameList (l l' : ServerList) : Type 0 where
  pub same_list : l'.list ≡ l.list
  pub same_number : l'.num_connections ≡ l.num_connections
  pub same_refs : (other : ℕ) → l'.refs other ≡ l.refs other

add_ref_self : (refs : ℕ → ℕ) (desc : ℕ) → add_ref refs desc desc ≡ refs desc + 1
add_ref_self refs desc = ground (arith, add_ref_at refs desc desc)

-- `refcnt_unref` of a descriptor with a reference.
unref_desc_held :
    (l : ServerList) (desc count : ℕ)
    → l.refs desc ≡ count + 1
    → unref_desc l desc ≡ some (record l { refs = drop_ref l.refs desc })
unfolding unref_desc
unref_desc_held l desc count held = ground arith

-- A connection from its start to the end of its thread: `startConnection`, `websocketServer_onOpen`,
-- `websocket_onClose` and the end of `connectionThread`, with all memory and the thread, where the user
-- holds so many references of it when it closes. No descriptor is used after its count has reached 0;
-- the list, its counter and all counts of descriptors are what they were, and the references that
-- are left of the connection are those of the user.
pub connection_life :
    (l : ServerList) (desc users : ℕ)
    → Ensures
        (λ started.
          (started.0 ≡ true)
          × Ensures
              (λ opened.
                Ensures
                  (λ gone. (gone.1 ≡ users) × Ensures (IsSameList l) (end_connection (gone.0) desc))
                  (server_on_close (opened.0) desc (opened.1 + users)))
              (server_on_open true (started.1) desc))
        (start_connection true true true l desc)
unfolding start_connection server_on_open server_on_close end_connection
connection_life l desc users =
    let l1 = record l { refs = add_ref l.refs desc } in
    let l2 = (add_connection true l1 desc).1 in
    let l3 = record l2 { refs = add_ref l2.refs desc } in
    let l4 = record l3 { refs = drop_ref l3.refs desc } in
    let l5 = (remove_connection l4 desc).1 in
    let (in_list, one_more, added) = add_connection_got l1 desc in
    let (same_list, same_number, dropped) = remove-add_counts l1 desc l4.refs in
    let kept : (other : ℕ) → l4.refs other ≡ l2.refs other =
      λ other. ground (arith, drop_ref_at l3.refs desc other, add_ref_at l2.refs desc other) in
    let back : (other : ℕ) → l5.refs other ≡ l1.refs other = λ other. ground (
      arith,
      ap (λ f. f other) dropped,
      drop_ref_at l4.refs desc other,
      kept other,
      ap (λ f. f other) added,
      add_ref_at l1.refs desc other,
    ) in
    let held : l3.refs desc ≡ l2.refs desc + 1 = add_ref_self l2.refs desc in
    let held5 : l5.refs desc ≡ l.refs desc + 1 = back desc ∙ add_ref_self l.refs desc in
    Ensures-some _ (
      refl,
      Ensures-some _ (
          rw (unref_desc_held l3 desc (l2.refs desc) held) (
            Ensures-if (1 + users == 0) (λ none_left. absurd (ground arith))
              (λ some_left. Ensures-some _ (
                omega arith,
                rw (unref_desc_held l5 desc (l.refs desc) held5) (
                    Ensures-some _ (record {
                      same_list = same_list;
                      same_number = same_number;
                      same_refs = λ other. ground (
                        arith,
                        drop_ref_at l5.refs desc other,
                        back other,
                        add_ref_at l.refs desc other,
                      );
                    })),
              )))),
    )

-- Where the block of the list cannot be had, `startConnection` goes on, and the end of the thread of a
-- fresh connection gives back a reference too many.
pub full_list-ends :
    (l : ServerList) (desc : ℕ)
    → l.refs desc ≡ 0
    → Ensures
        (λ started. (started.0 ≡ true) × (end_connection (started.1) desc ≡ none))
        (start_connection true false true l desc)
unfolding start_connection end_connection unref_desc
full_list-ends l desc fresh =
    let l1 = record l { refs = add_ref l.refs desc } in
    let gone : (remove_connection (add_connection false l1 desc).1 desc).1.refs desc ≡ 0 = ground (
      arith,
      remove_connection-drop_ref (add_connection false l1 desc).1 desc,
      add_connection_full l1 desc,
      drop_ref_at l1.refs desc desc,
      add_ref_self l.refs desc,
    ) in
    Ensures-some _ (refl, rw gone refl)

-- ===== src/SocketServer/Registry.antt =====
-- The list of the connections and its counters.
use ezwebsocket.Prelude.{
  ℕ, ◌≤◌, ◌+◌, ◌-◌, ◌≡◌, refl, arith, Bool, true, false, List, [], ◌∷◌, none, some, if◌then◌else◌,
  ◌==◌, length,
}
use ezwebsocket.SocketServer.{
  ServerList, add_ref, drop_ref, add_connection, unlink, remove_connection, close_all_connections,
}

-- How often a descriptor stands in the list.
unfoldable pub count : ℕ → List ℕ → ℕ
count desc [] = 0
count desc (x ∷ xs) = (if x == desc then 1 else 0) + count desc xs

-- The counter is the length of the list, and every place in the list holds a reference.
pub record IsCounted (r : ServerList) : Type 0 where
  pub number : r.num_connections ≡ length r.list
  pub held : (desc : ℕ) → count desc r.list ≤ r.refs desc

unlink-found :
    (xs : List ℕ) (desc other : ℕ)
    → (unlink xs desc).0 ≡ true
    → (length (unlink xs desc).1 + 1 ≡ length xs)
      × (count other (unlink xs desc).1 + (if other == desc then 1 else 0) ≡ count other xs)
unfolding unlink count
unlink-found [] desc other found = absurd (ground arith)
unlink-found (x ∷ xs) desc other found = ground (arith, unlink-found xs desc other)

unlink-missing : (xs : List ℕ) (desc : ℕ) → (unlink xs desc).0 ≡ false → (unlink xs desc).1 ≡ xs
unfolding unlink
unlink-missing [] desc missing = refl
unlink-missing (x ∷ xs) desc missing = ground (arith, unlink-missing xs desc)

-- `addConnection` keeps the counter equal to the length of the list and a reference for every place
-- in it, whether its memory can be had or not.
pub add_connection-IsCounted :
    (got : Bool) (r : ServerList) (desc : ℕ) → IsCounted r → IsCounted (add_connection got r desc).1
unfolding add_connection add_ref count
add_connection-IsCounted true r desc counted = record {
  number = ground (arith, counted.number);
  held = λ other. ground (arith, counted.held other);
}
add_connection-IsCounted false r desc counted = counted

-- `removeConnection` keeps the counter equal to the length of the list and a reference for every
-- place in it, for a descriptor that it finds.
pub remove_connection-IsCounted :
    (r : ServerList) (desc : ℕ)
    → IsCounted r
    → (remove_connection r desc).0 ≡ true
    → IsCounted (remove_connection r desc).1
unfolding remove_connection drop_ref
remove_connection-IsCounted r desc counted found = record {
  number = ground (arith, counted.number, unlink-found r.list desc desc found);
  held = λ other. ground (arith, counted.held other, unlink-found r.list desc other found);
}

-- A connection that was added and removed leaves the list and its counter as they were.
pub remove-add :
    (r : ServerList) (desc : ℕ)
    → let r' = (remove_connection (add_connection true r desc).1 desc).1 in
      (r'.list ≡ r.list)
      × (r'.num_connections ≡ r.num_connections)
      × ((other : ℕ) → r'.refs other ≡ r.refs other)
unfolding remove_connection add_connection unlink add_ref drop_ref
remove-add r desc = (ground arith, ground arith, λ other. ground arith)

-- `closeAllConnections` runs into the null pointer behind the last element of every list that is not
-- empty.
pub close_all_connections_faults :
    (xs : List ℕ) (desc : ℕ) → close_all_connections (desc ∷ xs) ≡ none
unfolding close_all_connections
close_all_connections_faults [] desc = refl
close_all_connections_faults (x ∷ xs) desc = rw (close_all_connections_faults xs x) refl

-- It does nothing where there are none.
pub close_all_connections_none : close_all_connections [] ≡ some []
unfolding close_all_connections
close_all_connections_none = refl

-- The counts, for other modules.
pub add_ref_at :
    (refs : ℕ → ℕ) (desc other : ℕ)
    → add_ref refs desc other ≡ (if other == desc then refs other + 1 else refs other)
unfolding add_ref
add_ref_at refs desc other = refl

pub drop_ref_at :
    (refs : ℕ → ℕ) (desc other : ℕ)
    → drop_ref refs desc other ≡ (if other == desc then refs other - 1 else refs other)
unfolding drop_ref
drop_ref_at refs desc other = refl

pub remove_connection-drop_ref :
    (l : ServerList) (desc : ℕ) → (remove_connection l desc).1.refs ≡ drop_ref l.refs desc
unfolding remove_connection
remove_connection-drop_ref l desc = refl

pub add_connection_full : (l : ServerList) (desc : ℕ) → (add_connection false l desc).1 ≡ l
unfolding add_connection
add_connection_full l desc = refl

pub add_connection_got :
    (l : ServerList) (desc : ℕ)
    → ((add_connection true l desc).1.list ≡ desc ∷ l.list)
      × ((add_connection true l desc).1.num_connections ≡ l.num_connections + 1)
      × ((add_connection true l desc).1.refs ≡ add_ref l.refs desc)
unfolding add_connection
add_connection_got l desc = (refl, refl, refl)

-- The same whatever became of the counts in between.
pub remove-add_counts :
    (r : ServerList) (desc : ℕ) (refs : ℕ → ℕ)
    → let r' =
        (remove_connection (record ((add_connection true r desc).1) { refs = refs }) desc).1 in
      (r'.list ≡ r.list) × (r'.num_connections ≡ r.num_connections) × (r'.refs ≡ drop_ref refs desc)
unfolding remove_connection add_connection unlink
remove-add_counts r desc refs = (ground arith, ground arith, refl)

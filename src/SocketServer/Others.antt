-- ===== src/SocketServer/Others.antt =====
-- What `addConnection` and `removeConnection` of one connection leave of another.
use ezwebsocket.Prelude.{ℕ, ◌≡◌, refl, arith, Bool, true, false, List, [], ◌∷◌, ◌==◌}
use ezwebsocket.SocketServer.{
  ServerList, add_ref, drop_ref, add_connection, unlink, remove_connection,
}
use ezwebsocket.SocketServer.Registry.{count}

-- A connection stands in the list as often as before, with as many references.
pub record Keeps (desc : ℕ) (l l' : ServerList) : Type 0 where
  pub same_places : count desc l'.list ≡ count desc l.list
  pub same_refs : l'.refs desc ≡ l.refs desc

count-unlink_other :
    (xs : List ℕ) (other desc : ℕ)
    → (desc == other) ≡ false
    → count desc (unlink xs other).1 ≡ count desc xs
unfolding unlink count
count-unlink_other [] other desc differ = refl
count-unlink_other (x ∷ xs) other desc differ = ground (arith, count-unlink_other xs other desc)

pub add_connection-Keeps :
    (got : Bool) (l : ServerList) (other desc : ℕ)
    → (desc == other) ≡ false
    → Keeps desc l (add_connection got l other).1
unfolding add_connection add_ref count
add_connection-Keeps true l other desc differ = ground arith
add_connection-Keeps false l other desc differ = record { same_places = refl; same_refs = refl }

pub remove_connection-Keeps :
    (l : ServerList) (other desc : ℕ)
    → (desc == other) ≡ false
    → Keeps desc l (remove_connection l other).1
unfolding remove_connection drop_ref
remove_connection-Keeps l other desc differ = record {
  same_places = count-unlink_other l.list other desc differ;
  same_refs = ground arith;
}

pub add_ref-Keeps :
    (l : ServerList) (other desc : ℕ)
    → (desc == other) ≡ false
    → Keeps desc l (record l { refs = add_ref l.refs other })
unfolding add_ref
add_ref-Keeps l other desc differ = ground arith

pub drop_ref-Keeps :
    (l : ServerList) (other desc : ℕ)
    → (desc == other) ≡ false
    → Keeps desc l (record l { refs = drop_ref l.refs other })
unfolding drop_ref
drop_ref-Keeps l other desc differ = ground arith

pub Keeps-trans :
    {desc : ℕ} {l l' l'' : ServerList} → Keeps desc l l' → Keeps desc l' l'' → Keeps desc l l''
Keeps-trans first then_on = ground arith

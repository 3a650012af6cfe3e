-- ===== src/Registry/Laws.antt =====
-- The table of server/connmanager.go as a finite map from connection numbers to connections.
use gts.Base.{ℕ, ◌≡◌, refl, false, Option, none, some, length, ◌==◌, if◌then◌else◌}
use gts.Base.Map.{
  lookup, insert, delete, keys, IsMap, insert-IsMap, delete-IsMap, lookup-insert, lookup-delete,
  length-keys,
}
use gts.Base.Result.{Result, ok, err}
use gts.World.{World, returns}
use gts.Registry.{ManagerError, connection_not_found, add, remove, get, len, get_all_conn_id}

-- The lock is free, and no number stands twice in the table.
pub record Free (w : World) : Type 0 where
  pub unlocked : w.locked ≡ false
  pub table : IsMap w.connections

pub add_eq :
    (conn : ℕ) (w : World)
    → w.locked ≡ false
    → add conn w
      ≡ returns tt (record w {
        connections = insert (w.heap conn).conn_id conn w.connections;
        locked = false;
      })
unfolding add
add_eq conn w f = rw f refl

pub remove_eq :
    (conn : ℕ) (w : World)
    → w.locked ≡ false
    → remove conn w
      ≡ returns tt
          (record w { connections = delete (w.heap conn).conn_id w.connections; locked = false })
unfolding remove
remove_eq conn w f = rw f refl

-- From a free lock, and with no number twice in the table, `Add` ends with the lock free and the
-- connection under its own number; every other number keeps its connection.
pub add_lem :
    (conn : ℕ) (w : World)
    → Free w
    → (v : World) × (add conn w ≡ returns tt v)
      × Free v
      × (v.heap ≡ w.heap)
      × ((j : ℕ)
          → lookup j v.connections
            ≡ (if (w.heap conn).conn_id == j then some conn else lookup j w.connections))
add_lem conn w f = (
  record w { connections = insert (w.heap conn).conn_id conn w.connections; locked = false },
  add_eq conn w f.unlocked,
  record { unlocked = refl; table = insert-IsMap (w.heap conn).conn_id conn w.connections f.table },
  refl,
  λ j. lookup-insert (w.heap conn).conn_id j conn w.connections,
)

-- From a free lock, and with no number twice in the table, `Remove` ends with the lock free and
-- the number of the connection gone, whoever held it; every other number keeps its connection.
pub remove_lem :
    (conn : ℕ) (w : World)
    → Free w
    → (v : World) × (remove conn w ≡ returns tt v)
      × Free v
      × (v.heap ≡ w.heap)
      × ((j : ℕ)
          → lookup j v.connections
            ≡ (if (w.heap conn).conn_id == j then none else lookup j w.connections))
remove_lem conn w f = (
  record w { connections = delete (w.heap conn).conn_id w.connections; locked = false },
  remove_eq conn w f.unlocked,
  record { unlocked = refl; table = delete-IsMap (w.heap conn).conn_id w.connections f.table },
  refl,
  λ j. lookup-delete (w.heap conn).conn_id j w.connections f.table,
)

abbrev pub found : Option ℕ → Result ManagerError ℕ
found (some conn) = ok conn
found none = err connection_not_found

-- The three readers return what the table holds and leave the world as it was: the connection
-- under a number or the error, the number of entries, and the numbers, as many as `Len` says.
pub readers_lem :
    (id : ℕ) (w : World)
    → Free w
    → (get id w ≡ returns (found (lookup id w.connections)) w)
      × (len w ≡ returns (length w.connections) w)
      × (get_all_conn_id w ≡ returns (keys w.connections) w)
      × (length (keys w.connections) ≡ length w.connections)
unfolding get len get_all_conn_id
readers_lem id w f =
    (rw f.unlocked refl, rw f.unlocked refl, rw f.unlocked refl, length-keys w.connections)

-- ===== src/Registry.antt =====
-- server/connmanager.go: the table of the open connections behind its lock. The lock is not
-- reentrant: a goroutine that takes it while it holds it waits for ever. Between the calls of one
-- goroutine the lock is free; other goroutines' calls are other entries of the sequence.
pub mod Laws
pub mod Replay
pub mod View
mod Tests
use gts.Base.{ℕ, Bool, true, false, Option, none, some, List, [], ◌∷◌, if◌then◌else◌, length}
use gts.Base.Map.{lookup, insert, delete, keys}
use gts.Base.Result.{Result, ok, err}
use gts.World.{Connection, World, Outcome, returns, blocks, M, ◌>>=◌, ◌>>◌, pure, load}

pub data ManagerError : Type 0 where
  connection_not_found : ManagerError

unfoldable pub lock : M (Unit {0})
lock w = if w.locked then blocks w else returns tt (record w { locked = true })

unfoldable pub unlock : M (Unit {0})
unlock w = returns tt (record w { locked = false })

unfoldable pub len : M ℕ
unfolding lock unlock
len = do lock; n ← λ w. returns (length w.connections) w; unlock; pure n

-- The table is written under the lock; the line printed after it reads the length.
unfoldable pub add : ℕ → M (Unit {0})
unfolding lock unlock len
add conn = do
  lock
  c ← load conn
  λ w. returns tt (record w { connections = insert c.conn_id conn w.connections })
  unlock
  n ← len
  pure tt

unfoldable pub remove : ℕ → M (Unit {0})
unfolding lock unlock len
remove conn = do
  lock
  c ← load conn
  λ w. returns tt (record w { connections = delete c.conn_id w.connections })
  unlock
  n ← len
  pure tt

unfoldable pub get : ℕ → M (Result ManagerError ℕ)
unfolding lock unlock
get conn_id = do
  lock
  r ← λ w.
      returns
        (elim (lookup conn_id w.connections) [
          | some conn ↦ ok conn
          | none ↦ err connection_not_found
        ])
        w
  unlock
  pure r

unfoldable pub get_all_conn_id : M (List ℕ)
unfolding lock unlock
get_all_conn_id = do lock; ids ← λ w. returns (keys w.connections) w; unlock; pure ids

-- The body of the loop of `ClearConn` over the entries that it ranges over, with `Stop`.
unfoldable pub clear_entries : (ℕ → M (Unit {0})) → List (ℕ × ℕ) → M (Unit {0})
clear_entries stop [] = pure tt
clear_entries stop ((conn_id, conn) ∷ rest) = do
  stop conn
  λ w. returns tt (record w { connections = delete conn_id w.connections })
  clear_entries stop rest

unfoldable pub clear_conn : (ℕ → M (Unit {0})) → M (Unit {0})
unfolding lock unlock len clear_entries
clear_conn stop = do
  lock
  entries ← λ w. returns w.connections w
  clear_entries stop entries
  unlock
  n ← len
  pure tt

-- ===== src/Registry/Tests.antt =====
-- A table of server/connmanager.go with two connections.
use gts.Base.{ℕ, ◌≡◌, false, List, [], ◌∷◌, arith}
use gts.Base.Map.{lookup, insert, delete, keys, IsMap}
use gts.World.{Connection, World, returns}
use gts.Registry.{connection_not_found, get_all_conn_id}
use mathlib.Core.List.{Perm}
use gts.World.Sample.{open_conn}
use gts.Registry.View.{Table, SameEntries}
use gts.Registry.View
use gts.Registry.View.Calls.{
  Call, adds, removes, gets, lens, Answer, got, counted, run, ask, with_table, run-Same,
}
use gts.Base.Result.{ok, err}

-- The connection at an address has the address as its number.
abbrev numbered : ℕ → Connection
numbered a = record open_conn { conn_id = a }

abbrev numbers : World
numbers = record { heap = numbered; connections = []; locked = false }

-- One table with its entries in two orders.
one-IsMap : IsMap {V = ℕ} ((1, 1) ∷ (2, 2) ∷ [])
one-IsMap = ground arith

other-IsMap : IsMap {V = ℕ} ((2, 2) ∷ (1, 1) ∷ [])
other-IsMap = ground arith

abbrev one_order : Table
one_order = record { entries = (1, 1) ∷ (2, 2) ∷ []; is_map = one-IsMap }

abbrev other_order : Table
other_order = record { entries = (2, 2) ∷ (1, 1) ∷ []; is_map = other-IsMap }

orders-SameEntries : SameEntries one_order.entries other_order.entries
unfolding lookup
orders-SameEntries j = ground arith

abbrev calls : List Call
calls = adds 3 ∷ removes 1 ∷ gets 1 ∷ lens ∷ gets 2 ∷ []

abbrev answers : List Answer
answers = got (err connection_not_found) ∷ counted 2 ∷ got (ok 2) ∷ []

run-Same_example :
    (after : Table) × (other : Table) × (run calls (with_table numbers one_order)
      ≡ returns answers (with_table numbers after))
    × (run calls (with_table numbers other_order) ≡ returns answers (with_table numbers other))
    × (get_all_conn_id (with_table numbers one_order)
        ≡ returns (1 ∷ 2 ∷ []) (with_table numbers one_order))
    × (get_all_conn_id (with_table numbers other_order)
        ≡ returns (2 ∷ 1 ∷ []) (with_table numbers other_order))
    × Perm {A = ℕ} (1 ∷ 2 ∷ []) (2 ∷ 1 ∷ [])
unfolding lookup insert delete keys ask View.put View.drop_key View.found View.size
run-Same_example = run-Same calls numbers one_order other_order orders-SameEntries

-- ===== src/Registry/View/Calls.antt =====
-- Calls of the manager of server/connmanager.go answer as the view of its table does.
use mathlib.Core.List.{Perm}
use mathlib.Core.Quot
use gts.Base.{ℕ, ◌≡◌, refl, sym, ap, ◌∙◌, false, List, [], ◌∷◌}
use gts.Base.Map.{keys}
use gts.Base.Result.{Result}
use gts.World.{Connection, World, returns, M, ◌>>=◌, ◌>>◌, pure}
use gts.Registry.{ManagerError, add, remove, get, len, get_all_conn_id}
use gts.Registry.Laws.{Free, found, add_eq, remove_eq, readers_lem}
use gts.Registry.View.{Table, SameEntries, View, size, put, drop_key, keys-Same}
use gts.Registry.View

pub data Call : Type 0 where
  adds removes gets : ℕ → Call
  lens : Call

pub data Answer : Type 0 where
  got : Result ManagerError ℕ → Answer
  counted : ℕ → Answer

-- Calls of the manager in their order, with what `Get` and `Len` answered.
unfoldable pub run : List Call → M (List Answer)
run [] = pure []
run (adds a ∷ cs) = add a >> run cs
run (removes a ∷ cs) = remove a >> run cs
run (gets conn_id ∷ cs) = do r ← get conn_id; rest ← run cs; pure (got r ∷ rest)
run (lens ∷ cs) = do n ← len; rest ← run cs; pure (counted n ∷ rest)

-- The same on a view.
unfoldable pub ask : (ℕ → Connection) → List Call → View → List Answer
unfolding View.put View.drop_key View.found View.size
ask heap [] v = []
ask heap (adds a ∷ cs) v = ask heap cs (put (heap a).conn_id a v)
ask heap (removes a ∷ cs) v = ask heap cs (drop_key (heap a).conn_id v)
ask heap (gets conn_id ∷ cs) v = got (found (View.found conn_id v)) ∷ ask heap cs v
ask heap (lens ∷ cs) v = counted (size v) ∷ ask heap cs v

-- The world with a table, and a free lock.
abbrev pub with_table : World → Table → World
with_table w t = record w { connections = t.entries; locked = false }

Free-with_table : (w : World) (t : Table) → Free (with_table w t)
Free-with_table w t = record { unlocked = refl; table = t.is_map }

-- Every sequence of calls from a free lock comes to an end, and its answers are those of the view: they
-- do not depend on the order of the entries in the table.
pub run-ask :
    (cs : List Call) (w : World) (t : Table)
    → (u : Table) × (run cs (with_table w t) ≡ returns (ask w.heap cs (Quot.mk t)) (with_table w u))
unfolding run ask
run-ask [] w t = (t, refl)
run-ask (adds a ∷ cs) w t =
    let (u, e) = run-ask cs w (View.inserted (w.heap a).conn_id a t) in
    (u, rw (add_eq a (with_table w t) refl, ◌>>=◌) e)
run-ask (removes a ∷ cs) w t =
    let (u, e) = run-ask cs w (View.deleted (w.heap a).conn_id t) in
    (u, rw (remove_eq a (with_table w t) refl, ◌>>=◌) e)
run-ask (gets conn_id ∷ cs) w t =
    let (u, e) = run-ask cs w t in
    let (answer, _, _, _) = readers_lem conn_id (with_table w t) (Free-with_table w t) in
    (u, rw (answer, ◌>>=◌) (rw (e, ◌>>=◌) refl))
run-ask (lens ∷ cs) w t =
    let (u, e) = run-ask cs w t in
    let (_, count, _, _) = readers_lem 0 (with_table w t) (Free-with_table w t) in
    (u, rw (count, ◌>>=◌) (rw (e, ◌>>=◌) refl))

-- From a free lock, two tables that answer alike, whatever the order of their entries, give the same
-- answers of `Get` and `Len` to every sequence of calls that adds and removes in between: those of
-- their common view. `GetAllConnID` gives the same numbers in some order.
pub run-Same :
    (cs : List Call) (w : World) (t u : Table)
    → SameEntries t.entries u.entries
    → (after : Table) × (other : Table) × (run cs (with_table w t)
        ≡ returns (ask w.heap cs (Quot.mk t)) (with_table w after))
      × (run cs (with_table w u) ≡ returns (ask w.heap cs (Quot.mk t)) (with_table w other))
      × (get_all_conn_id (with_table w t) ≡ returns (keys t.entries) (with_table w t))
      × (get_all_conn_id (with_table w u) ≡ returns (keys u.entries) (with_table w u))
      × Perm (keys t.entries) (keys u.entries)
run-Same cs w t u h =
    let (after, e) = run-ask cs w t in
    let (other, f) = run-ask cs w u in
    (
      after,
      other,
      e,
      f ∙ ap (λ v. returns (ask w.heap cs v) (with_table w other)) (sym (Quot.sound h)),
      (readers_lem 0 (with_table w t) (Free-with_table w t)).2,
      (readers_lem 0 (with_table w u) (Free-with_table w u)).2,
      keys-Same t.entries u.entries t.is_map u.is_map h,
    )

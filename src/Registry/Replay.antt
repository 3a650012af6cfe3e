-- ===== src/Registry/Replay.antt =====
-- The manager of server/connmanager.go as a client sees it: a map from numbers to connections.
use gts.Base.{
  ℕ, ◌≡◌, refl, ap, ◌∙◌, inl, inr, Bool, false, Option-cases, Option, none, some, List, [], ◌∷◌,
  ◌==◌, if◌then◌else◌,
}
use gts.Base.Map.{
  lookup, insert, delete, IsMap, insert-IsMap, delete-IsMap, lookup-insert, lookup-delete,
}
use gts.Base.Result.{Result, ok, err}
use gts.World.{Connection, World, returns, M, ◌>>=◌, ◌>>◌, pure, update}
use gts.Registry.{ManagerError, connection_not_found, add, remove, get}
use gts.Registry.Laws.{Free, add_eq, remove_eq}

pub data Call : Type 0 where
  adds removes gets : ℕ → Call

-- Calls of the manager in their order, with what `Get` answered.
unfoldable pub run : List Call → M (List (Result ManagerError ℕ))
run [] = pure []
run (adds a ∷ cs) = add a >> run cs
run (removes a ∷ cs) = remove a >> run cs
run (gets conn_id ∷ cs) = do r ← get conn_id; rs ← run cs; pure (r ∷ rs)

abbrev pub answer : Option ℕ → Result ManagerError ℕ
answer (some a) = ok a
answer none = err connection_not_found

-- The same on a function from numbers to connections, with no table and no lock.
abbrev pub replay : (ℕ → Connection) → (ℕ → Option ℕ) → List Call → List (Result ManagerError ℕ)
replay heap f [] = []
replay heap f (adds a ∷ cs) = replay heap (update f (heap a).conn_id (some a)) cs
replay heap f (removes a ∷ cs) = replay heap (update f (heap a).conn_id none) cs
replay heap f (gets conn_id ∷ cs) = answer (f conn_id) ∷ replay heap f cs

get_eq :
    (conn_id : ℕ) (w : World)
    → w.locked ≡ false
    → get conn_id w ≡ returns (answer (lookup conn_id w.connections)) (record w { locked = false })
unfolding get
get_eq conn_id w f = elim (Option-cases (lookup conn_id w.connections)) [
  | inl e ↦ rw (f, e) refl
  | inr (a, e) ↦ rw (f, e) refl
]

-- A run from the table `t` that stands for `f`.
run_from :
    (cs : List Call) (w : World) (t : List (ℕ × ℕ)) (f : ℕ → Option ℕ)
    → IsMap t
    → ((j : ℕ) → lookup j t ≡ f j)
    → (v : World) × (run cs (record w { connections = t; locked = false })
        ≡ returns (replay w.heap f cs) v)
      × Free v
unfolding run
run_from [] w t f m h =
    (record w { connections = t; locked = false }, refl, record { unlocked = refl; table = m })
run_from (adds a ∷ cs) w t f m h =
    let (v, e, free) =
      run_from cs w (insert (w.heap a).conn_id a t) (update f (w.heap a).conn_id (some a))
        (insert-IsMap (w.heap a).conn_id a t m)
        (λ j.
          lookup-insert (w.heap a).conn_id j a t
          ∙ ap (λ (o : Option ℕ). if (w.heap a).conn_id == j then some a else o) (h j)) in
    (v, rw (add_eq a (record w { connections = t; locked = false }) refl, ◌>>=◌) e, free)
run_from (removes a ∷ cs) w t f m h =
    let (v, e, free) =
      run_from cs w (delete (w.heap a).conn_id t) (update f (w.heap a).conn_id none)
        (delete-IsMap (w.heap a).conn_id t m)
        (λ j.
          lookup-delete (w.heap a).conn_id j t m
          ∙ ap (λ (o : Option ℕ). if (w.heap a).conn_id == j then none else o) (h j)) in
    (v, rw (remove_eq a (record w { connections = t; locked = false }) refl, ◌>>=◌) e, free)
run_from (gets conn_id ∷ cs) w t f m h =
    let (v, e, free) = run_from cs w t f m h in
    (
      v,
      rw (get_eq conn_id (record w { connections = t; locked = false }) refl, ◌>>=◌)
          (rw (e, ◌>>=◌, h conn_id) refl),
      free,
    )

-- From a free lock, and with no number twice in the table, every sequence of calls of `Add`, `Remove`
-- and `Get` comes to an end, with the lock free, and `Get` answers as a map from numbers to
-- connections would that `Add` and `Remove` change at the number of their connection only.
pub run-replay :
    (cs : List Call) (w : World)
    → Free w
    → (v : World) × (run cs w ≡ returns (replay w.heap (λ j. lookup j w.connections) cs) v) × Free v
run-replay cs w free =
    let (v, e, after) =
      run_from cs w w.connections (λ j. lookup j w.connections) free.table (λ j. refl) in
    (v, ap (λ (l : Bool). run cs (record w { locked = l })) free.unlocked ∙ e, after)

-- ===== src/Conn/Clear.antt =====
-- `ClearConn` of server/connmanager.go with the `Stop` of server/conn.go.
use gts.Base.{
  ℕ, ◌≡◌, refl, sym, ap, ◌∙◌, ◌⊎◌, inl, inr, Bool-cases, true, false, List, [], ◌∷◌, arith,
}
use gts.Base.Map.{delete}
use gts.World.{
  Checker, unbound, selecting, Connection, World, returns, blocks, ◌>>=◌, at, at-heap, at_self,
  at-locked,
}
use gts.Registry.{clear_entries, clear_conn}
use gts.Conn.{stop}
use gts.Conn.Stop.{stop_closed, stop-Unheard, stop_locked, marked}

-- `Stop` of an open connection of the table by a goroutine that holds the lock never returns, and
-- the lock stays held.
stop_held :
    (w : World) (a : ℕ) (c : Connection) (k : Checker)
    → c.checker ≡ k
    → c.is_closed ≡ false
    → c.has_manager ≡ true
    → w.locked ≡ true
    → (v : World) × (stop a (at w a c) ≡ blocks v) × (v.locked ≡ true)
stop_held w a c unbound k o m h =
    (at w a (marked c), stop_locked w a c (inl k) o m h, at-locked w a (marked c) ∙ h)
stop_held w a c selecting k o m h =
    (at w a (marked c), stop_locked w a c (inr k) o m h, at-locked w a (marked c) ∙ h)
stop_held w a c other k o m h = (
  at w a c,
  stop-Unheard a (at w a c) (ap (λ (d : Connection). d.is_closed) (at-heap w a c) ∙ o)
      (rw (at-heap w a c) (simp k tt)),
  at-locked w a c ∙ h,
)

-- Some connection of a list of entries is open; all have a manager.
abbrev pub SomeOpen : (ℕ → Connection) → List (ℕ × ℕ) → Type 0
SomeOpen heap [] = ⊥
SomeOpen heap ((id, a) ∷ rest) = ((heap a).is_closed ≡ false) ⊎ SomeOpen heap rest

abbrev pub AllManaged : (ℕ → Connection) → List (ℕ × ℕ) → Type 0
AllManaged heap [] = Unit
AllManaged heap ((id, a) ∷ rest) = ((heap a).has_manager ≡ true) × AllManaged heap rest

-- `Stop` of an open connection of the manager, as it stands in the world.
stop_held_self :
    (w : World) (a : ℕ)
    → (w.heap a).is_closed ≡ false
    → (w.heap a).has_manager ≡ true
    → w.locked ≡ true
    → (v : World) × (stop a w ≡ blocks v) × (v.locked ≡ true)
stop_held_self w a o m h =
    let (v, e, l) = stop_held w a (w.heap a) (w.heap a).checker refl o m h in
    (v, ap (stop a) (sym (at_self w a)) ∙ e, l)

open_later :
    (heap : ℕ → Connection) (id a : ℕ) (rest : List (ℕ × ℕ))
    → (heap a).is_closed ≡ true
    → SomeOpen heap ((id, a) ∷ rest)
    → SomeOpen heap rest
open_later heap id a rest c (inl o) = absurd (ground arith)
open_later heap id a rest c (inr later) = later

clear_entries-open :
    (w : World) (entries : List (ℕ × ℕ))
    → w.locked ≡ true
    → AllManaged w.heap entries
    → SomeOpen w.heap entries
    → (v : World) × (clear_entries stop entries w ≡ blocks v) × (v.locked ≡ true)
unfolding clear_entries
clear_entries-open w [] h m s = absurd s
clear_entries-open w ((id, a) ∷ rest) h m s = elim (Bool-cases (w.heap a).is_closed) [
  | inr o ↦ let (v, e, l) = stop_held_self w a o m.0 h in (v, rw (e, ◌>>=◌) refl, l)
  | inl c ↦
      let (v, e, l) =
        clear_entries-open (record w { connections = delete id w.connections }) rest h m.1
          (open_later w.heap id a rest c s) in
      (v, rw (stop_closed a w c, ◌>>=◌) e, l)
]

-- `ClearConn` from a free lock on a table of the manager's connections, of which one is open, never
-- returns: it waits with the lock held, which `Stop` needs for the table. The order in which it
-- ranges over the table does not matter.
pub clear_conn-blocks :
    (w : World)
    → w.locked ≡ false
    → AllManaged w.heap w.connections
    → SomeOpen w.heap w.connections
    → (v : World) × (clear_conn stop w ≡ blocks v) × (v.locked ≡ true)
unfolding clear_conn
clear_conn-blocks w f m s =
    let (v, e, l) = clear_entries-open (record w { locked = true }) w.connections refl m s in
    (v, rw (f, ◌>>=◌) (rw (e, ◌>>=◌) refl), l)

-- The connections of a list of entries are closed.
abbrev pub AllClosed : (ℕ → Connection) → List (ℕ × ℕ) → Type 0
AllClosed heap [] = Unit
AllClosed heap ((id, a) ∷ rest) = ((heap a).is_closed ≡ true) × AllClosed heap rest

delete_head : (id a : ℕ) (rest : List (ℕ × ℕ)) → delete id ((id, a) ∷ rest) ≡ rest
unfolding delete
delete_head id a rest = ground arith

clear_entries-closed :
    (w : World) (entries : List (ℕ × ℕ))
    → w.connections ≡ entries
    → AllClosed w.heap entries
    → clear_entries stop entries w ≡ returns tt (record w { connections = [] })
unfolding clear_entries
clear_entries-closed w [] t c =
    ap (λ (es : List (ℕ × ℕ)). returns tt (record w { connections = es })) t
clear_entries-closed w ((id, a) ∷ rest) t c =
    rw (stop_closed a w c.0, ◌>>=◌)
      (clear_entries-closed (record w { connections = delete id w.connections }) rest
        (ap (delete id) t ∙ delete_head id a rest) c.1)

-- `ClearConn` on a table of connections that are closed already empties it and gives the lock
-- back.
pub clear_conn-closed :
    (w : World)
    → w.locked ≡ false
    → AllClosed w.heap w.connections
    → clear_conn stop w ≡ returns tt (record w { connections = []; locked = false })
unfolding clear_conn
clear_conn-closed w f c =
    rw (f, ◌>>=◌)
      (rw (clear_entries-closed (record w { locked = true }) w.connections refl c, ◌>>=◌) refl)

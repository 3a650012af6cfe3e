-- ===== src/Epoll/Poller.antt =====
-- epoll/epoll.go: descriptors and their connections. What `EpollCtl` and `EpollWait` answer is
-- an argument; the lock is left out, since each operation takes it once and gives it back.
use gts.Base.{
  ℕ, ◌≡◌, refl, Bool, true, false, Option, none, some, List, [], ◌∷◌, map, ◌==◌, if◌then◌else◌,
}
use gts.Base.Map.{lookup, insert, delete, IsMap, lookup-insert, lookup-delete}

pub record Poller : Type 0 where
  pub connections : List (ℕ × ℕ)

-- `EpollCreate1` fails with `false`.
unfoldable pub new_epoll : Bool → Option Poller
new_epoll false = none
new_epoll true = some (record { connections = [] })

-- `Add` and `Remove` return the error of `EpollCtl`, and then leave the map as it is.
unfoldable pub add_fd : Bool → ℕ → ℕ → Poller → Bool × Poller
add_fd false fd conn e = (false, e)
add_fd true fd conn e = (true, record { connections = insert fd conn e.connections })

unfoldable pub remove_fd : Bool → ℕ → Poller → Bool × Poller
remove_fd false fd e = (false, e)
remove_fd true fd e = (true, record { connections = delete fd e.connections })

-- The connections of the ready descriptors; `none` inside is a `nil` connection.
unfoldable pub wait : Option (List ℕ) → Poller → Option (List (Option ℕ))
wait none e = none
wait (some ready) e = some (map (λ fd. lookup fd e.connections) ready)

-- With no descriptor twice in the map: after `Add` an event of the descriptor finds its
-- connection, and after `Remove` it finds none; where `EpollCtl` fails, and for any other
-- descriptor, it finds what it found before.
pub wait_lem :
    (e : Poller) (ctl_ok : Bool) (fd conn other : ℕ)
    → IsMap e.connections
    → (wait (some (other ∷ [])) (add_fd ctl_ok fd conn e).1 ≡ (
        if ctl_ok
        then some ((if fd == other then some conn else lookup other e.connections) ∷ [])
        else wait (some (other ∷ [])) e))
      × (wait (some (other ∷ [])) (remove_fd ctl_ok fd e).1 ≡ (
          if ctl_ok
          then some ((if fd == other then none else lookup other e.connections) ∷ [])
          else wait (some (other ∷ [])) e))
unfolding wait add_fd remove_fd
wait_lem e true fd conn other m = (
  rw (lookup-insert fd other conn e.connections) refl,
  rw (lookup-delete fd other e.connections m) refl,
)
wait_lem e false fd conn other m = (refl, refl)

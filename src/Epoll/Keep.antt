-- ===== src/Epoll/Keep.antt =====
-- `Add` and `Remove` of epoll/connmanger.go as wholes, and the agreement of the two maps.
use gts.Base.{
  ℕ, ◌≡◌, sym, ap, ◌∙◌, subst, ◌⊎◌, inl, inr, Bool, none, some, arith, Option-cases, Bool-cases,
}
use gts.Base.Map.{lookup, IsMap}
use gts.Epoll.{
  Connection, ConnManager, Outcome, returns, waits, len, print_len, put, add, take_out, unlock,
  remove_locked, remove,
}
use gts.Epoll.Watch.{Tracks, put-Tracks, take_out-Tracks}

-- The manager that a call has reached, where it returns and where it waits.
abbrev pub reached {ℓ} : {A : Type ℓ} → Outcome A → ConnManager
reached (returns _ cm) = cm
reached (waits cm) = cm

pub reached-add :
    (ctl_ok : Bool) (conn : Connection) (cm : ConnManager)
    → (reached (add ctl_ok conn cm) ≡ cm)
      ⊎ ((fd : ℕ) × (conn.fd ≡ some fd) × (reached (add ctl_ok conn cm) ≡ put conn fd cm))
unfolding add print_len len put
reached-add ctl_ok conn cm = elim (Option-cases conn.fd) [
  | inl e ↦ inl (ground arith)
  | inr (fd, e) ↦ elim (Bool-cases ctl_ok) [
    | inr off ↦ inl (ground arith)
    | inl on ↦ elim (Bool-cases cm.locked) [
      | inl held ↦ inl (ground arith)
      | inr free ↦ inr (fd, e, ground arith)
    ]
  ]
]

-- Where every descriptor of `fd2conn` leads to a connection that has it, `Add` of a connection with
-- an unused number keeps that so on every branch, also where the descriptor was in use.
pub add-Tracks :
    (ctl_ok : Bool) (conn : Connection) (cm : ConnManager)
    → lookup conn.conn_id cm.connections ≡ none
    → Tracks cm
    → Tracks (reached (add ctl_ok conn cm))
add-Tracks ctl_ok conn cm new t = elim (reached-add ctl_ok conn cm) [
  | inl same ↦ subst Tracks (sym same) t
  | inr (fd, at_fd, e) ↦ subst Tracks (sym e) (put-Tracks cm conn fd at_fd new t)
]

reached-remove :
    (ctl_ok : Bool) (conn : Connection) (cm : ConnManager)
    → (reached (remove ctl_ok conn cm) ≡ cm)
      ⊎ ((fd : ℕ) × (conn.fd ≡ some fd)
          × ((reached (remove ctl_ok conn cm)).connections ≡ (take_out conn fd cm).connections)
          × ((reached (remove ctl_ok conn cm)).fd2conn ≡ (take_out conn fd cm).fd2conn))
unfolding remove remove_locked unlock print_len len take_out
reached-remove ctl_ok conn cm = elim (Bool-cases cm.locked) [
  | inl held ↦ inl (ground arith)
  | inr free ↦ elim (Option-cases conn.fd) [
    | inl e ↦ inl (ground arith)
    | inr (fd, e) ↦ elim (Bool-cases ctl_ok) [
      | inr off ↦ inl (ground arith)
      | inl on ↦ inr (fd, e, ground arith, ground arith)
    ]
  ]
]

-- Whether the maps agree depends on the maps only.
same_maps :
    (x y : ConnManager)
    → y.connections ≡ x.connections
    → y.fd2conn ≡ x.fd2conn
    → Tracks x
    → Tracks y
same_maps x y conns fds t = record {
  owner = λ fd id h.
      let (c, found, at_fd) = t.owner fd id (ap (lookup fd) (sym fds) ∙ h) in
      (c, ap (lookup id) conns ∙ found, at_fd);
}

-- Where every descriptor of `fd2conn` leads to a connection that has it, and neither map holds a key
-- twice, `Remove` of a connection of the table keeps that so in the state in which it returns or
-- waits, on every branch.
pub remove-Tracks :
    (ctl_ok : Bool) (conn : Connection) (cm : ConnManager)
    → IsMap cm.connections
    → IsMap cm.fd2conn
    → lookup conn.conn_id cm.connections ≡ some conn
    → Tracks cm
    → Tracks (reached (remove ctl_ok conn cm))
remove-Tracks ctl_ok conn cm conns_map ids_map held t = elim (reached-remove ctl_ok conn cm) [
  | inl same ↦ subst Tracks (sym same) t
  | inr (fd, at_fd, conns, fds) ↦
      same_maps (take_out conn fd cm) (reached (remove ctl_ok conn cm)) conns fds
        (take_out-Tracks cm conn fd at_fd conns_map ids_map held t)
]

pub data Call : Type 0 where
  adds removes : Connection → Call

unfoldable pub perform : Bool → Call → ConnManager → Outcome (Unit {0})
perform ctl_ok (adds conn) cm = add ctl_ok conn cm
perform ctl_ok (removes conn) cm = remove ctl_ok conn cm

-- A connection that is added has an unused number, one that is removed stands in the table.
abbrev pub IsDue : Call → ConnManager → Type 0
IsDue (adds conn) cm = lookup conn.conn_id cm.connections ≡ none
IsDue (removes conn) cm = lookup conn.conn_id cm.connections ≡ some conn

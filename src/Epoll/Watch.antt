-- ===== src/Epoll/Watch.antt =====
-- The two maps of epoll/connmanger.go: descriptors to numbers, and numbers to connections.
use gts.Base.{ℕ, ◌≡◌, refl, inl, inr, none, some, arith, ◌==◌, Bool-cases}
use gts.Base.Map.{lookup, IsMap, lookup-insert, lookup-delete}
use gts.Epoll.{Connection, ConnManager, put, take_out, conn_id_of, conn_of_event}

-- The descriptor's number leads to a connection that has this descriptor.
abbrev pub Owner : ConnManager → ℕ → ℕ → Type 0
Owner cm fd id = (c : Connection) × (lookup id cm.connections ≡ some c) × (c.fd ≡ some fd)

-- Every descriptor of `fd2conn` leads to its own connection.
pub record Tracks (cm : ConnManager) : Type 0 where
  pub owner : (fd id : ℕ) → lookup fd cm.fd2conn ≡ some id → Owner cm fd id

module _ (cm : ConnManager) (conn : Connection) (fd : ℕ) (at_own : conn.fd ≡ some fd) where
  put-Owner :
      (k id : ℕ)
      → lookup conn.conn_id cm.connections ≡ none
      → Tracks cm
      → lookup k (put conn fd cm).fd2conn ≡ some id
      → Owner (put conn fd cm) k id
  unfolding put
  put-Owner k id new t h =
      let ids = lookup-insert fd k conn.conn_id cm.fd2conn in
      let conns = lookup-insert conn.conn_id id conn cm.connections in
      elim (Bool-cases (fd == k)) [
        | inl same ↦ (conn, ground arith, ground arith)
        | inr other ↦
            let (c, found, at_fd) = t.owner k id (ground arith) in (c, ground arith, at_fd)
      ]

  -- Where every descriptor of `fd2conn` leads to a connection that has it, `Add` of a connection
  -- with an unused number keeps that so, even where the descriptor was in use.
  pub put-Tracks : lookup conn.conn_id cm.connections ≡ none → Tracks cm → Tracks (put conn fd cm)
  put-Tracks new t = record { owner = λ k id h. put-Owner k id new t h }

  take_out-Owner :
      (k id : ℕ)
      → IsMap cm.connections
      → IsMap cm.fd2conn
      → lookup conn.conn_id cm.connections ≡ some conn
      → Tracks cm
      → lookup k (take_out conn fd cm).fd2conn ≡ some id
      → Owner (take_out conn fd cm) k id
  unfolding take_out
  take_out-Owner k id conns_map ids_map held t h =
      let ids = lookup-delete fd k cm.fd2conn ids_map in
      let conns = lookup-delete conn.conn_id id cm.connections conns_map in
      let (c, found, at_fd) = t.owner k id (ground arith) in (c, ground arith, at_fd)

  -- Where every descriptor of `fd2conn` leads to a connection that has it, and neither map holds a
  -- key twice, the deletions of `Remove` of a connection of the table keep that so.
  pub take_out-Tracks :
      IsMap cm.connections
      → IsMap cm.fd2conn
      → lookup conn.conn_id cm.connections ≡ some conn
      → Tracks cm
      → Tracks (take_out conn fd cm)
  take_out-Tracks conns_map ids_map held t = record {
    owner = λ k id h. take_out-Owner k id conns_map ids_map held t h;
  }

-- An event of a tracked descriptor finds the connection that has it.
pub event_finds :
    (cm : ConnManager) (fd id : ℕ)
    → Tracks cm
    → lookup fd cm.fd2conn ≡ some id
    → (c : Connection) × (conn_of_event cm fd ≡ some c) × (c.fd ≡ some fd)
unfolding conn_of_event conn_id_of
event_finds cm fd id t h = let (c, found, at_fd) = t.owner fd id h in (c, rw h found, at_fd)

-- An event of a descriptor that is in no entry finds what the number 0 leads to.
pub event_of_unknown :
    (cm : ConnManager) (fd : ℕ)
    → lookup fd cm.fd2conn ≡ none
    → conn_of_event cm fd ≡ lookup 0 cm.connections
unfolding conn_of_event conn_id_of
event_of_unknown cm fd h = rw h refl

-- ===== src/World.antt =====
-- What the goroutines of server/conn.go, server/connmanager.go and heartbead/heartbeat.go share:
-- connections at addresses, the table of the manager with its lock, and blocking as an outcome.
pub mod Sample
use mathlib.Core.Path.{fun_ext}
use gts.Base.{ℕ, ◌≡◌, refl, ap, ◌≢◌, Bool, true, false, List, arith, ◌==◌, if◌then◌else◌}

-- The goroutine of a connection's heartbeat: none is bound, it has not been started, it waits in
-- its `select`, it runs `check`, or it has returned.
pub data Checker : Type 0 where
  unbound idle selecting checking exited : Checker

-- What a hook or the socket was told, newest last.
pub data Notice : Type 0 where
  on_conn_start on_conn_stop : Notice

pub record Connection : Type 0 where
  pub conn_id : ℕ
  pub is_closed : Bool
  -- `connManager`, `onConnStart` and `onConnStop` are not `nil`.
  pub has_manager : Bool
  pub has_on_start : Bool
  pub has_on_stop : Bool
  -- The socket's `Close` has been called; a second error of it is `close_fails`.
  pub socket_closed : Bool
  pub close_fails : Bool
  -- `cancel` is not `nil`, which `Start` sees to; it has been called.
  pub has_cancel : Bool
  pub ctx_done : Bool
  pub msg_chan : List (List ℕ)
  pub msg_cap : ℕ
  pub property : List (ℕ × ℕ)
  pub checker : Checker
  pub last_activity_time : ℕ
  pub notices : List Notice

pub record World : Type 0 where
  pub heap : ℕ → Connection
  pub connections : List (ℕ × ℕ)
  pub locked : Bool

-- A goroutine returns, or waits for ever in the world that it has reached, or panics, which ends the
-- program.
pub data Outcome {ℓ} (A : Type ℓ) : Type ℓ where
  returns : A → World → Outcome A
  blocks : World → Outcome A
  crashes : Outcome A

abbrev pub M {ℓ} : Type ℓ → Type ℓ
M A = World → Outcome A

infixl 5 ◌>>=◌ ◌>>◌
abbrev pub ◌>>=◌ {ℓ κ} : {A : Type ℓ} {B : Type κ} → M A → (A → M B) → M B
◌>>=◌ m f w = elim (m w) [ returns a v ↦ f a v | blocks v ↦ blocks v | crashes ↦ crashes ]

abbrev pub ◌>>◌ {κ} : {B : Type κ} → M (Unit {0}) → M B → M B
m >> k = m >>= λ _. k

abbrev pub pure {ℓ} : {A : Type ℓ} → A → M A
pure a w = returns a w

abbrev pub wait_for_ever {ℓ} : {A : Type ℓ} → M A
wait_for_ever w = blocks w

abbrev pub crash {ℓ} : {A : Type ℓ} → M A
crash w = crashes

abbrev pub when : Bool → M (Unit {0}) → M (Unit {0})
when true m = m
when false m = pure tt

abbrev pub load : ℕ → M Connection
load a w = returns (w.heap a) w

abbrev pub update {ℓ} : {A : Type ℓ} → (ℕ → A) → ℕ → A → ℕ → A
update f a x b = if a == b then x else f b

-- The world with the connection `c` at the address `a`.
unfoldable pub at : World → ℕ → Connection → World
at w a c = record w { heap = update w.heap a c }

abbrev pub store : ℕ → Connection → M (Unit {0})
store a c w = returns tt (at w a c)

abbrev pub modify : ℕ → (Connection → Connection) → M (Unit {0})
modify a f w = returns tt (at w a (f (w.heap a)))

pub at-heap : (w : World) (a : ℕ) (c : Connection) → (at w a c).heap a ≡ c
unfolding at
at-heap w a c = ground arith

pub at-heap_ne : (w : World) (a b : ℕ) (c : Connection) → a ≢ b → (at w a c).heap b ≡ w.heap b
unfolding at
at-heap_ne w a b c h = ground arith

pub at-locked : (w : World) (a : ℕ) (c : Connection) → (at w a c).locked ≡ w.locked
unfolding at
at-locked w a c = refl

pub at-connections : (w : World) (a : ℕ) (c : Connection) → (at w a c).connections ≡ w.connections
unfolding at
at-connections w a c = refl

update-update :
    (f : ℕ → Connection) (a : ℕ) (c d : Connection) (b : ℕ)
    → update (update f a c) a d b ≡ update f a d b
update-update f a c d b = ground arith

pub at-at : (w : World) (a : ℕ) (c d : Connection) → at (at w a c) a d ≡ at w a d
unfolding at
at-at w a c d =
    ap (λ (h : ℕ → Connection). record w { heap = h }) (fun_ext (update-update w.heap a c d))

-- The same with the table and the lock written in between.
pub at-table :
    (w : World) (a : ℕ) (c d : Connection) (table : List (ℕ × ℕ)) (held : Bool)
    → at (record (at w a c) { connections = table; locked = held }) a d
      ≡ record (at w a d) { connections = table; locked = held }
unfolding at
at-table w a c d table held =
    ap (λ (h : ℕ → Connection). record { heap = h; connections = table; locked = held })
      (fun_ext (update-update w.heap a c d))

update_same : (f : ℕ → Connection) (a b : ℕ) → update f a (f a) b ≡ f b
update_same f a b = ground arith

pub at_self : (w : World) (a : ℕ) → at w a (w.heap a) ≡ w
unfolding at
at_self w a = ap (λ (h : ℕ → Connection). record w { heap = h }) (fun_ext (update_same w.heap a))

pub ruleset at_laws = (at-heap, at-locked, at-connections, at-at, at-table)

-- ===== src/FuncPool/Quiet.antt =====
-- The pool of pool/gpool_with_func.go when nobody is on the way.
use gts.Base.{
  ℕ, ◌+◌, ◌<◌, ◌^◌, ◌≡◌, refl, ap, Bool, true, false, Option, none, some, List, [], ◌∷◌, arith,
  length, count, Option-cases, inl, inr, if◌then◌else◌,
}
use gts.Base.Int.{ℤ, pos, negsuc}
use gts.Base.Result.{ok}
use gts.Pool.Awake.{StaysOpen, Awake, new_pool-Reaches-Awake}
use gts.FuncPool.{
  GPoolWithFunc, empty_pool, new_pool_with_func, invoke, retrieve, park, spawn, wake, work, revert,
  put_back, exit, finish_release, retire, send_signal, send_broadcast, finish_purge, reboot, tune,
  purge,
}
use gts.FuncPool.Steps.{
  Event, Reaches, here, next, step, at_place, take_at, invokes, retrieves, parks, spawns, wakes,
  works, reverts, exits, releases, finishes_release, reboots, puts_back, tunes, purges, retires,
  sends_signal, sends_broadcast, finishes_purge,
}
use gts.FuncPool.Forget.{forget}
use gts.FuncPool.Refine.{erase, new_pool_with_func-Reaches-forget}
use gts.FuncPool.Conserve.{Conserved, new_pool_with_func-Reaches-Conserved}

nil_of_length {ℓ} : {B : Type ℓ} (xs : List B) → length xs ≡ 0 → xs ≡ []
nil_of_length [] h = refl
nil_of_length (x ∷ xs) h = absurd (ground arith)

-- The events of a pool that nobody releases.
abbrev pub IsKept {ℓ} : {A : Type ℓ} → GPoolWithFunc A → Event A → Type 0
IsKept p e = StaysOpen (forget p) (erase p e)

-- No call and no worker is between two points of the code: workers wait for arguments or calls for
-- workers.
pub record Quiet {ℓ} {A : Type ℓ} (p : GPoolWithFunc A) : Type ℓ where
  pub entering : p.entering ≡ []
  pub parking : p.parking ≡ []
  pub woken : p.woken ≡ []
  pub spawning : p.spawning ≡ []
  pub busy : p.busy ≡ []
  pub returning : p.returning ≡ 0
  pub inserting : p.inserting ≡ 0
  pub retiring : p.retiring ≡ 0
  pub exiting : p.exiting ≡ 0
  pub signalling : p.signalling ≡ 0
  pub broadcasting : p.broadcasting ≡ 0

-- The pool is open, and no call was refused.
abbrev pub IsAccepting {ℓ} : {A : Type ℓ} → GPoolWithFunc A → Type ℓ
IsAccepting p = (p.closed ≡ false) × (p.rejected ≡ [])

module _ {ℓ} {A : Type ℓ} where
  at_place_preserves {κ μ} :
      {B : Type κ} (P : GPoolWithFunc A → Type μ) (i : ℕ) (xs : List B)
      (act : B → List B → GPoolWithFunc A → GPoolWithFunc A) (p : GPoolWithFunc A)
      → P p
      → ((x : B) (others : List B) → P (act x others p))
      → P (at_place i xs act p)
  unfolding at_place
  at_place_preserves P i xs act p h k = elim (Option-cases (take_at i xs)) [
    | inl e ↦ rw (at_place, e) h
    | inr (y, e) ↦ rw (at_place, e) (k y.0 y.1)
  ]

  work-IsAccepting :
      (panics : Bool) (arg : Option A) (others : List (Option A)) (p : GPoolWithFunc A)
      → IsAccepting p
      → IsAccepting (work panics arg others p)
  unfolding work
  work-IsAccepting panics none others p a = a
  work-IsAccepting true (some x) others p a = a
  work-IsAccepting false (some x) others p a = a

  step-IsAccepting :
      (p : GPoolWithFunc A) (e : Event A) → IsAccepting p → IsKept p e → IsAccepting (step p e)
  unfolding step
  step-IsAccepting p (invokes arg) a k = unfold invoke in ground arith
  step-IsAccepting p (retrieves i) a k =
      at_place_preserves IsAccepting i p.entering retrieve p a
        λ x others. unfold retrieve in ground arith
  step-IsAccepting p (parks i) a k =
      at_place_preserves IsAccepting i p.parking park p a λ x others. unfold park in ground arith
  step-IsAccepting p (spawns i) a k =
      at_place_preserves IsAccepting i p.spawning spawn p a λ x others. unfold spawn in ground arith
  step-IsAccepting p (wakes i) a k =
      at_place_preserves IsAccepting i p.woken wake p a λ x others. unfold wake in ground arith
  step-IsAccepting p (works panics i) a k =
      at_place_preserves IsAccepting i p.busy (work panics) p a
        λ x others. work-IsAccepting panics x others p a
  step-IsAccepting p reverts a k = unfold revert in ground arith
  step-IsAccepting p exits a k = unfold exit in ground arith
  step-IsAccepting p retires a k = unfold retire in ground arith
  step-IsAccepting p sends_signal a k = unfold send_signal in ground arith
  step-IsAccepting p sends_broadcast a k = unfold send_broadcast in ground arith
  step-IsAccepting p finishes_purge a k = unfold finish_purge in ground arith
  step-IsAccepting p releases a k = absurd k
  step-IsAccepting p finishes_release a k = unfold finish_release in ground arith
  step-IsAccepting p reboots a k = unfold reboot in ground arith
  step-IsAccepting p (puts_back now) a k = unfold put_back in ground arith
  step-IsAccepting p (tunes (negsuc n)) a k = unfold tune in ground arith
  step-IsAccepting p (tunes (pos n)) a k = unfold tune in ground arith
  step-IsAccepting p (purges duration now) a k = unfold purge in ground arith

  Reaches-IsAccepting : {p q : GPoolWithFunc A} → IsAccepting p → Reaches IsKept p q → IsAccepting q
  Reaches-IsAccepting a here = a
  Reaches-IsAccepting a (next {q = q} e r h k) = step-IsAccepting q e (Reaches-IsAccepting a r) k

  no_waiter :
      (p : GPoolWithFunc A) → Quiet p → Awake (forget p) → 0 < p.running → length p.blocked ≡ 0
  no_waiter p t w r = ground (
    arith,
    w.awake,
    ap length t.woken,
    ap length t.spawning,
    ap length t.busy,
    t.returning,
    t.inserting,
    t.exiting,
    t.retiring,
    t.signalling,
    t.broadcasting,
  )

  new-IsAccepting :
      (size : ℤ) (p : GPoolWithFunc A) → new_pool_with_func size ≡ ok p → IsAccepting p
  unfolding new_pool_with_func empty_pool
  new-IsAccepting size p e = ground arith

  settle :
      (test : Option A → Bool) (p : GPoolWithFunc A)
      → Conserved test p
      → Quiet p
      → p.blocked ≡ []
      → p.rejected ≡ []
      → count test p.invoked
        ≡ count (λ a. test (some a)) p.handled + (if test none then p.ended else 0)
  settle test p c t b r = ground (
    arith,
    c,
    ap (count test) t.entering,
    ap (count test) t.parking,
    ap (count test) t.woken,
    ap (count test) t.spawning,
    ap (count test) t.busy,
    ap (count test) b,
    ap (count test) r,
  )

  -- A new pool with one function that nobody releases, once some worker runs and neither a call nor a
  -- worker is on its way, has given every argument that is not `nil` to `poolFunc` as often as it
  -- was given to `Invoke`, and ended a worker for each `nil`; no call is left waiting. Sizes are
  -- positive `int32` values.
  pub new_pool_with_func-Reaches-Quiet :
      (test : Option A → Bool) (n : ℕ) {p q : GPoolWithFunc A}
      → 0 < n
      → n < 2 ^ 31
      → new_pool_with_func (pos n) ≡ ok p
      → Reaches IsKept p q
      → Quiet q
      → 0 < q.running
      → (count test q.invoked
          ≡ count (λ a. test (some a)) q.handled + (if test none then q.ended else 0))
        × (q.blocked ≡ [])
  new_pool_with_func-Reaches-Quiet test n {p} {q} some_size fits e r t working =
      let (made, run) = new_pool_with_func-Reaches-forget (pos n) {Allowed = StaysOpen} e r in
      let awake = new_pool-Reaches-Awake n some_size fits made run in
      let unblocked = nil_of_length q.blocked (no_waiter q t awake working) in
      let conserved = new_pool_with_func-Reaches-Conserved test (pos n) e r in
      let accepted = Reaches-IsAccepting (new-IsAccepting (pos n) p e) r in
      (settle test q conserved t unblocked accepted.1, unblocked)

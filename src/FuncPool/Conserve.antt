-- ===== src/FuncPool/Conserve.antt =====
-- What becomes of the arguments of `Invoke` in pool/gpool_with_func.go.
use gts.Base.{
  ℕ, ◌+◌, ◌≡◌, Bool, true, false, Option, none, some, List, [], ◌∷◌, arith, count, count-append,
  if◌then◌else◌,
}
use gts.Base.Int.{ℤ, pos, negsuc}
use gts.Base.Result.{ok}
use gts.FuncPool.{
  GPoolWithFunc, empty_pool, new_pool_with_func, invoke, retrieve, park, spawn, wake, work, revert,
  put_back, exit, release, finish_release, retire, send_signal, send_broadcast, finish_purge,
  reboot, tune, purge, signal,
}
use gts.FuncPool.Steps.{
  Event, Reaches, here, next, is_enabled, step, invokes, retrieves, parks, spawns, wakes, works,
  reverts, exits, releases, finishes_release, reboots, puts_back, tunes, purges, retires,
  sends_signal, sends_broadcast, finishes_purge,
}
use gts.FuncPool.Refine.{take_at-Placed, at_place-eq}

module _ {ℓ} {A : Type ℓ} (test : Option A → Bool) where
  -- The calls whose argument passes the test and that have not come to an end.
  abbrev pub pending : GPoolWithFunc A → ℕ
  pending p =
      count test p.entering
      + count test p.parking
      + count test p.blocked
      + count test p.woken
      + count test p.spawning
      + count test p.busy

  -- Those that have: with an error, with a call of `poolFunc`, or, for `nil`, with a worker ended.
  abbrev pub settled : GPoolWithFunc A → ℕ
  settled p =
      count test p.rejected
      + count (λ a. test (some a)) p.handled
      + (if test none then p.ended else 0)

  abbrev pub Conserved : GPoolWithFunc A → Type 0
  Conserved p = count test p.invoked ≡ pending p + settled p

  module _ (p : GPoolWithFunc A) (c : Conserved p) where
    signal-Conserved : Conserved (signal p)
    unfolding signal
    signal-Conserved = ground arith

    invoke-Conserved : (arg : Option A) → Conserved (invoke arg p)
    unfolding invoke
    invoke-Conserved arg = ground arith

    retrieve-Conserved :
        (arg : Option A) (others : List (Option A))
        → count test p.entering ≡ (if test arg then 1 else 0) + count test others
        → Conserved (retrieve arg others p)
    unfolding retrieve
    retrieve-Conserved arg others h = ground arith

    park-Conserved :
        (arg : Option A) (others : List (Option A))
        → count test p.parking ≡ (if test arg then 1 else 0) + count test others
        → Conserved (park arg others p)
    unfolding park
    park-Conserved arg others h = ground (arith, count-append test p.blocked (arg ∷ []))

    spawn-Conserved :
        (arg : Option A) (others : List (Option A))
        → count test p.spawning ≡ (if test arg then 1 else 0) + count test others
        → Conserved (spawn arg others p)
    unfolding spawn
    spawn-Conserved arg others h = ground arith

    wake-Conserved :
        (arg : Option A) (others : List (Option A))
        → count test p.woken ≡ (if test arg then 1 else 0) + count test others
        → Conserved (wake arg others p)
    unfolding wake
    wake-Conserved arg others h = ground arith

    work-Conserved :
        (panics : Bool) (arg : Option A) (others : List (Option A))
        → count test p.busy ≡ (if test arg then 1 else 0) + count test others
        → Conserved (work panics arg others p)
    unfolding work
    work-Conserved panics none others h = ground arith
    work-Conserved true (some a) others h = ground arith
    work-Conserved false (some a) others h = ground arith

    revert-Conserved : Conserved (revert p)
    unfolding revert
    revert-Conserved = ground (arith, count-append test p.woken p.blocked)

    put_back-Conserved : (now : ℕ) → Conserved (put_back now p)
    unfolding put_back
    put_back-Conserved now = ground arith

    exit-Conserved : Conserved (exit p)
    unfolding exit
    exit-Conserved = ground arith

    retire-Conserved : Conserved (retire p)
    unfolding retire
    retire-Conserved = ground (arith, count-append test p.woken p.blocked)

    send_signal-Conserved : Conserved (send_signal p)
    unfolding send_signal
    send_signal-Conserved = ground (arith, count-append test p.woken p.blocked)

    send_broadcast-Conserved : Conserved (send_broadcast p)
    unfolding send_broadcast
    send_broadcast-Conserved = ground (arith, count-append test p.woken p.blocked)

    finish_purge-Conserved : Conserved (finish_purge p)
    unfolding finish_purge
    finish_purge-Conserved = ground (arith, count-append test p.woken p.blocked)

    release-Conserved : Conserved (release p)
    unfolding release
    release-Conserved = ground arith

    finish_release-Conserved : Conserved (finish_release p)
    unfolding finish_release
    finish_release-Conserved = ground (arith, count-append test p.woken p.blocked)

    tune-Conserved : (size : ℤ) → Conserved (tune size p)
    unfolding tune
    tune-Conserved (negsuc n) = c
    tune-Conserved (pos n) = ground (arith, count-append test p.woken p.blocked)

    purge-Conserved : (duration now : ℕ) → Conserved (purge duration now p)
    unfolding purge
    purge-Conserved duration now = ground (arith, count-append test p.woken p.blocked)

  step-Conserved :
      (p : GPoolWithFunc A) (e : Event A)
      → Conserved p
      → is_enabled p e ≡ true
      → Conserved (step p e)
  unfolding is_enabled step
  step-Conserved p (invokes arg) c h = invoke-Conserved p c arg
  step-Conserved p (retrieves i) c h =
      let t = take_at-Placed i p.entering (ground arith) in
      rw (at_place-eq i p.entering retrieve p t)
        (retrieve-Conserved p c t.taken t.others (t.weighed test))
  step-Conserved p (parks i) c h =
      let t = take_at-Placed i p.parking h in
      rw (at_place-eq i p.parking park p t) (park-Conserved p c t.taken t.others (t.weighed test))
  step-Conserved p (spawns i) c h =
      let t = take_at-Placed i p.spawning h in
      rw (at_place-eq i p.spawning spawn p t)
        (spawn-Conserved p c t.taken t.others (t.weighed test))
  step-Conserved p (wakes i) c h =
      let t = take_at-Placed i p.woken (ground arith) in
      rw (at_place-eq i p.woken wake p t) (wake-Conserved p c t.taken t.others (t.weighed test))
  step-Conserved p (works panics i) c h =
      let t = take_at-Placed i p.busy h in
      rw (at_place-eq i p.busy (work panics) p t)
        (work-Conserved p c panics t.taken t.others (t.weighed test))
  step-Conserved p reverts c h = revert-Conserved p c
  step-Conserved p exits c h = exit-Conserved p c
  step-Conserved p retires c h = retire-Conserved p c
  step-Conserved p sends_signal c h = send_signal-Conserved p c
  step-Conserved p sends_broadcast c h = send_broadcast-Conserved p c
  step-Conserved p finishes_purge c h = finish_purge-Conserved p c
  step-Conserved p releases c h = release-Conserved p c
  step-Conserved p finishes_release c h = finish_release-Conserved p c
  step-Conserved p reboots c h = unfold reboot in c
  step-Conserved p (puts_back now) c h = put_back-Conserved p c now
  step-Conserved p (tunes size) c h = tune-Conserved p c size
  step-Conserved p (purges duration now) c h = purge-Conserved p c duration now

  Reaches-Conserved {κ} :
      {Allowed : GPoolWithFunc A → Event A → Type κ} {p q : GPoolWithFunc A}
      → Conserved p
      → Reaches Allowed p q
      → Conserved q
  Reaches-Conserved c here = c
  Reaches-Conserved c (next {q = q} e r h a) = step-Conserved q e (Reaches-Conserved c r) h

  -- In every interleaving of calls on a new pool with one function, no argument of `Invoke` is lost
  -- or handed out twice: of the arguments that pass a test, as many were given to `Invoke` as are on
  -- their way, were refused with an error, were given to `poolFunc`, or, where they are `nil`, ended
  -- a worker without a call of `poolFunc`.
  pub new_pool_with_func-Reaches-Conserved {κ} :
      (size : ℤ) {Allowed : GPoolWithFunc A → Event A → Type κ} {p q : GPoolWithFunc A}
      → new_pool_with_func size ≡ ok p
      → Reaches Allowed p q
      → Conserved q
  unfolding new_pool_with_func empty_pool
  new_pool_with_func-Reaches-Conserved size e r = Reaches-Conserved (ground arith) r

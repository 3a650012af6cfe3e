-- ===== src/FuncPool/Forget.antt =====
-- The pool of pool/gpool_with_func.go without its arguments is the pool of pool/gpool.go.
use gts.Base.{
  ℕ, suc, ◌+◌, ◌≡◌, refl, Bool, true, false, Option, none, some, List, [], ◌∷◌, arith, length,
  length-append,
}
use gts.Base.Int.{ℤ, pos, negsuc}
use gts.Pool
use gts.Pool.{GPool}
use gts.Pool.Steps
use gts.FuncPool.{
  GPoolWithFunc, invoke, retrieve, park, spawn, wake, work, revert, put_back, exit, release,
  finish_release, retire, send_signal, send_broadcast, finish_purge, tune, purge, signal, broadcast,
}

-- The arguments are forgotten, and the calls counted.
abbrev pub forget {ℓ} : {A : Type ℓ} → GPoolWithFunc A → GPool
forget p = record {
  cap = p.cap;
  running = p.running;
  closed = p.closed;
  workers = p.workers;
  parking = length p.parking;
  blocked = length p.blocked;
  woken = length p.woken;
  entering = length p.entering;
  spawning = length p.spawning;
  busy = length p.busy;
  returning = p.returning;
  inserting = p.inserting;
  exiting = p.exiting;
  retiring = p.retiring;
  signalling = p.signalling;
  broadcasting = p.broadcasting;
  dormant = p.dormant;
  releasing = p.releasing;
  submitted = length p.invoked;
  rejected = length p.rejected;
  done = length p.handled + p.ended;
}

module _ {ℓ} {A : Type ℓ} (p : GPoolWithFunc A) where
  signal-forget : forget (signal p) ≡ Pool.signal (forget p)
  unfolding signal Pool.signal
  signal-forget = ground arith

  broadcast-forget : forget (broadcast p) ≡ Pool.broadcast (forget p)
  unfolding broadcast Pool.broadcast
  broadcast-forget = ground (arith, length-append p.woken p.blocked)

  pub invoke-forget : (arg : Option A) → forget (invoke arg p) ≡ Pool.submit (forget p)
  unfolding invoke Pool.submit
  invoke-forget arg = ground arith

  pub retrieve-forget :
      (arg : Option A) (others : List (Option A))
      → length p.entering ≡ suc (length others)
      → forget (retrieve arg others p) ≡ Pool.retrieve (forget p)
  unfolding retrieve Pool.retrieve
  retrieve-forget arg others h = ground arith

  pub park-forget :
      (arg : Option A) (others : List (Option A))
      → length p.parking ≡ suc (length others)
      → forget (park arg others p) ≡ Pool.park (forget p)
  unfolding park Pool.park
  park-forget arg others h = ground (arith, length-append p.blocked (arg ∷ []))

  pub wake-forget :
      (arg : Option A) (others : List (Option A))
      → length p.woken ≡ suc (length others)
      → forget (wake arg others p) ≡ Pool.wake (forget p)
  unfolding wake Pool.wake
  wake-forget arg others h = ground arith

  pub spawn-forget :
      (arg : Option A) (others : List (Option A))
      → length p.spawning ≡ suc (length others)
      → forget (spawn arg others p) ≡ Pool.spawn (forget p)
  unfolding spawn Pool.spawn
  spawn-forget arg others h = ground arith

  pub revert-forget : forget (revert p) ≡ Pool.revert (forget p)
  unfolding revert Pool.revert
  revert-forget = ground (arith, length-append p.woken p.blocked)

  pub put_back-forget : (now : ℕ) → forget (put_back now p) ≡ Pool.put_back now (forget p)
  unfolding put_back Pool.put_back
  put_back-forget now = ground arith

  pub exit-forget : forget (exit p) ≡ Pool.exit (forget p)
  unfolding exit Pool.exit
  exit-forget = ground arith

  pub retire-forget : forget (retire p) ≡ Pool.retire (forget p)
  unfolding retire Pool.retire
  retire-forget = ground (arith, length-append p.woken p.blocked)

  pub send_signal-forget : forget (send_signal p) ≡ Pool.send_signal (forget p)
  unfolding send_signal Pool.send_signal
  send_signal-forget = ground arith

  pub send_broadcast-forget : forget (send_broadcast p) ≡ Pool.send_broadcast (forget p)
  unfolding send_broadcast Pool.send_broadcast
  send_broadcast-forget = ground (arith, length-append p.woken p.blocked)

  pub finish_purge-forget : forget (finish_purge p) ≡ Pool.finish_purge (forget p)
  unfolding finish_purge Pool.finish_purge
  finish_purge-forget = ground (arith, length-append p.woken p.blocked)

  pub release-forget : forget (release p) ≡ Pool.release (forget p)
  unfolding release Pool.release
  release-forget = ground arith

  pub finish_release-forget : forget (finish_release p) ≡ Pool.finish_release (forget p)
  unfolding finish_release Pool.finish_release
  finish_release-forget = ground (arith, length-append p.woken p.blocked)

  pub tune-forget : (size : ℤ) → forget (tune size p) ≡ Pool.tune size (forget p)
  unfolding tune Pool.tune
  tune-forget (negsuc n) = refl
  tune-forget (pos n) = ground (arith, length-append p.woken p.blocked)

  pub purge-forget :
      (duration now : ℕ) → forget (purge duration now p) ≡ Pool.purge duration now (forget p)
  unfolding purge Pool.purge
  purge-forget duration now = ground (arith, length-append p.woken p.blocked)

-- What the step of a worker is in pool/worker.go: a task that ends the worker, or one that does not.
abbrev pub work_event {ℓ} : {A : Type ℓ} → Bool → Option A → Steps.Event
work_event panics none = Steps.panics
work_event true (some a) = Steps.panics
work_event false (some a) = Steps.completes

pub work-forget {ℓ} :
    {A : Type ℓ} (p : GPoolWithFunc A) (panics : Bool) (arg : Option A) (others : List (Option A))
    → length p.busy ≡ suc (length others)
    → forget (work panics arg others p) ≡ Steps.step (forget p) (work_event panics arg)
unfolding work Steps.step Pool.panic Pool.complete
work-forget p panics none others h = ground arith
work-forget p true (some a) others h = ground arith
work-forget p false (some a) others h = ground arith

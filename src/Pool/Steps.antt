-- ===== src/Pool/Steps.antt =====
-- The interleavings of pool/gpool.go and pool/worker.go.
use gts.Base.{ℕ, ◌≡◌, Bool, true, ◌&&◌, Option, none, some, List, [], ◌∷◌, ltb, ◌==◌, if◌then◌else◌}
use gts.Base.Int.{ℤ}
use gts.Pool.{
  GPool, submit, retrieve, park, spawn, wake, complete, panic, revert, put_back, exit, release,
  finish_release, reboot, tune, purge, retire, send_signal, send_broadcast, finish_purge,
}

pub data Event : Type 0 where
  submits retrieves parks spawns wakes completes panics reverts exits : Event
  releases finishes_release reboots : Event
  retires sends_signal sends_broadcast finishes_purge : Event
  puts_back : ℕ → Event
  tunes : ℤ → Event
  purges : ℕ → ℕ → Event

-- The step with its goroutine at hand, and with the lock free where the code takes it.
unfoldable pub is_enabled : GPool → Event → Bool
is_enabled p submits = true
is_enabled p retrieves = ltb 0 p.entering && p.parking == 0
is_enabled p parks = ltb 0 p.parking
is_enabled p spawns = ltb 0 p.spawning
is_enabled p wakes = ltb 0 p.woken && p.parking == 0
is_enabled p completes = ltb 0 p.busy
is_enabled p panics = ltb 0 p.busy
is_enabled p reverts = ltb 0 p.returning
is_enabled p exits = ltb 0 p.exiting
is_enabled p releases = true
is_enabled p finishes_release = ltb 0 p.releasing && p.parking == 0
is_enabled p reboots = true
is_enabled p retires = ltb 0 p.retiring
is_enabled p sends_signal = ltb 0 p.signalling
is_enabled p sends_broadcast = ltb 0 p.broadcasting
is_enabled p finishes_purge = ltb 0 p.dormant
is_enabled p (puts_back now) = ltb 0 p.inserting && p.parking == 0
is_enabled p (tunes size) = true
is_enabled p (purges duration now) = p.parking == 0

unfoldable pub step : GPool → Event → GPool
step p submits = submit p
step p retrieves = retrieve p
step p parks = park p
step p spawns = spawn p
step p wakes = wake p
step p completes = complete p
step p panics = panic p
step p reverts = revert p
step p exits = exit p
step p releases = release p
step p finishes_release = finish_release p
step p reboots = reboot p
step p retires = retire p
step p sends_signal = send_signal p
step p sends_broadcast = send_broadcast p
step p finishes_purge = finish_purge p
step p (puts_back now) = put_back now p
step p (tunes size) = tune size p
step p (purges duration now) = purge duration now p

-- The pools that enabled events of a kind lead to.
pub data Reaches {ℓ} (Allowed : GPool → Event → Type ℓ) (p : GPool) : GPool → Type ℓ where
  here : Reaches Allowed p p
  next :
      {q : GPool} (e : Event)
      → Reaches Allowed p q
      → is_enabled q e ≡ true
      → Allowed q e
      → Reaches Allowed p (step q e)

-- A run of given events; `none` where one of them is not enabled.
unfoldable pub run : GPool → List Event → Option GPool
unfolding is_enabled step
run p [] = some p
run p (e ∷ es) = let rest = run (step p e) es in if is_enabled p e then rest else none

-- ===== src/Pool/Stuck.antt =====
-- Submitters of pool/gpool.go that meet `Release`.
use gts.Base.{ℕ, ◌+◌, ◌≡◌, true, arith}
use gts.Pool.{GPool, submit, release, purge}
use gts.Pool.Steps.{
  Event, Reaches, here, next, is_enabled, step, submits, releases, reboots, tunes, purges,
}

-- Nobody calls `Reboot` or `Tune`.
abbrev pub Unrescued : GPool → Event → Type 0
Unrescued p reboots = ⊥
Unrescued p (tunes size) = ⊥
Unrescued p _ = Unit

-- A closed pool in which `n` submitters wait and nobody else is on the way.
pub record Stranded (n : ℕ) (p : GPool) : Type 0 where
  pub is_closed : p.closed ≡ true
  pub waiters : p.blocked ≡ n
  pub nobody :
      p.entering + p.spawning + p.parking + p.woken + p.busy + p.returning + p.inserting
        + p.retiring + p.exiting + p.signalling + p.broadcasting + p.dormant + p.releasing
      ≡ 0

step-Stranded :
    (n : ℕ) (p : GPool) (e : Event)
    → Stranded n p
    → is_enabled p e ≡ true
    → Unrescued p e
    → Stranded n (step p e)
unfolding step is_enabled submit release purge
step-Stranded n p reboots s h f = elim f [ ]
step-Stranded n p (tunes size) s h f = elim f [ ]
step-Stranded n p submits s h f = ground arith
step-Stranded n p releases s h f = ground arith
step-Stranded n p (purges duration now) s h f = ground arith
step-Stranded n p _ s h f = absurd (ground arith)

-- Submitters that wait in a closed pool with no worker left are never woken, whatever calls of
-- `Submit` and `Release` follow and however often the purge comes round, while nobody calls
-- `Reboot` or `Tune`.
pub Reaches-Stranded : (n : ℕ) {p q : GPool} → Stranded n p → Reaches Unrescued p q → Stranded n q
Reaches-Stranded n s here = s
Reaches-Stranded n s (next {q = q} e r h f) = step-Stranded n q e (Reaches-Stranded n s r) h f

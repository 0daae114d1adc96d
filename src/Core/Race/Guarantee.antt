-- ===== src/Core/Race/Guarantee.antt =====
-- internal/core/carrier.go under interleaving: what each step leaves to the other goroutines.
use dllog.Base.{ℕ, ◌≢◌, Option, some, none, arith}
use dllog.Core.Types.{Box}
use dllog.Core.SyncPool.{SyncPool}
use dllog.Core.Carrier.{Entry}
use dllog.Core.Race.{
  Shared, Pc, advance, take, flush_step, close_step, idle, bind_acquire, bind_store, bind_release,
  append_to, pass_load, pass_locked, mark_release, flush_trip, close_release, close_scope,
}
use dllog.Core.Race.Defs.{Local, Global, Guarantee}

module _ {E O : Type 0} {sync : SyncPool (Box (Option E))} (ops : Entry E O) where
  -- A step of goroutine `j` from where it stands leaves the others what they know.
  pub advance-Guarantee :
      (j : ℕ) (p : Pc E O) (m : Shared E O sync)
      → Global m
      → Local j p m
      → Guarantee j m (advance ops j p m).0
  unfolding advance take flush_step close_step
  advance-Guarantee j idle m g l = ground arith
  advance-Guarantee j (bind_acquire ref k) m g l = ground arith
  advance-Guarantee j (bind_store k r) m g l = ground arith
  advance-Guarantee j p m g l = ground arith

module _ {E O : Type 0} {sync : SyncPool (Box (Option E))} where
  -- What a goroutine knows survives a step of another.
  pub Guarantee-Local :
      (i j : ℕ) (p : Pc E O) (m m' : Shared E O sync)
      → i ≢ j
      → Guarantee j m m'
      → Local i p m
      → Local i p m'
  Guarantee-Local i j idle m m' ne g l = tt
  Guarantee-Local i j (bind_release k none) m m' ne g l = ground (
    arith,
    g.keeps_lock i ne,
    g.keeps_unset i ne,
    g.keeps_closed i ne,
    g.keeps_pre i ne,
    g.keeps_made i ne,
  )
  Guarantee-Local i j (bind_release k (some r)) m m' ne g l = ground (
    arith,
    g.keeps_lock i ne,
    g.keeps_unset i ne,
    g.keeps_closed i ne,
    g.keeps_pre i ne,
    g.keeps_made i ne,
    g.keeps_scope r,
  )
  Guarantee-Local i j (append_to e r) m m' ne g l = g.keeps_scope r l
  Guarantee-Local i j (pass_load r) m m' ne g l = g.keeps_scope r l
  Guarantee-Local i j (pass_locked r) m m' ne g l = g.keeps_scope r l
  Guarantee-Local i j (mark_release none) m m' ne g l = ground (
    arith,
    g.keeps_lock i ne,
    g.keeps_unset i ne,
    g.keeps_closed i ne,
    g.keeps_pre i ne,
    g.keeps_made i ne,
  )
  Guarantee-Local i j (mark_release (some r)) m m' ne g l = ground (
    arith,
    g.keeps_lock i ne,
    g.keeps_unset i ne,
    g.keeps_closed i ne,
    g.keeps_pre i ne,
    g.keeps_made i ne,
    g.keeps_scope r,
  )
  Guarantee-Local i j (flush_trip r) m m' ne g l = g.keeps_scope r l
  Guarantee-Local i j (close_release none) m m' ne g l = ground (
    arith,
    g.keeps_lock i ne,
    g.keeps_unset i ne,
    g.keeps_closed i ne,
    g.keeps_pre i ne,
    g.keeps_made i ne,
  )
  Guarantee-Local i j (close_release (some r)) m m' ne g l = ground (
    arith,
    g.keeps_lock i ne,
    g.keeps_unset i ne,
    g.keeps_closed i ne,
    g.keeps_pre i ne,
    g.keeps_made i ne,
    g.keeps_scope r,
  )
  Guarantee-Local i j (close_scope r) m m' ne g l = g.keeps_scope r l
  Guarantee-Local i j p m m' ne g l = ground (
    arith,
    g.keeps_lock i ne,
    g.keeps_unset i ne,
    g.keeps_closed i ne,
    g.keeps_pre i ne,
    g.keeps_made i ne,
    g.keeps_fresh i ne,
  )

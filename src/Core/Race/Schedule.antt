-- ===== src/Core/Race/Schedule.antt =====
-- internal/core/carrier.go under interleaving: states that are reached, by running a schedule.
use dllog.Base.{ℕ, ◌≡◌, refl, List, [], ◌∷◌, Option, some, none}
use dllog.Core.Types.{Box}
use dllog.Core.SyncPool.{SyncPool}
use dllog.Core.Pool.{Pool}
use dllog.Core.Carrier.{Entry}
use dllog.Core.Race.{Pc, Call, System, Reach, start, begin, move, here, next, idle}

-- A goroutine, and the call that it begins; without one it takes its next step.
abbrev pub Turn : Type 0 → Type 0
Turn E = ℕ × Option (Call E)

module _ {E O : Type 0} (sync : SyncPool (Box (Option E))) (ops : Entry E O)
    (pools : List (Pool {T = Option E} none sync)) where
  pub record Run : Type 0 where
    pub last : System E O sync
    pub reach : Reach ops (start pools) last

  begin_at : (r : Run) (i : ℕ) → Call E → (p : Pc E O) → r.last.pc i ≡ p → Run
  begin_at r i c idle e = record { last = _; reach = next r.reach (begin i c e) }
  begin_at r i c p e = r

  turn : Run → Turn E → Run
  unfolding begin_at
  turn r (i, none) = record { last = _; reach = next r.reach (move i) }
  turn r (i, some c) = begin_at r i c (r.last.pc i) refl

  turns : Run → List (Turn E) → Run
  unfolding turn
  turns r [] = r
  turns r (t ∷ ts) = turns (turn r t) ts

  unfoldable pub run : List (Turn E) → Run
  unfolding turns
  run = turns (record { last = start pools; reach = here })

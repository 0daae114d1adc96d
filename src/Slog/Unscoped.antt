-- ===== src/Slog/Unscoped.antt =====
-- handler.go: a handler on a context without a live scope.
use dllog.Base.{
  not, ◌≡◌, refl, le_int, lt_int, true, false, [], ◌∷◌, ◌++◌, Option, none, if◌then◌else◌, inl, inr,
  Bool-cases, arith, Int64, Bool,
}
use dllog.Core.Types.{Box}
use dllog.Core.SyncPool.{SyncPool}
use dllog.Core.Context.{Context}
use dllog.Slots.{SlotWorld, Slot, handled}
use dllog.Slog.Types.{Record}
use dllog.Slog.Handler.{Handler, Setting, handle, handle_at, enabled, level, buffer_floor}
use dllog.Slog.Scope.{live_carrier}

pub lt_int-le_int : (a b : Int64) (c : Bool) → le_int a b ≡ c → lt_int b a ≡ not c
lt_int-le_int a b c e = ground arith

pub if_false-else_false : (b : Bool) → (if b then false else false) ≡ false
if_false-else_false true = refl
if_false-else_false false = refl

module _ {V D Z Err : Type 0} (set : Setting V D Z Err) (h : Handler V D) (ctx : Context) where
  module _ {sync : SyncPool (Box (Option (Slot D Z)))} where
    -- On a context without a live scope `Handle` hands the record to the downstream, and
    -- changes nothing else, if `Enabled` accepts its level; otherwise it does nothing.
    pub handle-enabled :
        (w : SlotWorld D Z sync) (r : Record)
        → live_carrier w ctx ≡ none
        → (handle set h ctx r w).0 ≡ (
            if enabled set h w ctx r.level
            then record w { out = w.out ++ (handled h.downstream ctx r ∷ []) }
            else w)
    unfolding handle handle_at enabled
    handle-enabled w r free = elim (Bool-cases (le_int (level set h) r.level)) [
      | inl e ↦ rw (free, e, lt_int-le_int (level set h) r.level true e) refl
      | inr e ↦
          rw
            (
              free,
              e,
              lt_int-le_int (level set h) r.level false e,
              if_false-else_false (lt_int r.level (buffer_floor set h)),
            )
            refl
    ]

    pub handle-shown :
        (w : SlotWorld D Z sync) (r : Record)
        → live_carrier w ctx ≡ none
        → (handle set h ctx r w).0 ≡ (
            if le_int (level set h) r.level
            then record w { out = w.out ++ (handled h.downstream ctx r ∷ []) }
            else w)
    unfolding handle handle_at
    handle-shown w r free = elim (Bool-cases (le_int (level set h) r.level)) [
      | inl e ↦ rw (free, e, lt_int-le_int (level set h) r.level true e) refl
      | inr e ↦ rw (free, e, lt_int-le_int (level set h) r.level false e) refl
    ]

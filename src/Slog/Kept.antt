-- ===== src/Slog/Kept.antt =====
-- handler.go: what `Handle` leaves as it was, of a carrier, of the pools and of the carriers.
use dllog.Base.{
  ◌≡◌, refl, le_int, lt_int, Bool-cases, inl, inr, Option, some, none, length, length-set,
}
use dllog.Core.Types.{Action, Box}
use dllog.Core.SyncPool.{SyncPool}
use dllog.Core.Carrier
use dllog.Core.Carrier.Kept.{Keeps}
use dllog.Core.Carrier.Stable.{IsStable, Keeps-IsStable}
use dllog.Core.Context.{Context, CarrierRef, store_at, on}
use dllog.Slots.{SlotStore, SlotWorld, Slot, slots}
use dllog.Slog.Types.{Record}
use dllog.Slog.Scope.{live_carrier}
use dllog.Slog.Handler.{
  Setting, Handler, handle_scoped, handle_above, handle_below, handle_trip, trip_and_suppress,
  suppressed, forward, level, trip_level, slot_of, handle, handle_at, after_append, forward_world,
}

-- `Handle` on a carrier is made of calls on it.
module _ {V D Z Err : Type 0} (set : Setting V D Z Err) (h : Handler V D)
    {sync : SyncPool (Box (Option (Slot D Z)))}
    {R : SlotStore D Z sync → SlotStore D Z sync → Type 0}
    (stable : IsStable (slots set.zap_down) R) where
  suppressed-IsStable : (st : SlotStore D Z sync) → R st (suppressed set h st).0
  unfolding suppressed
  suppressed-IsStable st = elim (Bool-cases (Carrier.bind h.pool st).1) [
    | inl b ↦ rw b (stable.both (stable.binds h.pool st) (stable.passes _))
    | inr b ↦ rw b (stable.binds h.pool st)
  ]

  trip_and_suppress-IsStable : (st : SlotStore D Z sync) → R st (trip_and_suppress set h st).0
  unfolding trip_and_suppress
  trip_and_suppress-IsStable st =
      elim (Bool-cases (Carrier.mark_and_flush (slots set.zap_down) st).1) [
        | inl b ↦ rw b (stable.trips st)
        | inr b ↦ rw b (stable.both (stable.trips st) (suppressed-IsStable _))
      ]

  module _ (ctx : Context) (r : Record) where
    handle_trip-IsStable : (st : SlotStore D Z sync) → R st (handle_trip set h ctx r st).0
    unfolding handle_trip forward
    handle_trip-IsStable st = elim (Bool-cases (trip_and_suppress set h st).1) [
      | inl b ↦ rw b (trip_and_suppress-IsStable st)
      | inr b ↦ rw b (stable.both (trip_and_suppress-IsStable st) (stable.puts _ _))
    ]

    handle_above-IsStable : (st : SlotStore D Z sync) → R st (handle_above set h ctx r st).0
    unfolding handle_above forward
    handle_above-IsStable st = elim (Bool-cases (Carrier.tripped st)) [
      | inl t ↦ elim (Bool-cases (suppressed set h st).1) [
        | inl b ↦ rw (t, b) (suppressed-IsStable st)
        | inr b ↦ rw (t, b) (stable.both (suppressed-IsStable st) (stable.puts _ _))
      ]
      | inr t ↦ rw t (stable.puts st _)
    ]

    after_append-IsStable :
        (st : SlotStore D Z sync) (a : Action) → R st (after_append set h ctx r (st, a)).0
    unfolding after_append forward
    after_append-IsStable st Action.buffered = stable.same st
    after_append-IsStable st Action.suppressed = stable.same st
    after_append-IsStable st Action.pass_through = stable.puts st _

    handle_below-IsStable : (st : SlotStore D Z sync) → R st (handle_below set h ctx r st).0
    unfolding handle_below
    handle_below-IsStable st = elim (Bool-cases (Carrier.bind h.pool st).1) [
      | inl b ↦ rw b (
          stable.both (stable.binds h.pool st)
            (stable.both (stable.appends _ (slot_of set h ctx r)) (after_append-IsStable _ _)))
      | inr b ↦ rw b (stable.binds h.pool st)
    ]

    pub handle_scoped-IsStable : (st : SlotStore D Z sync) → R st (handle_scoped set h ctx r st).0
    unfolding handle_scoped
    handle_scoped-IsStable st = elim (Bool-cases (le_int (trip_level set h) r.level)) [
      | inl loud ↦ rw loud (handle_trip-IsStable st)
      | inr quiet ↦ elim (Bool-cases (le_int (level set h) r.level)) [
        | inl up ↦ rw (quiet, up) (handle_above-IsStable st)
        | inr low ↦ rw (quiet, low) (handle_below-IsStable st)
      ]
    ]

module _ {V D Z Err : Type 0} (set : Setting V D Z Err) (h : Handler V D) (ctx : Context)
    (r : Record) {sync : SyncPool (Box (Option (Slot D Z)))} where
  handle_at-Keeps :
      (w : SlotWorld D Z sync) (o : Option CarrierRef)
      → Keeps sync w.pools (handle_at set h o ctx r w).0.pools
  unfolding handle_at forward_world on
  handle_at-Keeps w none = elim (Bool-cases (lt_int r.level (level set h))) [
    | inl b ↦ rw b (λ ref c l k. k)
    | inr b ↦ rw b (λ ref c l k. k)
  ]
  handle_at-Keeps w (some cr) =
      handle_scoped-IsStable set h (Keeps-IsStable (slots set.zap_down)) ctx r (store_at w cr)

  pub handle-Keeps : (w : SlotWorld D Z sync) → Keeps sync w.pools (handle set h ctx r w).0.pools
  unfolding handle
  handle-Keeps w = handle_at-Keeps w (live_carrier w ctx)

  handle_at-length :
      (w : SlotWorld D Z sync) (o : Option CarrierRef)
      → length (handle_at set h o ctx r w).0.carriers ≡ length w.carriers
  unfolding handle_at forward_world on
  handle_at-length w none = elim (Bool-cases (lt_int r.level (level set h))) [
    | inl b ↦ rw b refl
    | inr b ↦ rw b refl
  ]
  handle_at-length w (some cr) =
      length-set w.carriers cr (handle_scoped set h ctx r (store_at w cr)).0.carrier

  -- No carrier comes or goes.
  pub handle-length :
      (w : SlotWorld D Z sync) → length (handle set h ctx r w).0.carriers ≡ length w.carriers
  unfolding handle
  handle-length w = handle_at-length w (live_carrier w ctx)

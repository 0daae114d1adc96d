-- ===== src/Slog/Calls.antt =====
-- handler.go: what `Handle` does to a live carrier, in calls of the carrier alone.
use dllog.Base.{
  Bool, Bool-cases, inl, inr, ◌||◌, if◌then◌else◌, ◌≡◌, refl, le_int, true, false, [], ◌∷◌, ◌++◌,
  Option, some,
}
use dllog.Core.Types.{Action, Box}
use dllog.Core.SyncPool.{SyncPool}
use dllog.Core.Carrier.{bind, append, pass_through, tripped, mark_and_flush}
use dllog.Core.Carrier.Passing.{verdict}
use dllog.Core.Context.{Context, CarrierRef, from_context, carrier_at, on}
use dllog.Slog.Types.{Record}
use dllog.Slots.{SlotStore, SlotWorld, Slot, slots, handled}
use dllog.Slog.Handler.{
  Setting, Handler, handle_scoped, suppressed, handle_above, handle_below, handle_trip,
  trip_and_suppress, forward, level, trip_level, slot_of, handle, handle_at,
}
use dllog.Slog.Live.{live_carrier-live}

module _ {V D Z Err : Type 0} (set : Setting V D Z Err) (h : Handler V D) (ctx : Context)
    (r : Record) {sync : SyncPool (Box (Option (Slot D Z)))} (st : SlotStore D Z sync) where
  pub handle_scoped-forward :
      le_int (trip_level set h) r.level ≡ false
      → le_int (level set h) r.level ≡ true
      → tripped st ≡ false
      → (handle_scoped set h ctx r st).0
        ≡ record st { out = st.out ++ (handled h.downstream ctx r ∷ []) }
  unfolding handle_scoped handle_above forward
  handle_scoped-forward quiet up t = rw (quiet, up, t) refl

  pub handle_scoped-append :
      (st' : SlotStore D Z sync)
      → le_int (trip_level set h) r.level ≡ false
      → le_int (level set h) r.level ≡ false
      → bind h.pool st ≡ (st', true)
      → (append st' (slot_of set h ctx r)).1 ≡ Action.buffered
      → (handle_scoped set h ctx r st).0 ≡ (append st' (slot_of set h ctx r)).0
  unfolding handle_scoped handle_below
  handle_scoped-append st' quiet low b a = rw (quiet, low, b, a) refl

  pub handle_scoped-trip :
      le_int (trip_level set h) r.level ≡ true
      → (mark_and_flush (slots set.zap_down) st).1 ≡ true
      → let st' = (mark_and_flush (slots set.zap_down) st).0 in
        (handle_scoped set h ctx r st).0
        ≡ record st' { out = st'.out ++ (handled h.downstream ctx r ∷ []) }
  unfolding handle_scoped handle_trip trip_and_suppress forward
  handle_scoped-trip loud first = rw (loud, first) refl

  -- On a tripped carrier, a record counts against the scope that `Bind` hands out, whichever its
  -- level, and goes on if the scope lets it.
  pub handle_scoped-spend :
      (st' : SlotStore D Z sync) (p : Bool)
      → mark_and_flush (slots set.zap_down) st ≡ (st, false)
      → tripped st ≡ true
      → bind h.pool st ≡ (st', true)
      → (pass_through st').1 ≡ verdict p
      → (append st' (slot_of set h ctx r)).1 ≡ verdict p
      → let s =
          if le_int (trip_level set h) r.level || le_int (level set h) r.level
          then (pass_through st').0
          else (append st' (slot_of set h ctx r)).0 in
        (handle_scoped set h ctx r st).0
        ≡ (if p then record s { out = s.out ++ (handled h.downstream ctx r ∷ []) } else s)
  unfolding handle_scoped handle_trip trip_and_suppress handle_above handle_below suppressed forward
  handle_scoped-spend st' true f t b q a = elim (Bool-cases (le_int (trip_level set h) r.level)) [
    | inl loud ↦ rw (loud, f, b, q) refl
    | inr quiet ↦ elim (Bool-cases (le_int (level set h) r.level)) [
      | inl up ↦ rw (quiet, up, t, b, q) refl
      | inr low ↦ rw (quiet, low, b, a) refl
    ]
  ]
  handle_scoped-spend st' false f t b q a = elim (Bool-cases (le_int (trip_level set h) r.level)) [
    | inl loud ↦ rw (loud, f, b, q) refl
    | inr quiet ↦ elim (Bool-cases (le_int (level set h) r.level)) [
      | inl up ↦ rw (quiet, up, t, b, q) refl
      | inr low ↦ rw (quiet, low, b, a) refl
    ]
  ]

module _ {V D Z Err : Type 0} (set : Setting V D Z Err) (h : Handler V D) (ctx : Context)
    (r : Record) {sync : SyncPool (Box (Option (Slot D Z)))} where
  pub handle-on :
      (w : SlotWorld D Z sync) (c : CarrierRef)
      → from_context ctx ≡ some c
      → (carrier_at w c).closed ≡ false
      → handle set h ctx r w ≡ on c (handle_scoped set h ctx r) w
  unfolding handle handle_at
  handle-on w c at live = rw (live_carrier-live w ctx c at live) refl

-- ===== src/Zap/Calls.antt =====
-- zapadapter/core.go: what `Write` does to a live carrier, in calls of the carrier alone.
use dllog.Base.{
  Bool, Bool-cases, inl, inr, ◌||◌, if◌then◌else◌, ◌≡◌, refl, le_int, true, false, List, ◌++◌,
  Option, some,
}
use dllog.Core.Types.{Action, Box}
use dllog.Core.SyncPool.{SyncPool}
use dllog.Core.Carrier.{bind, append, pass_through, tripped, mark_and_flush}
use dllog.Core.Carrier.Passing.{verdict}
use dllog.Core.Context.{CarrierRef, carrier_at, store_at, put_back, on}
use dllog.Slots.Replay.{offered}
use dllog.Slots.{SlotStore, SlotWorld, Slot, slots, write_checked}
use dllog.Zap.Types.{Entry, Field, Downstream}
use dllog.Zap.Core.{
  Core, write, write_on, slot_of, forward, write_trip, write_above, write_below, write_scoped,
  suppressed, trip_and_suppress,
}

module _ {D Z : Type 0} (c : Core Z) (down : Downstream Z) (ent : Entry) (fields : List Field)
    {sync : SyncPool (Box (Option (Slot D Z)))} (st : SlotStore D Z sync) where
  pub write_scoped-forward :
      le_int c.cfg.trip_level ent.level ≡ false
      → le_int c.cfg.level ent.level ≡ true
      → tripped st ≡ false
      → write_scoped c down ent fields st
        ≡ record st { out = st.out ++ offered down c.downstream ent fields }
  unfolding write_scoped write_above forward write_checked
  write_scoped-forward quiet up t = rw (quiet, up, t) refl

  pub write_scoped-append :
      (st' : SlotStore D Z sync)
      → le_int c.cfg.trip_level ent.level ≡ false
      → le_int c.cfg.level ent.level ≡ false
      → bind c.pool st ≡ (st', true)
      → (append st' (slot_of c ent fields)).1 ≡ Action.buffered
      → write_scoped c down ent fields st ≡ (append st' (slot_of c ent fields)).0
  unfolding write_scoped write_below
  write_scoped-append st' quiet low b a = rw (quiet, low, b, a) refl

  pub write_scoped-trip :
      le_int c.cfg.trip_level ent.level ≡ true
      → (mark_and_flush (slots down) st).1 ≡ true
      → let st' = (mark_and_flush (slots down) st).0 in
        write_scoped c down ent fields st
        ≡ record st' { out = st'.out ++ offered down c.downstream ent fields }
  unfolding write_scoped write_trip trip_and_suppress forward write_checked
  write_scoped-trip loud first = rw (loud, first) refl

  -- On a tripped carrier, an entry counts against the scope that `Bind` hands out, whichever its
  -- level, and goes on if the scope lets it.
  pub write_scoped-spend :
      (st' : SlotStore D Z sync) (p : Bool)
      → mark_and_flush (slots down) st ≡ (st, false)
      → tripped st ≡ true
      → bind c.pool st ≡ (st', true)
      → (pass_through st').1 ≡ verdict p
      → (append st' (slot_of c ent fields)).1 ≡ verdict p
      → let s =
          if le_int c.cfg.trip_level ent.level || le_int c.cfg.level ent.level
          then (pass_through st').0
          else (append st' (slot_of c ent fields)).0 in
        write_scoped c down ent fields st
        ≡ (if p then record s { out = s.out ++ offered down c.downstream ent fields } else s)
  unfolding write_scoped write_trip trip_and_suppress write_above write_below suppressed forward
      write_checked
  write_scoped-spend st' true f t b q a = elim (Bool-cases (le_int c.cfg.trip_level ent.level)) [
    | inl loud ↦ rw (loud, f, b, q) refl
    | inr quiet ↦ elim (Bool-cases (le_int c.cfg.level ent.level)) [
      | inl up ↦ rw (quiet, up, t, b, q) refl
      | inr low ↦ rw (quiet, low, b, a) refl
    ]
  ]
  write_scoped-spend st' false f t b q a = elim (Bool-cases (le_int c.cfg.trip_level ent.level)) [
    | inl loud ↦ rw (loud, f, b, q) refl
    | inr quiet ↦ elim (Bool-cases (le_int c.cfg.level ent.level)) [
      | inl up ↦ rw (quiet, up, t, b, q) refl
      | inr low ↦ rw (quiet, low, b, a) refl
    ]
  ]

module _ {D Z : Type 0} (c : Core Z) (down : Downstream Z) (ent : Entry) (fields : List Field)
    {sync : SyncPool (Box (Option (Slot D Z)))} where
  pub write-on :
      (w : SlotWorld D Z sync) (cr : CarrierRef)
      → c.carrier ≡ some cr
      → (carrier_at w cr).closed ≡ false
      → write c down ent fields w ≡ put_back w cr (write_scoped c down ent fields (store_at w cr))
  unfolding write write_on on
  write-on w cr at live = rw (at, live) refl

-- ===== src/Zap/Kept.antt =====
-- zapadapter/core.go: what `Write` leaves as it was, of a carrier, of the pools and of the carriers.
use dllog.Base.{
  ◌≡◌, refl, ap, le_int, lt_int, Bool-cases, inl, inr, List, Option, some, none, length, length-set,
}
use dllog.Core.Types.{Action, Box}
use dllog.Core.SyncPool.{SyncPool}
use dllog.Core.Carrier
use dllog.Core.Carrier.Kept.{Keeps, Keeps-same}
use dllog.Core.Carrier.Stable.{IsStable, Keeps-IsStable}
use dllog.Core.Context.{CarrierRef, carrier_at, store_at, on}
use dllog.Slots.{SlotStore, SlotWorld, Slot, slots}
use dllog.Zap.Types.{Entry, Field, Downstream}
use dllog.Zap.Core.{
  Core, write, write_on, write_unbound, slot_of, forward, write_trip, write_above, write_below,
  write_scoped, trip_and_suppress, suppressed, after_append,
}

-- `Write` on a carrier is made of calls on it.
module _ {D Z : Type 0} (c : Core Z) (down : Downstream Z)
    {sync : SyncPool (Box (Option (Slot D Z)))}
    {R : SlotStore D Z sync → SlotStore D Z sync → Type 0} (stable : IsStable (slots down) R) where
  suppressed-IsStable : (st : SlotStore D Z sync) → R st (suppressed c down st).0
  unfolding suppressed
  suppressed-IsStable st = elim (Bool-cases (Carrier.bind c.pool st).1) [
    | inl b ↦ rw b (stable.both (stable.binds c.pool st) (stable.passes _))
    | inr b ↦ rw b (stable.binds c.pool st)
  ]

  trip_and_suppress-IsStable : (st : SlotStore D Z sync) → R st (trip_and_suppress c down st).0
  unfolding trip_and_suppress
  trip_and_suppress-IsStable st = elim (Bool-cases (Carrier.mark_and_flush (slots down) st).1) [
    | inl b ↦ rw b (stable.trips st)
    | inr b ↦ rw b (stable.both (stable.trips st) (suppressed-IsStable _))
  ]

  module _ (ent : Entry) (fields : List Field) where
    write_trip-IsStable : (st : SlotStore D Z sync) → R st (write_trip c down ent fields st)
    unfolding write_trip forward
    write_trip-IsStable st = elim (Bool-cases (trip_and_suppress c down st).1) [
      | inl b ↦ rw b (trip_and_suppress-IsStable st)
      | inr b ↦ rw b (stable.both (trip_and_suppress-IsStable st) (stable.puts _ _))
    ]

    write_above-IsStable : (st : SlotStore D Z sync) → R st (write_above c down ent fields st)
    unfolding write_above forward
    write_above-IsStable st = elim (Bool-cases (Carrier.tripped st)) [
      | inl t ↦ elim (Bool-cases (suppressed c down st).1) [
        | inl b ↦ rw (t, b) (suppressed-IsStable st)
        | inr b ↦ rw (t, b) (stable.both (suppressed-IsStable st) (stable.puts _ _))
      ]
      | inr t ↦ rw t (stable.puts st _)
    ]

    after_append-IsStable :
        (st : SlotStore D Z sync) (a : Action) → R st (after_append c down ent fields (st, a))
    unfolding after_append forward
    after_append-IsStable st Action.buffered = stable.same st
    after_append-IsStable st Action.suppressed = stable.same st
    after_append-IsStable st Action.pass_through = stable.puts st _

    write_below-IsStable : (st : SlotStore D Z sync) → R st (write_below c down ent fields st)
    unfolding write_below
    write_below-IsStable st = elim (Bool-cases (Carrier.bind c.pool st).1) [
      | inl b ↦ rw b (
          stable.both (stable.binds c.pool st)
            (stable.both (stable.appends _ (slot_of c ent fields)) (after_append-IsStable _ _)))
      | inr b ↦ rw b (stable.binds c.pool st)
    ]

    pub write_scoped-IsStable : (st : SlotStore D Z sync) → R st (write_scoped c down ent fields st)
    unfolding write_scoped
    write_scoped-IsStable st = elim (Bool-cases (le_int c.cfg.trip_level ent.level)) [
      | inl loud ↦ rw loud (write_trip-IsStable st)
      | inr quiet ↦ elim (Bool-cases (le_int c.cfg.level ent.level)) [
        | inl up ↦ rw (quiet, up) (write_above-IsStable st)
        | inr low ↦ rw (quiet, low) (write_below-IsStable st)
      ]
    ]

module _ {D Z : Type 0} (c : Core Z) (down : Downstream Z) (ent : Entry) (fields : List Field)
    {sync : SyncPool (Box (Option (Slot D Z)))} where
  write_unbound-pools :
      (w : SlotWorld D Z sync) → (write_unbound c down ent fields w).pools ≡ w.pools
  unfolding write_unbound
  write_unbound-pools w = elim (Bool-cases (lt_int ent.level c.cfg.level)) [
    | inl b ↦ rw b refl
    | inr b ↦ rw b refl
  ]

  write_on-Keeps :
      (w : SlotWorld D Z sync) (o : Option CarrierRef)
      → Keeps sync w.pools (write_on c down o ent fields w).pools
  unfolding write_on on
  write_on-Keeps w none = Keeps-same sync _ _ (write_unbound-pools w)
  write_on-Keeps w (some cr) = elim (Bool-cases (carrier_at w cr).closed) [
    | inl b ↦ rw b (Keeps-same sync _ _ (write_unbound-pools w))
    | inr b ↦
        rw b (write_scoped-IsStable c down (Keeps-IsStable (slots down)) ent fields (store_at w cr))
  ]

  pub write-Keeps : (w : SlotWorld D Z sync) → Keeps sync w.pools (write c down ent fields w).pools
  unfolding write
  write-Keeps w = write_on-Keeps w c.carrier

  write_unbound-carriers :
      (w : SlotWorld D Z sync) → (write_unbound c down ent fields w).carriers ≡ w.carriers
  unfolding write_unbound
  write_unbound-carriers w = elim (Bool-cases (lt_int ent.level c.cfg.level)) [
    | inl b ↦ rw b refl
    | inr b ↦ rw b refl
  ]

  -- No carrier comes or goes.
  write_on-length :
      (w : SlotWorld D Z sync) (o : Option CarrierRef)
      → length (write_on c down o ent fields w).carriers ≡ length w.carriers
  unfolding write_on on
  write_on-length w none = ap length (write_unbound-carriers w)
  write_on-length w (some cr) = elim (Bool-cases (carrier_at w cr).closed) [
    | inl b ↦ rw b (ap length (write_unbound-carriers w))
    | inr b ↦
        rw b (length-set w.carriers cr (write_scoped c down ent fields (store_at w cr)).carrier)
  ]

  pub write-length :
      (w : SlotWorld D Z sync) → length (write c down ent fields w).carriers ≡ length w.carriers
  unfolding write
  write-length w = write_on-length w c.carrier

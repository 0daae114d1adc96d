-- ===== src/Zap/Unscoped.antt =====
-- zapadapter/core.go: a core that is not bound, or whose scope was released.
use dllog.Base.{
  ◌≡◌, refl, le_int, lt_int, true, false, ◌++◌, Option, some, none, if◌then◌else◌, inl, inr,
  Bool-cases, List,
}
use dllog.Core.Types.{Box}
use dllog.Core.SyncPool.{SyncPool}
use dllog.Core.Context.{CarrierRef, carrier_at}
use dllog.Slots.Replay.{offered}
use dllog.Slots.{SlotWorld, Slot, write_checked}
use dllog.Slog.Unscoped.{lt_int-le_int, if_false-else_false}
use dllog.Zap.Types.{Entry, Field, Downstream}
use dllog.Zap.Core.{Core, check, enabled, bound_live, write, write_on, write_unbound}

module _ {D Z : Type 0} (c : Core Z) (down : Downstream Z)
    {sync : SyncPool (Box (Option (Slot D Z)))} where
  write_on-unscoped :
      (cr : Option CarrierRef) (ent : Entry) (fields : List Field) (w : SlotWorld D Z sync)
      → bound_live c w cr ≡ false
      → write_on c down cr ent fields w ≡ write_unbound c down ent fields w
  unfolding write_on
  write_on-unscoped none ent fields w free = refl
  write_on-unscoped (some cr) ent fields w free = elim (Bool-cases (carrier_at w cr).closed) [
    | inl e ↦ rw e refl
    | inr e ↦ cc (e, free)
  ]

  -- For a zap core that is not bound, or whose scope was released, `Check` adds the core and
  -- `Write` offers the entry to the downstream if the entry is at or above the effective level;
  -- otherwise neither does anything.
  pub check-write :
      {CheckedEntry : Type 0} (add_core : CheckedEntry → Entry → Core Z → CheckedEntry)
      (ce : CheckedEntry) (ent : Entry) (fields : List Field) (w : SlotWorld D Z sync)
      → bound_live c w c.carrier ≡ false
      → let shows = le_int c.cfg.level ent.level in
        (check c add_core w ent ce ≡ (if shows then add_core ce ent c else ce))
        × (write c down ent fields w ≡ (
            if shows then record w { out = w.out ++ offered down c.downstream ent fields } else w))
  unfolding check enabled write write_unbound write_checked
  check-write add_core ce ent fields w free = elim (Bool-cases (le_int c.cfg.level ent.level)) [
    | inl e ↦
        rw
          (
            write_on-unscoped c.carrier ent fields w free,
            e,
            lt_int-le_int c.cfg.level ent.level true e,
          )
          (refl, refl)
    | inr e ↦
        rw
          (
            write_on-unscoped c.carrier ent fields w free,
            e,
            free,
            lt_int-le_int c.cfg.level ent.level false e,
            if_false-else_false (lt_int ent.level c.cfg.buffer_floor),
          )
          (refl, refl)
  ]

-- ===== src/Zap/Core.antt =====
-- zapadapter/core.go: the zap core, bound to a carrier or not.
use dllog.Base.{
  lt_int, le_int, Bool, true, false, not, List, [], ◌∷◌, ◌++◌, Option, some, none, if◌then◌else◌,
  length,
}
use dllog.Core.Types.{Action, Box, PoolRef}
use dllog.Core.SyncPool.{SyncPool}
use dllog.Core.Pool.{new_scope_pool}
use dllog.Core.Carrier
use dllog.Core.Context.{
  Ctx, Context, CarrierRef, zap_carrier, World, carrier_at, on, from_context, new_context, allocate,
}
use dllog.Slots.{SlotStore, SlotWorld, Slot, slots, zap, write_checked}
use dllog.Slog.Handler.{is_suppressed}
use dllog.Zap.Types.{Level, Entry, Field, Downstream}
use dllog.Zap.Options.{Config, resolve}

pub record Core (Z : Type 0) : Type 0 where
  pub cfg : Config
  pub downstream : Z
  pub pool : PoolRef
  pub carrier : Option CarrierRef

module _ {E O : Type 0} {sync : SyncPool (Box (Option E))} where
  abbrev live_or_none : World E O sync → Option CarrierRef → Option CarrierRef
  live_or_none w none = none
  live_or_none w (some c) = if (carrier_at w c).closed then none else some c

  -- `fromContext`: the shared carrier under whichever wrapper; a released one counts as none.
  unfoldable pub live_carrier : World E O sync → Context → Option CarrierRef
  live_carrier w ctx = live_or_none w (from_context ctx)

  open_or_join : World E O sync → Ctx → Option CarrierRef → World E O sync × Ctx × Option CarrierRef
  open_or_join w ctx (some c) = (w, ctx, none)
  open_or_join w ctx none =
      let (c, w') = allocate w in (w', new_context ctx (zap_carrier c), some c)

  -- `Scope`, with what the returned `done` closes.
  unfoldable pub scope : World E O sync → Ctx → World E O sync × Ctx × Option CarrierRef
  unfolding open_or_join
  scope w ctx = open_or_join w ctx (live_carrier w (some ctx))

module _ {D Z : Type 0} (down : Downstream Z) {sync : SyncPool (Box (Option (Slot D Z)))} where
  -- `&Core{...}`, whose pool is a new one.
  unfoldable pub with_pool : Config → Z → SlotWorld D Z sync → Core Z × SlotWorld D Z sync
  with_pool cfg downstream w = (
    record { cfg = cfg; downstream = downstream; pool = length w.pools; carrier = none },
    record w {
      pools = w.pools ++ (new_scope_pool none sync cfg.capacity cfg.post_trip_limit ∷ []);
    },
  )

  -- `newEncoded`; `encode` is `zapcore.NewCore` over the encoder, open from a level on.
  unfoldable pub new_encoded :
      (Level → Z)
      → List (Option (Config → Config))
      → SlotWorld D Z sync
      → Option (Core Z × SlotWorld D Z sync)
  unfolding with_pool
  new_encoded encode opts w = elim (resolve opts) [
    | none ↦ none
    | some cfg ↦ some (with_pool cfg (encode cfg.buffer_floor) w)
  ]

  -- `New`; a panic is `none`.
  wrap : Z → Option Config → SlotWorld D Z sync → Option (Core Z × SlotWorld D Z sync)
  unfolding with_pool
  wrap downstream none w = none
  wrap downstream (some cfg) w =
      if not (down.enabled downstream cfg.buffer_floor)
      then none
      else some (with_pool cfg downstream w)

  unfoldable pub new :
      Option Z
      → List (Option (Config → Config))
      → SlotWorld D Z sync
      → Option (Core Z × SlotWorld D Z sync)
  unfolding wrap
  new none opts w = none
  new (some downstream) opts w = wrap downstream (resolve opts) w

module _ {Z : Type 0} (c : Core Z) where
  abbrev derive : Z → Option CarrierRef → Core Z
  derive downstream cr = record c { downstream = downstream; carrier = cr }

  unfoldable pub rebind : Option CarrierRef → Core Z
  rebind none = c
  rebind (some cr) = derive c.downstream (some cr)

  -- `With`
  unfoldable pub with_fields : Downstream Z → List Field → Core Z
  with_fields down [] = c
  with_fields down (f ∷ fields) = derive (down.with_fields c.downstream (f ∷ fields)) c.carrier

  abbrev pub slot_of : {D : Type 0} → Entry → List Field → Slot D Z
  slot_of ent fields = zap (record {
    entry = ent;
    fields = fields;
    downstream = c.downstream;
    replay_key = c.cfg.replay_key;
  })

  module _ {D : Type 0} {sync : SyncPool (Box (Option (Slot D Z)))} where
    -- `For`
    unfoldable pub for_context : SlotWorld D Z sync → Context → Core Z
    unfolding rebind
    for_context w ctx = rebind (live_carrier w ctx)

    abbrev pub bound_live : SlotWorld D Z sync → Option CarrierRef → Bool
    bound_live w none = false
    bound_live w (some cr) = not (carrier_at w cr).closed

    unfoldable pub enabled : SlotWorld D Z sync → Level → Bool
    enabled w l =
        if le_int c.cfg.level l
        then true
        else if lt_int l c.cfg.buffer_floor
        then false
        else bound_live w c.carrier

    -- `Check`, over `zapcore.CheckedEntry` and its `AddCore`.
    unfoldable pub check :
        {CheckedEntry : Type 0}
        → (CheckedEntry → Entry → Core Z → CheckedEntry)
        → SlotWorld D Z sync
        → Entry
        → CheckedEntry
        → CheckedEntry
    check add_core w ent ce = if enabled w ent.level then add_core ce ent c else ce

    module _ (down : Downstream Z) where
      -- `writeChecked(c.downstream, ent, fields)`; the returned error is always nil.
      unfoldable pub forward : Entry → List Field → SlotStore D Z sync → SlotStore D Z sync
      forward ent fields st = record st {
        out = st.out ++ write_checked down c.downstream ent fields;
      }

      unfoldable pub suppressed : SlotStore D Z sync → SlotStore D Z sync × Bool
      suppressed st =
          let (st', bound) = Carrier.bind c.pool st in
          if bound
          then (let (st'', a) = Carrier.pass_through st' in (st'', is_suppressed a))
          else (st', false)

      unfoldable pub trip_and_suppress : SlotStore D Z sync → SlotStore D Z sync × Bool
      unfolding suppressed
      trip_and_suppress st =
          let (st', trigger) = Carrier.mark_and_flush (slots down) st in
          if trigger then (st', false) else suppressed st'

      unfoldable pub after_append :
          Entry → List Field → SlotStore D Z sync × Action → SlotStore D Z sync
      unfolding forward
      after_append ent fields (st, Action.buffered) = st
      after_append ent fields (st, Action.suppressed) = st
      after_append ent fields (st, Action.pass_through) = forward ent fields st

      -- An entry at or above the trip level.
      unfoldable pub write_trip : Entry → List Field → SlotStore D Z sync → SlotStore D Z sync
      unfolding trip_and_suppress forward
      write_trip ent fields st =
          let (st', drop) = trip_and_suppress st in if drop then st' else forward ent fields st'

      -- An entry from the effective level up to the trip level.
      unfoldable pub write_above : Entry → List Field → SlotStore D Z sync → SlotStore D Z sync
      unfolding suppressed forward
      write_above ent fields st =
          if Carrier.tripped st
          then (let (st', drop) = suppressed st in if drop then st' else forward ent fields st')
          else forward ent fields st

      -- An entry below the effective level.
      unfoldable pub write_below : Entry → List Field → SlotStore D Z sync → SlotStore D Z sync
      unfolding after_append
      write_below ent fields st =
          let (st', bound) = Carrier.bind c.pool st in
          if bound then after_append ent fields (Carrier.append st' (slot_of ent fields)) else st'

      -- `Write`, within a live scope.
      unfoldable pub write_scoped : Entry → List Field → SlotStore D Z sync → SlotStore D Z sync
      write_scoped ent fields st =
          if le_int c.cfg.trip_level ent.level
          then write_trip ent fields st
          else if le_int c.cfg.level ent.level
          then write_above ent fields st
          else write_below ent fields st

      unfoldable pub write_unbound : Entry → List Field → SlotWorld D Z sync → SlotWorld D Z sync
      write_unbound ent fields w =
          if lt_int ent.level c.cfg.level
          then w
          else record w { out = w.out ++ write_checked down c.downstream ent fields }

      unfoldable pub write_on :
          Option CarrierRef → Entry → List Field → SlotWorld D Z sync → SlotWorld D Z sync
      unfolding write_unbound
      write_on none ent fields w = write_unbound ent fields w
      write_on (some cr) ent fields w =
          if (carrier_at w cr).closed
          then write_unbound ent fields w
          else (on {0} {A = Unit} cr (λ st. (write_scoped ent fields st, tt)) w).0

      -- `Write`; the returned error is always nil.
      unfoldable pub write : Entry → List Field → SlotWorld D Z sync → SlotWorld D Z sync
      unfolding write_on
      write ent fields w = write_on c.carrier ent fields w

      trip_on : Option CarrierRef → SlotWorld D Z sync → SlotWorld D Z sync
      trip_on none w = w
      trip_on (some cr) w = (on cr (Carrier.mark_and_flush (slots down)) w).0

      -- `Trip`, of the bound carrier, released or not.
      unfoldable pub trip : SlotWorld D Z sync → SlotWorld D Z sync
      unfolding trip_on
      trip w = trip_on c.carrier w

-- ===== src/Slog/Handler.antt =====
-- handler.go: the slog handler.
use Prim.Native.String.{String}
use text.Mathlib.Text.{◌==◌ as str_eq}
use dllog.Base.{
  lt_int, le_int, Bool, true, false, List, [], ◌∷◌, ◌++◌, Option, some, none, if◌then◌else◌,
  is_some,
}
use dllog.Core.Types.{Action, Box, PoolRef}
use dllog.Core.SyncPool.{SyncPool}
use dllog.Core.Carrier.{Store}
use dllog.Core.Carrier
use dllog.Core.Context.{Context, CarrierRef, on}
use dllog.Slots.{SlotStore, SlotWorld, Slot, handled, slog, slots}
use dllog.Slog.Types.{Level, Record, Attr, Downstream}
use dllog.Slog.Options.{Config, level_of}
use dllog.Slog.Scope.{live_carrier}
use dllog.Zap.Types as Zap

pub record Handler (V D : Type 0) : Type 0 where
  pub cfg : Config V
  pub downstream : D
  pub pool : PoolRef

-- What the program around the package supplies: the downstream handlers, the downstream cores of
-- the other adapter, and the level variables, each with what it holds during the call.
pub record Setting (V D Z Err : Type 0) : Type 0 where
  pub down : Downstream D Err
  pub zap_down : Zap.Downstream Z
  pub read : V → Level

-- `ring.PassThrough() == core.ActionSuppressed`
abbrev pub is_suppressed : Action → Bool
is_suppressed Action.suppressed = true
is_suppressed Action.buffered = false
is_suppressed Action.pass_through = false

module _ {V D Z Err : Type 0} (set : Setting V D Z Err) (h : Handler V D) where
  abbrev pub level : Level
  level = level_of set.read h.cfg.level

  abbrev pub buffer_floor : Level
  buffer_floor = level_of set.read h.cfg.buffer_floor

  abbrev pub trip_level : Level
  trip_level = level_of set.read h.cfg.trip_level

  abbrev pub slot_of : Context → Record → Slot D Z
  slot_of ctx r = slog (record {
    ctx = ctx;
    slog_record = r;
    downstream = h.downstream;
    replay_key = h.cfg.replay_key;
  })

  module _ {sync : SyncPool (Box (Option (Slot D Z)))} where
    unfoldable pub enabled : SlotWorld D Z sync → Context → Level → Bool
    enabled w ctx l =
        if le_int level l
        then true
        else if lt_int l buffer_floor
        then false
        else is_some (live_carrier w ctx)

    -- `h.downstream.Handle(ctx, r)`
    unfoldable pub forward : Context → Record → SlotStore D Z sync → SlotStore D Z sync × Option Err
    forward ctx r st = (
      record st { out = st.out ++ (handled h.downstream ctx r ∷ []) },
      set.down.handle h.downstream ctx r,
    )

    unfoldable pub suppressed : SlotStore D Z sync → SlotStore D Z sync × Bool
    suppressed st =
        let (st', bound) = Carrier.bind h.pool st in
        if bound
        then (let (st'', a) = Carrier.pass_through st' in (st'', is_suppressed a))
        else (st', false)

    unfoldable pub trip_and_suppress : SlotStore D Z sync → SlotStore D Z sync × Bool
    trip_and_suppress st =
        let (st', trigger) = Carrier.mark_and_flush (slots set.zap_down) st in
        if trigger then (st', false) else suppressed st'

    -- A record at or above the trip level.
    unfoldable pub handle_trip :
        Context → Record → SlotStore D Z sync → SlotStore D Z sync × Option Err
    unfolding trip_and_suppress suppressed
    handle_trip ctx r st =
        let (st', drop) = trip_and_suppress st in if drop then (st', none) else forward ctx r st'

    -- A record from the effective level up to the trip level.
    unfoldable pub handle_above :
        Context → Record → SlotStore D Z sync → SlotStore D Z sync × Option Err
    unfolding suppressed
    handle_above ctx r st =
        if Carrier.tripped st
        then (let (st', drop) = suppressed st in if drop then (st', none) else forward ctx r st')
        else forward ctx r st

    unfoldable pub after_append :
        Context → Record → SlotStore D Z sync × Action → SlotStore D Z sync × Option Err
    after_append ctx r (st, Action.buffered) = (st, none)
    after_append ctx r (st, Action.suppressed) = (st, none)
    after_append ctx r (st, Action.pass_through) = forward ctx r st

    -- A record below the effective level.
    unfoldable pub handle_below :
        Context → Record → SlotStore D Z sync → SlotStore D Z sync × Option Err
    unfolding after_append
    handle_below ctx r st =
        let (st', bound) = Carrier.bind h.pool st in
        if bound then after_append ctx r (Carrier.append st' (slot_of ctx r)) else (st', none)

    -- `Handle`, within a scope.
    unfoldable pub handle_scoped :
        Context → Record → SlotStore D Z sync → SlotStore D Z sync × Option Err
    handle_scoped ctx r st =
        if le_int trip_level r.level
        then handle_trip ctx r st
        else if le_int level r.level
        then handle_above ctx r st
        else handle_below ctx r st

    unfoldable pub forward_world :
        Context → Record → SlotWorld D Z sync → SlotWorld D Z sync × Option Err
    forward_world ctx r w = (
      record w { out = w.out ++ (handled h.downstream ctx r ∷ []) },
      set.down.handle h.downstream ctx r,
    )

    unfoldable pub handle_at :
        Option CarrierRef → Context → Record → SlotWorld D Z sync → SlotWorld D Z sync × Option Err
    unfolding forward_world
    handle_at none ctx r w = if lt_int r.level level then (w, none) else forward_world ctx r w
    handle_at (some c) ctx r w = on c (handle_scoped ctx r) w

    -- `Handle`
    unfoldable pub handle : Context → Record → SlotWorld D Z sync → SlotWorld D Z sync × Option Err
    unfolding handle_at
    handle ctx r w = handle_at (live_carrier w ctx) ctx r w

  abbrev derive : D → Handler V D
  derive downstream = record h { downstream = downstream }

  unfoldable pub with_attrs : List Attr → Handler V D
  with_attrs [] = h
  with_attrs (a ∷ attrs) = derive (set.down.with_attrs h.downstream (a ∷ attrs))

  unfoldable pub with_group : String → Handler V D
  with_group name = if str_eq name "" then h else derive (set.down.with_group h.downstream name)

-- ===== src/Slog/Scope.antt =====
-- scope.go: which scope a context carries, and the package's `Scope` and `Trip`.
use dllog.Base.{Option, some, none, if◌then◌else◌}
use dllog.Core.Types.{Box}
use dllog.Core.SyncPool.{SyncPool}
use dllog.Core.Carrier.{Store, Entry}
use dllog.Core.Carrier
use dllog.Core.Context.{
  CarrierRef, Ctx, Context, Holder, slog_carrier, zap_carrier, World, carrier_at, on, allocate,
  holder_from_context, from_context, new_context,
}

-- What the returned `done` closes: nothing for a scope that was joined.
abbrev pub Done : Type 0
Done = Option CarrierRef

module _ {E O : Type 0} {sync : SyncPool (Box (Option E))} where
  -- A released carrier counts as none.
  abbrev pub if_live : World E O sync → CarrierRef → Option CarrierRef
  if_live w c = if (carrier_at w c).closed then none else some c

  unfoldable pub through_core : World E O sync → Option CarrierRef → Option CarrierRef
  through_core w none = none
  through_core w (some c) = if_live w c

  -- The package's own wrapper is recovered as it stands, another's through the core.
  unfoldable pub own_or_shared : World E O sync → Context → Option Holder → Option CarrierRef
  unfolding through_core
  own_or_shared w ctx (some (slog_carrier c)) = if_live w c
  own_or_shared w ctx (some (zap_carrier c)) = through_core w (from_context ctx)
  own_or_shared w ctx none = through_core w (from_context ctx)

  -- `fromContext`
  unfoldable pub live_carrier : World E O sync → Context → Option CarrierRef
  unfolding own_or_shared holder_from_context from_context
  live_carrier w ctx = own_or_shared w ctx (holder_from_context ctx)

  open_or_join : World E O sync → Ctx → Option CarrierRef → World E O sync × Ctx × Done
  open_or_join w ctx (some c) = (w, ctx, none)
  open_or_join w ctx none =
      let (c, w') = allocate w in (w', new_context ctx (slog_carrier c), some c)

  -- `Scope`. (A nil context has no derived context: `context.WithValue` panics on it.)
  unfoldable pub scope : World E O sync → Ctx → World E O sync × Ctx × Done
  unfolding open_or_join allocate new_context
  scope w ctx = open_or_join w ctx (live_carrier w (some ctx))

  -- The returned `done`, which `sync.Once` makes run once; closing twice is closing once.
  unfoldable pub run_done : Done → World E O sync → World E O sync
  run_done none w = w
  run_done (some c) w = (on {0} {A = Unit} c (λ st. (Carrier.close st, tt)) w).0

  module _ (ops : Entry E O) where
    trip_live : World E O sync → Option CarrierRef → World E O sync
    trip_live w none = w
    trip_live w (some c) = (on c (Carrier.mark_and_flush ops) w).0

    -- `Trip`, the package's and the handler's.
    unfoldable pub trip : Context → World E O sync → World E O sync
    unfolding trip_live
    trip ctx w = trip_live w (live_carrier w ctx)

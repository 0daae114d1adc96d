-- ===== src/Joint/Operations.antt =====
-- scope.go, handler.go and zapadapter/core.go together: operations one after the other, each in the
-- scope that it opens.
use dllog.Base.{◌+◌, ◌≡◌, List, [], ◌∷◌, ◌++◌, Option, some, none, All, At}
use dllog.Core.Types.{Box}
use dllog.Core.SyncPool.{SyncPool}
use dllog.Core.Pool.{Pool}
use dllog.Core.Carrier.Kept.{IsGood}
use dllog.Core.Context.{Ctx, Context, CarrierRef, slog_carrier, new_context}
use dllog.Slots.{SlotWorld, Slot, Output}
use dllog.Slog.Types.{Record}
use dllog.Slog.Handler.{Handler, Setting}
use dllog.Slog.Scope.{scope, run_done}
use dllog.Zap.Core.{Core, for_context}
use dllog.Zap.Session.{Line}
use dllog.Joint.{Event, slog_event, zap_event}
use dllog.Joint.Offers.{offer_all, accepted}
use dllog.Joint.Whole.{put_out}

-- A record for a handler, or an entry for what a core's `For` binds to the context.
pub data Logged (V D Z : Type 0) : Type 0 where
  by_handler : Handler V D → Record → Logged V D Z
  by_core : Core Z → Line → Logged V D Z

-- What runs in one scope, and the context that it is opened on.
pub record Operation (V D Z : Type 0) : Type 0 where
  pub base : Ctx
  pub logged : List (Logged V D Z)

module _ {V D Z : Type 0} where
  -- In the context of a scope.
  module _ {sync : SyncPool (Box (Option (Slot D Z)))} (w : SlotWorld D Z sync)
      (ctx : Context) where
    abbrev pub bind_event : Logged V D Z → Event V D Z
    bind_event (by_handler h r) = slog_event h ctx r
    bind_event (by_core c l) = zap_event (for_context c w ctx) l

    abbrev pub bind_events : List (Logged V D Z) → List (Event V D Z)
    bind_events [] = []
    bind_events (l ∷ ls) = bind_event l ∷ bind_events ls

  -- On the carrier `n`, in a context that carries it.
  abbrev pub event_on : Ctx → CarrierRef → Logged V D Z → Event V D Z
  event_on base n (by_handler h r) = slog_event h (some (new_context base (slog_carrier n))) r
  event_on base n (by_core c l) = zap_event (record c { carrier = some n }) l

  abbrev pub events_on : Ctx → CarrierRef → List (Logged V D Z) → List (Event V D Z)
  events_on base n [] = []
  events_on base n (l ∷ ls) = event_on base n l ∷ events_on base n ls

module _ {V D Z Err : Type 0} (set : Setting V D Z Err) where
  module _ {sync : SyncPool (Box (Option (Slot D Z)))} where
    -- `ctx, done := Scope(ctx)`, the calls on the loggers, `done()`.
    unfoldable pub run_operation : Operation V D Z → SlotWorld D Z sync → SlotWorld D Z sync
    run_operation op w =
        let (w', ctx, done) = scope w op.base in
        run_done done (offer_all set (bind_events w' (some ctx) op.logged) w')

    unfoldable pub run_operations : List (Operation V D Z) → SlotWorld D Z sync → SlotWorld D Z sync
    run_operations [] w = w
    run_operations (op ∷ ops) w = run_operations ops (run_operation op w)

  -- What the operation logs in its scope on the carrier `n`: the events at or above the effective
  -- level or the floor.
  abbrev pub logged_on : CarrierRef → Operation V D Z → List (Event V D Z)
  logged_on n op = accepted set (events_on op.base n op.logged)

  -- What each puts out by itself; the first opens the carrier `n`.
  unfoldable pub outputs : CarrierRef → List (Operation V D Z) → List (Output D Z)
  outputs n [] = []
  outputs n (op ∷ ops) = put_out set (logged_on n op) ++ outputs (n + 1) ops

module _ {V D Z : Type 0} (sync : SyncPool (Box (Option (Slot D Z)))) where
  -- The pool of the handler or core is in place.
  abbrev pub IsStocked : List (Pool none sync) → Logged V D Z → Type 0
  IsStocked pools (by_handler h r) =
      At (IsGood sync h.cfg.capacity h.cfg.post_trip_limit) pools h.pool
  IsStocked pools (by_core c l) = At (IsGood sync c.cfg.capacity c.cfg.post_trip_limit) pools c.pool

  -- The context of the operation carries no scope, and its pools are in place.
  abbrev pub IsApart : List (Pool none sync) → Operation V D Z → Type 0
  IsApart pools op = (op.base.holder ≡ none) × All (IsStocked pools) op.logged

-- ===== src/Joint/Stock.antt =====
-- scope.go, handler.go and zapadapter/core.go together: the pools and the carriers that an operation
-- leaves.
use dllog.Base.{◌≡◌, refl, ◌∙◌, List, [], ◌∷◌, ◌++◌, Option, some, none, All, length, length-set}
use dllog.Core.Types.{Box}
use dllog.Core.SyncPool.{SyncPool}
use dllog.Core.Pool.{Pool}
use dllog.Core.Carrier
use dllog.Core.Carrier.{new_carrier}
use dllog.Core.Carrier.Kept.{Keeps, close-Kept}
use dllog.Core.Context.{
  Ctx, CarrierRef, slog_carrier, new_context, from_context, holder_from_context, store_at, on,
  allocate,
}
use dllog.Slots.{SlotWorld, Slot}
use dllog.Slog.Handler.{Setting}
use dllog.Slog.Scope.{through_core, own_or_shared, Done, scope, run_done, live_carrier}
use dllog.Slog.Kept.{handle-Keeps, handle-length}
use dllog.Zap.Kept.{write-Keeps, write-length}
use dllog.Joint.{Event, slog_event, zap_event}
use dllog.Joint.Replay.{IsReady}
use dllog.Joint.Session.{log_event, log_events}
use dllog.Joint.Operations.{Logged, by_handler, by_core, event_on, events_on, IsStocked}

module _ {V D Z Err : Type 0} (set : Setting V D Z Err)
    (sync : SyncPool (Box (Option (Slot D Z)))) where
  stocked_event :
      (pools : List (Pool none sync)) (base : Ctx) (n : CarrierRef) (l : Logged V D Z)
      → IsStocked sync pools l
      → IsReady set sync pools (event_on base n l)
  stocked_event pools base n (by_handler h r) (p, at, good) = record {
    pool = p;
    pool_at = at;
    pool_as_made = good.0;
    pool_fits = good.1;
  }
  stocked_event pools base n (by_core c l) (p, at, good) = record {
    pool = p;
    pool_at = at;
    pool_as_made = good.0;
    pool_fits = good.1;
  }

  pub stocked_events :
      (pools : List (Pool none sync)) (base : Ctx) (n : CarrierRef) (ls : List (Logged V D Z))
      → All (IsStocked sync pools) ls
      → All (IsReady set sync pools) (events_on base n ls)
  stocked_events pools base n [] k = tt
  stocked_events pools base n (l ∷ ls) (k, ks) =
      (stocked_event pools base n l k, stocked_events pools base n ls ks)

module _ {V D Z Err : Type 0} (set : Setting V D Z Err)
    {sync : SyncPool (Box (Option (Slot D Z)))} where
  pub Keeps-IsStocked :
      (pools pools' : List (Pool none sync)) (l : Logged V D Z)
      → Keeps sync pools pools'
      → IsStocked sync pools l
      → IsStocked sync pools' l
  Keeps-IsStocked pools pools' (by_handler h r) keep = keep h.pool _ _
  Keeps-IsStocked pools pools' (by_core c l) keep = keep c.pool _ _

  log_event-Keeps :
      (e : Event V D Z) (w : SlotWorld D Z sync) → Keeps sync w.pools (log_event set e w).pools
  unfolding log_event
  log_event-Keeps (slog_event h ctx r) w = handle-Keeps set h ctx r w
  log_event-Keeps (zap_event c l) w = write-Keeps c set.zap_down l.entry l.fields w

  log_event-length :
      (e : Event V D Z) (w : SlotWorld D Z sync)
      → length (log_event set e w).carriers ≡ length w.carriers
  unfolding log_event
  log_event-length (slog_event h ctx r) w = handle-length set h ctx r w
  log_event-length (zap_event c l) w = write-length c set.zap_down l.entry l.fields w

  pub log_events-Kept :
      (es : List (Event V D Z)) (w : SlotWorld D Z sync)
      → Keeps sync w.pools (log_events set es w).pools
        × (length (log_events set es w).carriers ≡ length w.carriers)
  unfolding log_events
  log_events-Kept [] w = (λ r c l k. k, refl)
  log_events-Kept (e ∷ es) w =
      let (keep, same) = log_events-Kept es (log_event set e w) in
      (λ r c l k. keep r c l (log_event-Keeps e w r c l k), same ∙ log_event-length e w)

  pub run_done-Keeps : (d : Done) (w : SlotWorld D Z sync) → Keeps sync w.pools (run_done d w).pools
  unfolding run_done on
  run_done-Keeps none w = λ r c l k. k
  run_done-Keeps (some cr) w = close-Kept (store_at w cr)

  pub run_done-length :
      (d : Done) (w : SlotWorld D Z sync) → length (run_done d w).carriers ≡ length w.carriers
  unfolding run_done on
  run_done-length none w = refl
  run_done-length (some cr) w = length-set w.carriers cr (Carrier.close (store_at w cr)).carrier

  pub scope_apart :
      (base : Ctx) (w : SlotWorld D Z sync)
      → base.holder ≡ none
      → scope w base ≡ (
        record w { carriers = w.carriers ++ (new_carrier ∷ []) },
        new_context base (slog_carrier (length w.carriers)),
        some (length w.carriers),
      )
  unfolding scope live_carrier own_or_shared through_core holder_from_context from_context allocate
  scope_apart base w e = simp e refl

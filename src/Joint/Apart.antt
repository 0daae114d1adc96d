-- ===== src/Joint/Apart.antt =====
-- scope.go, handler.go and zapadapter/core.go together: what operations put out, one after the other.
use dllog.Base.{
  ◌<◌, ap₂, ◌+◌, ◌≡◌, refl, sym, ap, ◌∙◌, false, List, [], ◌∷◌, ◌++◌, Option, some, none,
  append_assoc, append-nil, All, All-imp, length, length-append, arith, get_or-append_end,
}
use dllog.Core.Types.{Box}
use dllog.Core.SyncPool.{SyncPool}
use dllog.Core.Carrier.{new_carrier}
use dllog.Core.Carrier.Kept.{Keeps}
use dllog.Core.Context.{Ctx, CarrierRef, slog_carrier, new_context, from_context, carrier_at}
use dllog.Slots.{SlotWorld, Slot}
use dllog.Slog.Handler.{Setting}
use dllog.Slog.Scope.{run_done}
use dllog.Slog.Live.{run_done-out}
use dllog.Zap.Core.{Core, for_context}
use dllog.Zap.Core as Zap
use dllog.Joint.Session.{IsOn, log_events}
use dllog.Joint.Whole.{put_out, operation_out}
use dllog.Joint.Replay.{IsReady}
use dllog.Joint.Offers.{offer_all, offer_all-accepted, All-accepted}
use dllog.Joint.Operations.{
  logged_on, Logged, by_handler, by_core, Operation, event_on, events_on, bind_event, bind_events,
  run_operation, run_operations, outputs, IsApart,
}
use dllog.Joint.Stock.{
  stocked_events, Keeps-IsStocked, log_events-Kept, run_done-Keeps, run_done-length, scope_apart,
}
use dllog.Joint.Whole.{put_out, operation_out}

pub events_on-IsOn :
    {V D Z : Type 0} (base : Ctx) (n : CarrierRef) (ls : List (Logged V D Z))
    → All (IsOn n) (events_on base n ls)
unfolding from_context new_context
events_on-IsOn base n [] = tt
events_on-IsOn base n (by_handler h r ∷ ls) = (refl, events_on-IsOn base n ls)
events_on-IsOn base n (by_core c l ∷ ls) = (refl, events_on-IsOn base n ls)

module _ {V D Z : Type 0} {sync : SyncPool (Box (Option (Slot D Z)))} where
  -- `For` on a context that carries a live carrier.
  bind_event-on :
      (w : SlotWorld D Z sync) (base : Ctx) (n : CarrierRef) (l : Logged V D Z)
      → (carrier_at w n).closed ≡ false
      → bind_event w (some (new_context base (slog_carrier n))) l ≡ event_on base n l
  unfolding for_context Zap.live_carrier Zap.rebind from_context new_context
  bind_event-on w base n (by_handler h r) live = refl
  bind_event-on w base n (by_core c l) live = rw live refl

  pub bind_events-on :
      (w : SlotWorld D Z sync) (base : Ctx) (n : CarrierRef) (ls : List (Logged V D Z))
      → (carrier_at w n).closed ≡ false
      → bind_events w (some (new_context base (slog_carrier n))) ls ≡ events_on base n ls
  bind_events-on w base n [] live = refl
  bind_events-on w base n (l ∷ ls) live =
      ap₂ ◌∷◌ (bind_event-on w base n l live) (bind_events-on w base n ls live)

module _ {D Z : Type 0} {sync : SyncPool (Box (Option (Slot D Z)))} where
  -- The world in which the scope has been opened.
  abbrev pub opened : SlotWorld D Z sync → SlotWorld D Z sync
  opened w = record w { carriers = w.carriers ++ (new_carrier ∷ []) }

  pub opened-new :
      (w : SlotWorld D Z sync) → carrier_at (opened w) (length w.carriers) ≡ new_carrier
  opened-new w = get_or-append_end w.carriers new_carrier new_carrier

  pub length-opened : (w : SlotWorld D Z sync) → length w.carriers < length (opened w).carriers
  length-opened w = omega (arith, length-append w.carriers (new_carrier {E = Slot D Z} ∷ []))

module _ {V D Z Err : Type 0} (set : Setting V D Z Err)
    {sync : SyncPool (Box (Option (Slot D Z)))} where
  run_operation-opened :
      (op : Operation V D Z) (w : SlotWorld D Z sync)
      → op.base.holder ≡ none
      → let n = length w.carriers in
        run_operation set op w ≡ run_done (some n) (log_events set (logged_on set n op) (opened w))
  unfolding run_operation
  run_operation-opened op w e =
      let n = length w.carriers in
      let live = ap (λ c. c.closed) (opened-new w) in
      simp (scope_apart set op.base w e) (
        ap (λ es. run_done (some n) (offer_all set es (opened w)))
          (bind_events-on (opened w) op.base n op.logged live)
        ∙ ap (run_done (some n)) (
            offer_all-accepted set (events_on op.base n op.logged) (opened w) n (length-opened w)
              live (events_on-IsOn op.base n op.logged)))

  run_operation-out :
      (op : Operation V D Z) (w : SlotWorld D Z sync)
      → IsApart sync w.pools op
      → (run_operation set op w).out ≡ w.out ++ put_out set (logged_on set (length w.carriers) op)
  run_operation-out op w (e, stocked) =
      let n = length w.carriers in
      let es = events_on op.base n op.logged in
      let c = opened-new w in
      ap (λ v. v.out) (run_operation-opened op w e)
      ∙ run_done-out (some n) (log_events set (logged_on set n op) (opened w))
      ∙ operation_out set (opened w) n (logged_on set n op) (length-opened w)
          (record {
            live = ap (λ c. c.closed) c;
            early = ap (λ c. c.pre_tripped) c;
            empty = ap (λ c. c.scope) c;
          })
          (All-accepted set (IsReady set sync w.pools) es
            (stocked_events set sync w.pools op.base n op.logged stocked))
          (All-accepted set (IsOn n) es (events_on-IsOn op.base n op.logged))

  run_operation-Keeps :
      (op : Operation V D Z) (w : SlotWorld D Z sync)
      → op.base.holder ≡ none
      → Keeps sync w.pools (run_operation set op w).pools
  run_operation-Keeps op w e =
      let n = length w.carriers in
      rw (run_operation-opened op w e) (λ r c l k.
        run_done-Keeps set (some n) (log_events set (logged_on set n op) (opened w)) r c l
          ((log_events-Kept set (logged_on set n op) (opened w)).0 r c l k))

  run_operation-length :
      (op : Operation V D Z) (w : SlotWorld D Z sync)
      → op.base.holder ≡ none
      → length (run_operation set op w).carriers ≡ length w.carriers + 1
  run_operation-length op w e =
      let n = length w.carriers in
      ap (λ v. length v.carriers) (run_operation-opened op w e)
      ∙ run_done-length set (some n) (log_events set (logged_on set n op) (opened w))
      ∙ (log_events-Kept set (logged_on set n op) (opened w)).1
      ∙ length-append w.carriers (new_carrier ∷ [])

  IsApart-kept :
      (op : Operation V D Z) (w : SlotWorld D Z sync)
      → op.base.holder ≡ none
      → (next : Operation V D Z) → IsApart sync w.pools next
      → IsApart sync (run_operation set op w).pools next
  IsApart-kept op w e next (free, stocked) = (
    free,
    All-imp next.logged
        (λ l.
          Keeps-IsStocked set w.pools (run_operation set op w).pools l (run_operation-Keeps op w e))
        stocked,
  )

  -- Operations, one after the other, each in the scope that it opens on a context without one,
  -- each with any calls on loggers over slog handlers and zap cores bound by `For`, whose pools
  -- are in place at the start: each puts out what it would by itself, whatever the others held,
  -- dropped or tripped. That is, of its events at or above the effective level or the buffer
  -- floor: before the first at or above its trip level, what the levels let through; at it, the
  -- replay of the others, then the event itself; after it, every event, up to the limit of the
  -- scope.
  pub operations_apart :
      (w : SlotWorld D Z sync) (ops : List (Operation V D Z))
      → All (IsApart sync w.pools) ops
      → (run_operations set ops w).out ≡ w.out ++ outputs set (length w.carriers) ops
  unfolding run_operations outputs
  operations_apart w [] apart = sym (append-nil w.out)
  operations_apart w (op ∷ ops) (a, apart) =
      let w' = run_operation set op w in
      operations_apart w' ops (All-imp ops (IsApart-kept op w a.0) apart)
      ∙ ap (λ xs. xs ++ outputs set (length w'.carriers) ops) (run_operation-out op w a)
      ∙ ap (λ n. (w.out ++ put_out set (logged_on set (length w.carriers) op)) ++ outputs set n ops)
          (run_operation-length op w a.0)
      ∙ append_assoc w.out _ _

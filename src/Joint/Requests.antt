-- ===== src/Joint/Requests.antt =====
-- middleware.go over scope.go, handler.go and zapadapter/core.go: a whole request, whatever it logs.
use Prim.Native.String.{String}
use dllog.Base.{
  ◌<◌, ◌≡◌, refl, sym, ap, ◌∙◌, Int64, le_int, Bool, true, false, ◌&&◌, List, [], ◌∷◌, ◌++◌, Option,
  some, none, inl, inr, if◌then◌else◌, Bool-cases, All, All-append, At, length,
}
use dllog.Core.Types.{Box}
use dllog.Core.SyncPool.{SyncPool}
use dllog.Core.Carrier.Bound.{IsUnbound}
use dllog.Core.Carrier.Kept.{IsGood}
use dllog.Core.Context.{
  Ctx, Context, CarrierRef, new_context, slog_carrier, from_context, carrier_at,
}
use dllog.Slots.{SlotWorld, Slot, slots}
use dllog.Slog.Types.{Record}
use dllog.Slog.Live.{run_done-out}
use dllog.Slog.Scope.{run_done}
use dllog.Slog.Handler.{Handler, Setting, trip_level, handle}
use dllog.Slog.Middleware.{
  Request, StatusWriter, status_code, MwConfig, Ending, returned, panicked, deferred, serve,
  logger_or,
}
use dllog.Slog.Request.{fails as ends_badly}
use dllog.Joint.{Event}
use dllog.Joint.Replay.{IsReady}
use dllog.Joint.Session.{IsOn, log_events}
use dllog.Joint.Whole.{failure, put_out, operation_out, log_events-append}
use dllog.Joint.Offers.{offer_all, accepted, offer_all-accepted, All-accepted}
use dllog.Joint.Operations.{Logged, bind_events, events_on, IsStocked}
use dllog.Joint.Stock.{stocked_events, scope_apart}
use dllog.Joint.Apart.{bind_events-on, opened, opened-new, length-opened, events_on-IsOn}
use dllog.Joint.Anchor.{is_empty, anchor_event, anchor-out}

All-if {κ} :
    {A : Type 0} (P : A → Type κ) (b : Bool) (x : A) → P x → All P (if b then x ∷ [] else [])
All-if P true x p = (p, tt)
All-if P false x p = tt

from_context-new :
    (base : Ctx) (n : CarrierRef) → from_context (some (new_context base (slog_carrier n))) ≡ some n
unfolding from_context new_context
from_context-new base n = refl

module _ {V D Z Err L : Type 0} {sync : SyncPool (Box (Option (Slot D Z)))}
    (set : Setting V D Z Err) (h : Handler V D)
    (log_error : L → Context → String → String → Int64 → SlotWorld D Z sync → SlotWorld D Z sync)
    (default_logger : L) (cfg : MwConfig L) (record_of : String → String → Int64 → Record)
    (logs : (ctx : Context) (method path : String) (status : Int64) (w : SlotWorld D Z sync)
      → log_error (logger_or default_logger cfg.logger) ctx method path status w
        ≡ (handle set h ctx (record_of method path status) w).0)
    (loud : (method path : String) (status : Int64)
      → le_int (trip_level set h) (record_of method path status).level ≡ true)
    (sw : StatusWriter) where
  abbrev anchor_of : Ctx → Request → Event V D Z
  anchor_of ctx r = anchor_event set h log_error default_logger cfg record_of logs loud ctx r sw

  module _ {P : Type 0} where
    -- The events of a request: those of its handler, and the anchor, if it ends badly and none of
    -- its own has failed.
    abbrev pub with_anchor : Ending P → Ctx → Request → List (Event V D Z) → List (Event V D Z)
    with_anchor ending ctx r es =
        es
        ++ (if ends_badly cfg sw ending && is_empty (failure set es)
            then anchor_of ctx r ∷ []
            else [])

    deferred-out :
        (w : SlotWorld D Z sync) (ctx : Ctx) (cr : CarrierRef) (es : List (Event V D Z))
        (r : Request) (ending : Ending P)
        → cr < length w.carriers
        → IsUnbound (carrier_at w cr)
        → All (IsReady set sync w.pools) es
        → from_context (some ctx) ≡ some cr
        → All (IsOn cr) es
        → IsReady set sync w.pools (anchor_of ctx r)
        → let w' = log_events set es w in
          (deferred (slots set.zap_down) log_error default_logger cfg ctx r sw ending w').out
          ≡ (log_events set (with_anchor ending ctx r es) w).out
    unfolding deferred ends_badly log_events
    deferred-out w ctx cr es r (panicked p) inside u ready at on_cr r_ready =
        anchor-out set h log_error default_logger cfg record_of logs loud w ctx cr es r sw inside u
          ready at on_cr r_ready
        ∙ ap (λ v. v.out) (sym (log_events-append set es _ w))
    deferred-out w ctx cr es r returned inside u ready at on_cr r_ready =
        elim (Bool-cases (cfg.trip_on (status_code sw))) [
          | inl e ↦ rw e (
              anchor-out set h log_error default_logger cfg record_of logs loud w ctx cr es r sw
                inside u ready at on_cr r_ready
              ∙ ap (λ v. v.out) (sym (log_events-append set es _ w)))
          | inr e ↦ rw e (ap (λ v. v.out) (sym (log_events-append set es [] w)))
        ]

    module _ (base : Request) (ls : List (Logged V D Z)) (routed : Request → Request)
        (ending : Ending P) where
      -- The wrapped handler: it makes the calls on its loggers, has the pattern of its request set,
      -- and ends.
      abbrev pub calling_handler :
          Request → SlotWorld D Z sync → SlotWorld D Z sync × Request × StatusWriter × Ending P
      calling_handler q v =
          (offer_all set (bind_events v (some q.context) ls) v, routed q, sw, ending)

      -- What is logged in the request, on the carrier `n`.
      abbrev pub request_events : CarrierRef → List (Event V D Z)
      request_events n =
          let ctx = new_context base.context (slog_carrier n) in
          with_anchor ending ctx (routed (record base { context = ctx }))
            (accepted set (events_on base.context n ls))

      -- A request through the middleware, on a context without a scope, with the pools in
      -- place, whose wrapped handler makes any calls on loggers over slog handlers and zap
      -- cores, failing ones too, and then returns or panics; the logger of the anchor gives
      -- its record, at or above the trip level, to a slog handler. Put out is what one
      -- operation puts out that logs the same events and then, if the handler panicked or
      -- the status satisfies the predicate, and no event has tripped the scope before, the
      -- anchor: a request that has logged its own failure is not anchored again. The status
      -- and the panic go on unchanged.
      pub serve-put_out :
          (w : SlotWorld D Z sync)
          → base.context.holder ≡ none
          → All (IsStocked sync w.pools) ls
          → At (IsGood sync h.cfg.capacity h.cfg.post_trip_limit) w.pools h.pool
          → let (w', sw', ending') =
              serve (slots set.zap_down) log_error default_logger cfg calling_handler base w in
            (w'.out ≡ w.out ++ put_out set (request_events (length w.carriers)))
            × (sw' ≡ sw)
            × (ending' ≡ ending)
      unfolding serve
      serve-put_out w e stocked (p, found, good) =
          let n = length w.carriers in
          let ctx = new_context base.context (slog_carrier n) in
          let c = opened-new w in
          let u : IsUnbound (carrier_at (opened w) n) = record {
            live = ap (λ c. c.closed) c;
            early = ap (λ c. c.pre_tripped) c;
            empty = ap (λ c. c.scope) c;
          } in
          let all = events_on base.context n ls in
          let es = accepted set all in
          let on_n = events_on-IsOn base.context n ls in
          let on_es = All-accepted set (IsOn n) all on_n in
          let ready =
            All-accepted set (IsReady set sync w.pools) all
              (stocked_events set sync w.pools base.context n ls stocked) in
          let r = routed (record base { context = ctx }) in
          let anchored : IsReady set sync w.pools (anchor_of ctx r) = record {
            pool = p;
            pool_at = found;
            pool_as_made = good.0;
            pool_fits = good.1;
          } in
          let bad = ends_badly cfg sw ending && is_empty (failure set es) in
          let at = from_context-new base.context n in
          let offered =
            ap (λ xs. offer_all set xs (opened w))
              (bind_events-on (opened w) base.context n ls u.live)
            ∙ offer_all-accepted set all (opened w) n (length-opened w) u.live on_n in
          (
            ap
                  (λ s.
                    (run_done s.2 (
                      deferred (slots set.zap_down) log_error default_logger cfg s.1
                        (routed (record base { context = s.1 })) sw ending
                        (offer_all set (bind_events s.0 (some s.1) ls) s.0))).out)
                  (scope_apart set base.context w e)
                ∙ run_done-out (some n) _
                ∙ ap
                    (λ v.
                      (deferred (slots set.zap_down) log_error default_logger cfg ctx r sw ending
                        v).out)
                    offered
                ∙ deferred-out (opened w) ctx n es r ending (length-opened w) u ready at on_es
                    anchored
                ∙ operation_out set (opened w) n (with_anchor ending ctx r es) (length-opened w) u
                    (All-append (IsReady set sync w.pools) es _ ready
                      (All-if (IsReady set sync w.pools) bad (anchor_of ctx r) anchored))
                    (All-append (IsOn n) es _ on_es (All-if (IsOn n) bad (anchor_of ctx r) at)),
            refl,
            refl,
          )

-- ===== src/Slog/Request.antt =====
-- middleware.go over handler.go and scope.go: what a whole request puts out, when the logger of the
-- anchor is backed by the handler that the request logs through.
use Prim.Native.String.{String}
use dllog.Base.{
  ◌≡◌, refl, ap, ◌∙◌, Int64, le_int, Bool, true, List, [], ◌∷◌, ◌++◌, Option, inl, inr, some, none,
  if◌then◌else◌, Bool-cases, append-nil, append_assoc, All,
}
use dllog.Core.Types.{Box}
use dllog.Core.SyncPool.{SyncPool}
use dllog.Slots.Replay.{replay}
use dllog.Core.Context.{Ctx, Context, CarrierRef, from_context}
use dllog.Slots.{SlotWorld, Slot, Output, handled, slots}
use dllog.Slog.Types.{Record}
use dllog.Slog.Scope.{live_carrier, scope, trip}
use dllog.Slog.Live.{run_done-out}
use dllog.Slog.Handler.{Handler, Setting, trip_level, handle}
use dllog.Slog.Session.{shown, withheld}
use dllog.Slog.Replay.{HasPool, IsOpen, IsQuiet, scope_ctx, log_all, session-IsOpen, scope-IsOpen}
use dllog.Slog.Tripped.{trip-handle, already_tripped-IsOpen}
use dllog.Slog.Middleware.{
  Request, StatusWriter, status_code, MwConfig, Ending, returned, panicked, anchor, deferred, serve,
  logger_or,
}

-- Whether a request gets an anchor, if its operation has not tripped before its end.
unfoldable pub fails : {L P : Type 0} → MwConfig L → StatusWriter → Ending P → Bool
fails cfg sw (panicked p) = true
fails cfg sw returned = cfg.trip_on (status_code sw)

module _ {V D Z Err L : Type 0} {sync : SyncPool (Box (Option (Slot D Z)))}
    (set : Setting V D Z Err) (h : Handler V D)
    (log_error : L → Context → String → String → Int64 → SlotWorld D Z sync → SlotWorld D Z sync)
    (default_logger : L) (cfg : MwConfig L) (record_of : String → String → Int64 → Record)
    (logs : (ctx : Context) (method path : String) (status : Int64) (w : SlotWorld D Z sync)
      → log_error (logger_or default_logger cfg.logger) ctx method path status w
        ≡ (handle set h ctx (record_of method path status) w).0)
    (loud : (method path : String) (status : Int64)
      → le_int (trip_level set h) (record_of method path status).level ≡ true) where
  abbrev pub anchor_record : Request → StatusWriter → Record
  anchor_record r sw = record_of r.method (cfg.anchor_path r) (status_code sw)

  -- What the end of a request adds to what its records put out.
  abbrev pub anchored :
      {P : Type 0} → Context → Request → StatusWriter → Ending P → List Record → List (Output D Z)
  anchored ctx r sw ending rs =
      if fails cfg sw ending
      then replay set.zap_down h.cfg.capacity (withheld set h ctx rs)
        ++ (handled h.downstream ctx (anchor_record r sw) ∷ [])
      else []

  anchor-IsOpen :
      (w : SlotWorld D Z sync) (ctx : Ctx) (c : CarrierRef) (seen : List (Option (Slot D Z)))
      (r : Request) (sw : StatusWriter)
      → from_context (some ctx) ≡ some c
      → IsOpen set h (some ctx) w c seen
      → (anchor (slots set.zap_down) log_error default_logger cfg ctx r (status_code sw) w).out
        ≡ w.out
          ++ (replay set.zap_down h.cfg.capacity seen
              ++ (handled h.downstream (some ctx) (anchor_record r sw) ∷ []))
  unfolding anchor
  anchor-IsOpen w ctx c seen r sw at k =
      rw
        (
          already_tripped-IsOpen set h (some ctx) w c seen at k,
          logs (some ctx) r.method (cfg.anchor_path r) (status_code sw)
              (trip (slots set.zap_down) (some ctx) w),
        )
        (trip-handle set h (some ctx) w c seen (anchor_record r sw) at k
          (loud r.method (cfg.anchor_path r) (status_code sw)))

  deferred-IsOpen :
      {P : Type 0} (w : SlotWorld D Z sync) (ctx : Ctx) (c : CarrierRef) (rs : List Record)
      (r : Request) (sw : StatusWriter) (ending : Ending P)
      → from_context (some ctx) ≡ some c
      → IsOpen set h (some ctx) w c (withheld set h (some ctx) rs)
      → (deferred (slots set.zap_down) log_error default_logger cfg ctx r sw ending w).out
        ≡ w.out ++ anchored (some ctx) r sw ending rs
  unfolding deferred fails
  deferred-IsOpen w ctx c rs r sw (panicked p) at k = anchor-IsOpen w ctx c _ r sw at k
  deferred-IsOpen w ctx c rs r sw returned at k = elim (Bool-cases (cfg.trip_on (status_code sw))) [
    | inl e ↦ rw e (anchor-IsOpen w ctx c _ r sw at k)
    | inr e ↦ rw (e, append-nil w.out) refl
  ]

  module _ {P : Type 0} (w : SlotWorld D Z sync) (base : Request)
      (free : live_carrier w (some base.context) ≡ none)
      (pool : HasPool set h (scope_ctx set h w base.context) w) (rs : List Record)
      (quiet : All (IsQuiet set h (scope_ctx set h w base.context)) rs) (routed : Request → Request)
      (sw : StatusWriter) (ending : Ending P) where
    -- The wrapped handler: it logs `rs`, has the pattern of its request set, and ends.
    abbrev pub logging_handler :
        Request → SlotWorld D Z sync → SlotWorld D Z sync × Request × StatusWriter × Ending P
    logging_handler q v = (log_all set h (some q.context) rs v, routed q, sw, ending)

    -- What the end of the request adds.
    abbrev pub added : List (Output D Z)
    added =
        anchored (scope_ctx set h w base.context)
          (routed (record base { context = (scope w base.context).1 })) sw ending rs

    -- A request through the middleware, on a context with no live scope and with the pool of
    -- `h` in place, whose wrapped handler logs records below the trip level through `h` and
    -- then returns or panics; the logger of the anchor gives its record to `h`, at or above
    -- the trip level. Put out, in order: the records that the level alone lets through; then,
    -- if the status satisfies the predicate or the handler panicked, the replay of the others
    -- and the anchor, made from the request as the wrapped handler left it, and otherwise
    -- nothing. The status and the panic go on unchanged.
    pub serve_request :
        let (w', sw', ending') =
          serve (slots set.zap_down) log_error default_logger cfg logging_handler base w in
        (w'.out ≡ w.out ++ (shown set h (scope_ctx set h w base.context) rs ++ added))
        × (sw' ≡ sw)
        × (ending' ≡ ending)
    unfolding serve
    serve_request =
        let (_, at, _, _) = scope-IsOpen set h _ w base.context free pool in
        let (k, out) = session-IsOpen set h w base.context free pool rs quiet in
        (
          run_done-out _ _
              ∙ deferred-IsOpen _ _ _ rs _ sw ending at k
              ∙ ap (λ xs. xs ++ added) out
              ∙ append_assoc w.out _ _,
          refl,
          refl,
        )

-- ===== src/Slog/Middleware.antt =====
-- middleware.go: the HTTP middleware. The wrapped handler, the logger that writes the anchor and
-- the response below the status writer are parameters.
use Prim.Native.String.{String}
use text.Mathlib.Text.{◌==◌ as str_eq}
use dllog.Base.{
  List, [], ◌∷◌, Int64, le_int, Bool, false, not, Option, some, none, if◌then◌else◌, ◌==◌,
}
use dllog.Core.Types.{Box}
use dllog.Core.SyncPool.{SyncPool}
use dllog.Core.Carrier
use dllog.Core.Carrier.{Entry}
use dllog.Core.Context.{Ctx, Context, CarrierRef, World, store_at}
use dllog.Slog.Scope.{live_carrier, scope, run_done, trip}

-- `http.StatusOK`
abbrev pub status_ok : Int64
status_ok = 200

-- `*http.Request`: what the anchor says of it, and its context.
pub record Request : Type 0 where
  pub method : String
  pub pattern : String
  pub path : String
  pub context : Ctx

-- `statusWriter`; the calls that it passes on are the wrapped writer's.
pub record StatusWriter : Type 0 where
  pub status : Int64

unfoldable pub write_header : StatusWriter → Int64 → StatusWriter
write_header w status = if w.status == 0 then record w { status = status } else w

unfoldable pub write_body : StatusWriter → StatusWriter
write_body w = if w.status == 0 then record w { status = status_ok } else w

unfoldable pub status_code : StatusWriter → Int64
status_code w = if w.status == 0 then status_ok else w.status

-- `L` is the loggers of the program.
pub record MwConfig (L : Type 0) : Type 0 where
  pub trip_on : Int64 → Bool
  pub logger : Option L
  pub anchor_path : Request → String

unfoldable pub route_path : Request → String
route_path r = if not (str_eq r.pattern "") then r.pattern else r.path

module _ {L : Type 0} where
  unfoldable pub new_mw_config : MwConfig L
  new_mw_config = record {
    trip_on = λ status. le_int 500 status;
    logger = none;
    anchor_path = route_path;
  }

  -- A function or a logger given to an option may be nil.
  unfoldable pub with_trip_on : Option (Int64 → Bool) → MwConfig L → MwConfig L
  with_trip_on none c = c
  with_trip_on (some fn) c = record c { trip_on = fn }

  unfoldable pub with_logger : Option L → MwConfig L → MwConfig L
  with_logger none c = c
  with_logger (some l) c = record c { logger = some l }

  unfoldable pub with_anchor_path : Option (Request → String) → MwConfig L → MwConfig L
  with_anchor_path none c = c
  with_anchor_path (some fn) c = record c { anchor_path = fn }

  -- The options of `Middleware`, in order; a nil one is passed over.
  unfoldable pub apply_options : List (Option (MwConfig L → MwConfig L)) → MwConfig L → MwConfig L
  apply_options [] c = c
  apply_options (none ∷ opts) c = apply_options opts c
  apply_options (some opt ∷ opts) c = apply_options opts (opt c)

-- How the wrapped handler ended.
pub data Ending (P : Type 0) : Type 0 where
  returned : Ending P
  panicked : P → Ending P

abbrev pub logger_or : {L : Type 0} → L → Option L → L
logger_or default_logger none = default_logger
logger_or default_logger (some l) = l

module _ {E O : Type 0} {sync : SyncPool (Box (Option E))} where
  unfoldable pub tripped_at : World E O sync → Option CarrierRef → Bool
  tripped_at w none = false
  tripped_at w (some c) = Carrier.tripped (store_at w c)

  unfoldable pub already_tripped : World E O sync → Context → Bool
  unfolding tripped_at
  already_tripped w ctx = tripped_at w (live_carrier w ctx)

  module _ {L : Type 0} (ops : Entry E O)
      (log_error : L → Context → String → String → Int64 → World E O sync → World E O sync)
      (default_logger : L) (cfg : MwConfig L) where
    -- `log_error` is a logger's `ErrorContext`, given the anchor's method, path and status.
    unfoldable pub anchor : Ctx → Request → Int64 → World E O sync → World E O sync
    anchor ctx r status w =
        if already_tripped w (some ctx)
        then w
        else log_error (logger_or default_logger cfg.logger) (some ctx) r.method (cfg.anchor_path r)
            status (trip ops (some ctx) w)

    -- The deferred function; a panic goes on after the anchor.
    unfoldable pub deferred :
        {P : Type 0} → Ctx → Request → StatusWriter → Ending P → World E O sync → World E O sync
    deferred ctx r sw (panicked p) w = anchor ctx r (status_code sw) w
    deferred ctx r sw returned w =
        if cfg.trip_on (status_code sw) then anchor ctx r (status_code sw) w else w

    -- The handler that `Middleware` returns around `next`, which may set the pattern of the request
    -- that it is given; `done` runs last.
    unfoldable pub serve :
        {P : Type 0}
        → (Request → World E O sync → World E O sync × Request × StatusWriter × Ending P)
        → Request
        → World E O sync
        → World E O sync × StatusWriter × Ending P
    serve next r w =
        let (opened, ctx, done) = scope w r.context in
        let (after, req, sw, ending) = next (record r { context = ctx }) opened in
        (run_done done (deferred ctx req sw ending after), sw, ending)

module _ {E O L : Type 0} {sync : SyncPool (Box (Option E))} (ops : Entry E O)
    (log_error : L → Context → String → String → Int64 → World E O sync → World E O sync)
    (default_logger : L) where
  -- `Middleware`
  unfoldable pub middleware :
      {P : Type 0}
      → List (Option (MwConfig L → MwConfig L))
      → (Request → World E O sync → World E O sync × Request × StatusWriter × Ending P)
      → Request
      → World E O sync
      → World E O sync × StatusWriter × Ending P
  middleware opts next r w =
      serve ops log_error default_logger (apply_options opts new_mw_config) next r w

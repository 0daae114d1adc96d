-- ===== src/Slog/Tests.antt =====
-- One operation over a ring of two cells, quiet and failed, and the theorems at these values.
use dllog.Base.{ℕ, ◌≡◌, refl, List, [], ◌∷◌, true, arith, some, none, Option, Int64}
use dllog.Core.Types.{Box}
use dllog.Core.SyncPool.{SyncPool, stack_pool}
use dllog.Core.Pool.{Pool, new_scope_pool}
use dllog.Core.Scope.Pooled.{new_scope_pool-IsPoolOf}
use dllog.Core.Carrier.{new_carrier}
use dllog.Core.Context.{from_context, Ctx, Context, slog_carrier, zap_carrier}
use dllog.Slots.{Slot, SlotWorld, handled, slots, dropped_message, dropped_key, default_replay_key}
use dllog.Slog.Types.{
  Record, Level, level_debug, level_info, level_warn, level_error, new_record, add_attr, Downstream,
}
use dllog.Slog.Types as Slog
use dllog.Slog.Options.{resolve, fixed, with_capacity}
use dllog.Slog.Built.{IsBuilt, new-IsBuilt}
use dllog.Slog.New.{new, with_pool}
use Prim.Native.String.{String}
use dllog.Slog.Replay.{log_all, HasPool, scope_ctx, after_records, quiet_success, failure_replay}
use dllog.Slog.Request.{fails, serve_request}
use dllog.Slog.Middleware.{
  status_code, Request, StatusWriter, new_mw_config, returned, serve, Ending,
}
use dllog.Slog.Served.{header, body, respond, first_status, status_code-respond}
use dllog.Slog.Unscoped.{handle-enabled}
use dllog.Slog.Handler.{enabled, Handler, Setting, handle}
use dllog.Slog.Scope.{scope, run_done, live_carrier}
use dllog.Slog.Session
use dllog.Slog.Live.{live_carrier-live}

abbrev sync : SyncPool (Box (Option (Slot ℕ ℕ)))
sync = stack_pool (Box (Option (Slot ℕ ℕ)))

abbrev setting : Setting ℕ ℕ ℕ Unit
setting = record {
  down = record {
    enabled = λ _ _ _. true;
    handle = λ _ _ _. none;
    with_attrs = λ d _. d;
    with_group = λ d _. d;
  };
  zap_down = record { enabled = λ _ _. true; check = λ _ _. true; with_fields = λ z _. z };
  read = λ _. 0;
}

abbrev handler : Handler ℕ ℕ
handler = record {
  cfg = record {
    level = fixed level_info;
    buffer_floor = fixed level_debug;
    trip_level = fixed level_error;
    capacity = 2;
    post_trip_limit = 0;
    replay_key = default_replay_key;
  };
  downstream = 6;
  pool = 0;
}

abbrev two_cells : Pool none sync
two_cells = new_scope_pool none sync 2 0

abbrev start : SlotWorld ℕ ℕ sync
start = record { carriers = []; pools = two_cells ∷ []; next_box = 0; out = [] }

abbrev request : Ctx
request = record { values = 40; holder = none }

abbrev in_scope : Context
in_scope = some (record { values = 40; holder = some (slog_carrier 0) })

start-HasPool : HasPool setting handler (scope_ctx setting handler start request) start
unfolding new_scope_pool
start-HasPool = record {
  pool = two_cells;
  pool_at = refl;
  pool_of = new_scope_pool-IsPoolOf none sync 2 0;
  pool_fits = record {
    positive = omega arith;
    small = omega arith;
    bounded = omega arith;
    zeroed = tt;
  };
}

abbrev at_level : ℕ → Level → Record
at_level n l = new_record n l "work" 0

-- Three debug records and an info record.
abbrev records : List Record
records =
    at_level 1 level_debug
    ∷ at_level 2 level_debug
    ∷ at_level 3 level_info
    ∷ at_level 4 level_debug
    ∷ []

quiet_success_example :
    (run_done (scope start request).2 (after_records setting handler start request records)).out
    ≡ handled 6 in_scope (at_level 3 level_info) ∷ []
unfolding scope live_carrier Session.shown
quiet_success_example =
    quiet_success setting handler start request refl start-HasPool records
      (refl, (refl, (refl, (refl, tt))))

failure_replay_example :
    (handle setting handler in_scope
      (at_level 5 level_error)
      (after_records setting handler start request records)).0.out
    ≡ handled 6 in_scope (at_level 3 level_info)
      ∷ handled 6 in_scope (
          add_attr
            (new_record 2 level_warn dropped_message 0)
            (record { key = dropped_key; value = Slog.Value.int 1 }))
      ∷ handled 6 in_scope (
          add_attr
            (at_level 2 level_debug)
            (record { key = default_replay_key; value = Slog.Value.bool true }))
      ∷ handled 6 in_scope (
          add_attr
            (at_level 4 level_debug)
            (record { key = default_replay_key; value = Slog.Value.bool true }))
      ∷ handled 6 in_scope (at_level 5 level_error)
      ∷ []
unfolding scope live_carrier Session.shown Session.withheld
failure_replay_example =
    failure_replay setting handler start request refl start-HasPool records
      (refl, (refl, (refl, (refl, tt)))) (at_level 5 level_error) refl

-- A scope that the zap adapter opened is found too.
live_carrier-live_example :
    live_carrier
      (record start { carriers = new_carrier ∷ [] })
      (some (record { values = 40; holder = some (zap_carrier 0) }))
    ≡ some 0
unfolding from_context
live_carrier-live_example =
    live_carrier-live (record start { carriers = new_carrier ∷ [] })
      (some (record { values = 40; holder = some (zap_carrier 0) })) 0 refl refl

-- A debug record without a scope is not enabled, and not put out.
handle-enabled_example :
    (handle setting handler (some request) (at_level 1 level_debug) start).0 ≡ start
unfolding live_carrier enabled
handle-enabled_example =
    handle-enabled setting handler (some request) start (at_level 1 level_debug) refl

abbrev bare : SlotWorld ℕ ℕ sync
bare = record { carriers = []; pools = []; next_box = 0; out = [] }

new-IsBuilt_example : IsBuilt setting none handler start
unfolding new with_capacity with_pool resolve
new-IsBuilt_example =
    new-IsBuilt setting none (some 6) (some (with_capacity 2) ∷ []) bare start handler refl
      (record { capacity_in = omega arith; limit_in = omega arith; small = refl })

-- A handler that sends a status and a body, and then a status that is ignored.
status_code-respond_example :
    status_code (respond (header 503 ∷ body ∷ header 200 ∷ []) (record { status = 0 })) ≡ 503
unfolding first_status
status_code-respond_example = status_code-respond (header 503 ∷ body ∷ header 200 ∷ [])

abbrev http_request : Request
http_request = record { method = "GET"; pattern = ""; path = "/work"; context = request }

-- A logger whose `ErrorContext` gives the handler a record of its status.
abbrev log_error : ℕ → Context → String → String → Int64 → SlotWorld ℕ ℕ sync → SlotWorld ℕ ℕ sync
log_error _ ctx _ _ status w = (handle setting handler ctx (at_level status level_error) w).0

abbrev failing : StatusWriter
failing = record { status = 503 }

abbrev ended : Ending ℕ
ended = returned

-- A request that ends with the status 503 after the four records.
serve_request_example :
    let (w', sw', ending') =
      serve
        (slots setting.zap_down)
        log_error
        0
        new_mw_config
        (λ q v. (log_all setting handler (some q.context) records v, q, failing, ended))
        http_request
        start in
    (w'.out
      ≡ handled 6 in_scope (at_level 3 level_info)
        ∷ handled 6 in_scope (
            add_attr
              (new_record 2 level_warn dropped_message 0)
              (record { key = dropped_key; value = Slog.Value.int 1 }))
        ∷ handled 6 in_scope (
            add_attr
              (at_level 2 level_debug)
              (record { key = default_replay_key; value = Slog.Value.bool true }))
        ∷ handled 6 in_scope (
            add_attr
              (at_level 4 level_debug)
              (record { key = default_replay_key; value = Slog.Value.bool true }))
        ∷ handled 6 in_scope (at_level 503 level_error)
        ∷ [])
    × (sw' ≡ failing)
    × (ending' ≡ ended)
unfolding scope live_carrier Session.shown Session.withheld fails new_mw_config status_code
serve_request_example =
    serve_request setting handler log_error 0 new_mw_config
      (λ _ _ status. at_level status level_error) (λ _ _ _ _ _. refl) (λ _ _ _. refl) start
      http_request refl start-HasPool records (refl, (refl, (refl, (refl, tt)))) (λ q. q) failing
      ended

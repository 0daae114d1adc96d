-- ===== src/Joint/RequestTests.antt =====
-- A request that logs through a slog handler and a zap core, and the theorem at these values.
use Prim.Native.String.{String}
use dllog.Base.{ℕ, ◌≡◌, refl, Int64, List, [], ◌∷◌}
use dllog.Core.Context.{Context}
use dllog.Slots.{SlotWorld, handled, written, slots}
use dllog.Slog.Types as Slog
use dllog.Slog.Handler.{handle}
use dllog.Slog.Middleware.{
  Request, StatusWriter, status_code, Ending, returned, new_mw_config, serve,
}
use dllog.Slog.Request
use dllog.Zap.Types as Zap
use dllog.Joint.{shown, withheld, ring_capacity}
use dllog.Joint.Budget.{limit_after, allowed, puts_all}
use dllog.Joint.Offers.{accepted}
use dllog.Joint.Whole.{quiet, failure, put_out}
use dllog.Joint.Operations.{Logged}
use dllog.Joint.Requests.{calling_handler, serve-put_out}
use dllog.Joint.Tests.{sync, setting, handler, record_at, entry_at}
use dllog.Joint.SequenceTests.{
  empty_world, request, in_request, to_handler, to_core, to_handler-IsStocked, to_core-IsStocked,
}

abbrev http_request : Request
http_request = record { method = "GET"; pattern = ""; path = "/work"; context = request 50 }

-- A logger whose `ErrorContext` gives the handler a record of its status.
abbrev log_error : ℕ → Context → String → String → Int64 → SlotWorld ℕ ℕ sync → SlotWorld ℕ ℕ sync
log_error _ ctx _ _ status w = (handle setting handler ctx (record_at status Slog.level_error) w).0

abbrev unavailable : StatusWriter
unavailable = record { status = 503 }

abbrev ended : Ending ℕ
ended = returned

abbrev calls : List (Logged ℕ ℕ ℕ)
calls = to_core 1 Zap.debug_level ∷ to_handler 2 Slog.level_error ∷ []

-- The handler's own error record is the request's: the status adds no anchor.
serve-put_out_example :
    let (w', sw', ending') =
      serve
        (slots setting.zap_down)
        log_error
        0
        new_mw_config
        (calling_handler setting handler log_error 0 new_mw_config
          (λ _ _ status. record_at status Slog.level_error)
          (λ _ _ _ _ _. refl)
          (λ _ _ _. refl)
          unavailable
          http_request
          calls
          (λ q. q)
          ended)
        http_request
        empty_world in
    (w'.out
      ≡ written 7
          (entry_at 1 Zap.debug_level)
          (record { key = "again"; type = Zap.FieldType.bool_type; integer = 1 } ∷ [])
        ∷ handled 6 (in_request 50 0) (record_at 2 Slog.level_error)
        ∷ [])
    × (sw' ≡ unavailable)
    × (ending' ≡ ended)
unfolding accepted put_out quiet failure shown withheld ring_capacity limit_after allowed puts_all
    Request.fails new_mw_config status_code
serve-put_out_example =
    serve-put_out setting handler log_error 0 new_mw_config
      (λ _ _ status. record_at status Slog.level_error) (λ _ _ _ _ _. refl) (λ _ _ _. refl)
      unavailable http_request calls (λ q. q) ended empty_world refl
      (to_core-IsStocked 1 Zap.debug_level, (to_handler-IsStocked 2 Slog.level_error, tt))
      (to_handler-IsStocked 2 Slog.level_error)

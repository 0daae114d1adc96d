-- ===== src/Joint/SequenceTests.antt =====
-- Three operations through a slog handler and a zap core, and the theorem at these values.
use dllog.Base.{ℕ, ◌≡◌, refl, List, [], ◌∷◌, arith, some, none}
use dllog.Core.Pool.{new_scope_pool}
use dllog.Core.Scope.Pooled.{new_scope_pool-IsPoolOf}
use dllog.Core.Context.{Ctx, Context, CarrierRef, new_context, slog_carrier}
use dllog.Slots.{SlotWorld, handled, written}
use dllog.Slog.Types as Slog
use dllog.Zap.Types as Zap
use dllog.Zap.Core.{Core}
use dllog.Joint.{shown, withheld, ring_capacity}
use dllog.Joint.Budget.{limit_after, allowed, puts_all}
use dllog.Joint.Whole.{quiet, failure, put_out}
use dllog.Joint.Offers.{accepted}
use dllog.Joint.Operations.{
  Logged, by_handler, by_core, Operation, run_operations, outputs, IsStocked,
}
use dllog.Joint.Apart.{operations_apart}
use dllog.Joint.Tests.{sync, setting, handler, tight_core, record_at, entry_at}

abbrev free_core : Core ℕ
free_core = record tight_core { carrier = none }

abbrev pub empty_world : SlotWorld ℕ ℕ sync
empty_world = record {
  carriers = [];
  pools = new_scope_pool none sync 3 0 ∷ new_scope_pool none sync 2 1 ∷ [];
  next_box = 0;
  out = [];
}

abbrev pub request : ℕ → Ctx
request n = record { values = n; holder = none }

abbrev pub in_request : ℕ → CarrierRef → Context
in_request n c = some (new_context (request n) (slog_carrier c))

abbrev pub to_handler : ℕ → Slog.Level → Logged ℕ ℕ ℕ
to_handler n l = by_handler handler (record_at n l)

abbrev pub to_core : ℕ → Zap.Level → Logged ℕ ℕ ℕ
to_core n l = by_core free_core (record { entry = entry_at n l; fields = [] })

-- One that succeeds, one that fails and goes on, and one that succeeds.
abbrev operations : List (Operation ℕ ℕ ℕ)
operations =
    record {
      base = request 40;
      logged = to_core 1 Zap.debug_level ∷ to_handler 2 Slog.level_info ∷ [];
    }
    ∷ record {
      base = request 41;
      logged =
          to_core 3 Zap.debug_level
          ∷ to_handler 4 Slog.level_error
          ∷ to_handler 5 Slog.level_debug
          ∷ to_core 6 Zap.error_level
          ∷ [];
    }
    ∷ record { base = request 42; logged = to_handler 7 Slog.level_debug ∷ [] }
    ∷ []

pub to_handler-IsStocked :
    (n : ℕ) (l : Slog.Level) → IsStocked sync empty_world.pools (to_handler n l)
unfolding new_scope_pool
to_handler-IsStocked n l = (
  new_scope_pool none sync 3 0,
  refl,
  (
    new_scope_pool-IsPoolOf none sync 3 0,
    record { positive = omega arith; small = omega arith; bounded = omega arith; zeroed = tt },
  ),
)

pub to_core-IsStocked : (n : ℕ) (l : Zap.Level) → IsStocked sync empty_world.pools (to_core n l)
unfolding new_scope_pool
to_core-IsStocked n l = (
  new_scope_pool none sync 2 1,
  refl,
  (
    new_scope_pool-IsPoolOf none sync 2 1,
    record { positive = omega arith; small = omega arith; bounded = omega arith; zeroed = tt },
  ),
)

-- The failure of the second replays what the second withheld, and its limit of one is spent on the
-- debug record after it; the third is quiet again.
operations_apart_example :
    (run_operations setting operations empty_world).out
    ≡ handled 6 (in_request 40 0) (record_at 2 Slog.level_info)
      ∷ written 7
          (entry_at 3 Zap.debug_level)
          (record { key = "again"; type = Zap.FieldType.bool_type; integer = 1 } ∷ [])
      ∷ handled 6 (in_request 41 1) (record_at 4 Slog.level_error)
      ∷ handled 6 (in_request 41 1) (record_at 5 Slog.level_debug)
      ∷ []
unfolding outputs accepted put_out quiet failure shown withheld ring_capacity limit_after allowed
    puts_all
operations_apart_example = operations_apart setting empty_world operations (
  (refl, (to_core-IsStocked 1 Zap.debug_level, (to_handler-IsStocked 2 Slog.level_info, tt))),
  (
    (
      refl,
      (
        to_core-IsStocked 3 Zap.debug_level,
        (
          to_handler-IsStocked 4 Slog.level_error,
          (to_handler-IsStocked 5 Slog.level_debug, (to_core-IsStocked 6 Zap.error_level, tt)),
        ),
      ),
    ),
    ((refl, (to_handler-IsStocked 7 Slog.level_debug, tt)), tt),
  ),
)

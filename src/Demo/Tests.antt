-- ===== src/Demo/Tests.antt =====
-- The demonstration's output, and a coloured line, with the theorems at these values.
use dllog.Base.{
  ℕ, ◌+◌, ◌≤◌, ◌≡◌, refl, true, le_int, [], ◌∷◌, ◌++◌, Option, some, none, length, codes, Bytes,
  index, arith, false,
}
use dllog.Core.Types.{Box}
use dllog.Core.SyncPool.{SyncPool, stack_pool}
use dllog.Core.Context.{Context, CarrierRef, new_context, slog_carrier}
use dllog.Slots.{SlotWorld, Slot, Output, handled, default_replay_key}
use dllog.Slog.Types.{Level, level_debug, Value, add_attr}
use dllog.Slog.Options.{Leveler, fixed, dynamic, new_config}
use dllog.Slog.Handler.{Setting}
use dllog.Joint.{shown, withheld, ring_capacity}
use dllog.Joint.Budget.{limit_after, allowed, puts_all}
use dllog.Joint.Offers.{accepted}
use dllog.Joint.Whole.{quiet, failure, put_out}
use dllog.Joint.Operations.{outputs}
use dllog.Demo.Orders.{Call, info, debug, warn, error, payment_declined}
use dllog.Demo.Run.{background, record_of, main}
use dllog.Demo.Replay.{main-outputs}
use dllog.Demo.Colour.{write, write_names, stripped, write-stripped}

abbrev sync : SyncPool (Box (Option (Slot Level ℕ)))
sync = stack_pool (Box (Option (Slot Level ℕ)))

-- A text handler is its level.
abbrev setting : Setting ℕ Level ℕ ℕ
setting = record {
  down = record {
    enabled = λ d _ l. le_int d l;
    handle = λ _ _ _. none;
    with_attrs = λ d _. d;
    with_group = λ d _. d;
  };
  zap_down = record { enabled = λ _ _. true; check = λ _ _. true; with_fields = λ z _. z };
  read = λ _. 0;
}

abbrev text : Leveler ℕ → Level
text (fixed l) = l
text (dynamic v) = 0

abbrev world : SlotWorld Level ℕ sync
world = record { carriers = []; pools = []; next_box = 0; out = [] }

abbrev in_order : CarrierRef → Context
in_order c = some (new_context background (slog_carrier c))

-- A record of the order on the carrier `c`, at a time in nanoseconds, and a replayed one.
abbrev line : CarrierRef → ℕ → Call → Output Level ℕ
line c now k = handled level_debug (in_order c) (record_of 0 now k)

abbrev again : CarrierRef → ℕ → Call → Output Level ℕ
again c now k =
    handled level_debug (in_order c)
      (add_attr (record_of 0 now k) (record { key = default_replay_key; value = Value.bool true }))

-- A call and its pause take a microsecond more than the pause sleeps.
abbrev elapse : ℕ → ℕ
elapse t = t + 190001000

-- The middle order replays what it withheld, each record at the time that it was logged.
main-outputs_example :
    (now' : ℕ) × (w' : SlotWorld Level ℕ sync) × (main setting 0 elapse text [] (0, world)
      ≡ some (now', w'))
    × (3990000000 ≤ now')
    × (w'.out
        ≡ line 0 0 (info "checkout started" "order" (Value.text "ORD-4415"))
          ∷ line 0 950005000 (info "checkout completed" "order" (Value.text "ORD-4415"))
          ∷ line 1 1140006000 (info "checkout started" "order" (Value.text "ORD-4417"))
          ∷ line 1 1900010000 (warn "gateway slow" "latency_ms" (Value.int 1840))
          ∷ line 1 2470013000 (warn "gateway slow" "latency_ms" (Value.int 3120))
          ∷ again 1 1330007000 (debug "cart loaded" "items" (Value.int 3))
          ∷ again 1 1520008000 (debug "discount applied" "code" (Value.text "SUMMER"))
          ∷ again 1 1710009000 (debug "address validated" "country" (Value.text "FR"))
          ∷ again 1 2090011000 (debug "retrying authorization" "attempt" (Value.int 2))
          ∷ again 1 2280012000 (debug "card token refreshed" "token" (Value.text "tok_9f2c"))
          ∷ again 1 2660014000 (debug "authorization declined" "code" (Value.text "do_not_honor"))
          ∷ line 1 2850015000 (error "checkout failed" "err" payment_declined)
          ∷ line 2 3040016000 (info "checkout started" "order" (Value.text "ORD-4421"))
          ∷ line 2 3800020000 (info "checkout completed" "order" (Value.text "ORD-4421"))
          ∷ [])
unfolding outputs accepted put_out quiet failure shown withheld ring_capacity limit_after allowed
    puts_all new_config
main-outputs_example = main-outputs setting 0 elapse text world [] 0 (λ t. omega arith) refl

-- A writer that keeps what it is given, and never fails.
abbrev keep : Bytes → Bytes → Bytes × ℕ × Option ℕ
keep p s = (s ++ p, length p, none)

abbrev info_line : Bytes
info_line = codes "level=INFO msg=hi"

write-stripped_example :
    (q : Bytes) × (stripped false q ≡ info_line)
    × ((write keep info_line []).0 ≡ q)
    × ((write keep info_line []).1 ≡ 17)
unfolding write write_names index
write-stripped_example = write-stripped keep info_line [] (λ q e. refl) (omega arith) refl

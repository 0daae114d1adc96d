-- ===== src/Demo/Orders.antt =====
-- examples/demo/main.go: the workload, as the calls on the logger that each order makes.
use Prim.Native.String.{String}
use text.Mathlib.Text.{◌==◌ as str_eq}
use dllog.Base.{ℕ, List, [], ◌∷◌, if◌then◌else◌}
use dllog.Slog.Types.{Level, level_debug, level_info, level_warn, level_error, Value, Attr}

-- `log.InfoContext(ctx, message, key, value)` and the like.
pub record Call : Type 0 where
  pub level : Level
  pub message : String
  pub attr : Attr

abbrev call : Level → String → String → Value → Call
call level message key value = record {
  level = level;
  message = message;
  attr = record { key = key; value = value };
}

abbrev pub debug : String → String → Value → Call
debug = call level_debug

abbrev pub info : String → String → Value → Call
info = call level_info

abbrev pub warn : String → String → Value → Call
warn = call level_warn

abbrev pub error : String → String → Value → Call
error = call level_error

-- The quiet success before the failure.
abbrev pub order4415 : List Call
order4415 =
    info "checkout started" "order" (Value.text "ORD-4415")
    ∷ debug "cart loaded" "items" (Value.int 1)
    ∷ debug "address validated" "country" (Value.text "DE")
    ∷ debug "card authorized" "token" (Value.text "tok_3a81")
    ∷ debug "stock reserved" "warehouse" (Value.text "EU-2")
    ∷ info "checkout completed" "order" (Value.text "ORD-4415")
    ∷ []

-- `errors.New("payment declined")`
abbrev pub payment_declined : Value
payment_declined = Value.any 0

-- The failure.
abbrev pub order4417 : List Call
order4417 =
    info "checkout started" "order" (Value.text "ORD-4417")
    ∷ debug "cart loaded" "items" (Value.int 3)
    ∷ debug "discount applied" "code" (Value.text "SUMMER")
    ∷ debug "address validated" "country" (Value.text "FR")
    ∷ warn "gateway slow" "latency_ms" (Value.int 1840)
    ∷ debug "retrying authorization" "attempt" (Value.int 2)
    ∷ debug "card token refreshed" "token" (Value.text "tok_9f2c")
    ∷ warn "gateway slow" "latency_ms" (Value.int 3120)
    ∷ debug "authorization declined" "code" (Value.text "do_not_honor")
    ∷ error "checkout failed" "err" payment_declined
    ∷ []

-- The quiet success after the failure.
abbrev pub order4421 : List Call
order4421 =
    info "checkout started" "order" (Value.text "ORD-4421")
    ∷ debug "cart loaded" "items" (Value.int 2)
    ∷ debug "address validated" "country" (Value.text "ES")
    ∷ debug "card authorized" "token" (Value.text "tok_5d20")
    ∷ info "checkout completed" "order" (Value.text "ORD-4421")
    ∷ []

abbrev pub orders : List (List Call)
orders = order4415 ∷ order4417 ∷ order4421 ∷ []

-- What a pause sleeps at least, in nanoseconds: `190 * time.Millisecond`.
abbrev pub step : ℕ
step = 190000000

-- `stamp` is the clock's arithmetic and its `Format`.
unfoldable pub render : (Value → String) → Attr → Attr
render stamp a =
    if str_eq a.key "time" then record { key = "time"; value = Value.text (stamp a.value) } else a

-- The clock after an order whose first call is at `now`, if a call and the pause after it take the
-- clock from `t` to `elapse t`.
abbrev pub after : (ℕ → ℕ) → ℕ → List Call → ℕ
after elapse now [] = now
after elapse now (c ∷ cs) = after elapse (elapse now) cs

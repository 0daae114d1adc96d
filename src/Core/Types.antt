-- ===== src/Core/Types.antt =====
-- The data of internal/core: `Action` and `Scope[T]` (scope.go), `ScopePool[T]` (pool.go), and the
-- normalisation that both constructors apply to their arguments.
--
-- A ring array is the list of its cells. A `*[]T` box is a number, its address, beside the array
-- that it points at; while a scope holds the box, that array is the scope's `ring`.
use Prim.Native.String.{String}
use dllog.Base.{ℕ, Int64, Bool, List, Option, lt_int, le_int, if◌then◌else◌}

pub data Action : Type 0 where
  buffered : Action
  pass_through : Action
  suppressed : Action

-- `Action.String`; a value outside the three constants is not an `Action` here.
pub action_string : Action → String
action_string Action.buffered = "ActionBuffered"
action_string Action.pass_through = "ActionPassThrough"
action_string Action.suppressed = "ActionSuppressed"

-- `*ScopePool[T]`: the pool's address, an index into the pools of the program.
abbrev pub PoolRef : Type 0
PoolRef = ℕ

-- `*[]T`: the box's address.
abbrev pub BoxRef : Type 0
BoxRef = ℕ

pub record Box {ℓ} (T : Type ℓ) : Type ℓ where
  pub ref : BoxRef
  pub array : List T

pub record Scope {ℓ} (T : Type ℓ) : Type ℓ where
  pub tripped : Bool
  pub capacity : Int64
  pub ring : List T
  pub start : Int64
  pub length : Int64
  pub dropped : Int64
  pub post_trip : Int64
  pub limit : Int64
  pub closed : Bool
  pub trip_state : Bool
  pub pool : Option PoolRef
  pub held : Option BoxRef

-- `S` is what `sync.Pool` keeps.
pub record ScopePool {ℓ} (S : Type ℓ) : Type ℓ where
  pub capacity : Int64
  pub post_trip_limit : Int64
  pub pool : S

abbrev pub default_capacity : Int64
default_capacity = 256

abbrev pub norm_capacity : Int64 → Int64
norm_capacity c = if le_int c 0 then default_capacity else c

abbrev pub norm_limit : Int64 → Int64
norm_limit l = if lt_int l 0 then 0 else l

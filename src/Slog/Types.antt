-- ===== src/Slog/Types.antt =====
-- What the root package uses of `log/slog`: records, levels, and the handler that it wraps.
use Prim.Native.String.{String}
use dllog.Base.{ℕ, Int64, neg_int, Bool, List, ◌∷◌, [], ◌++◌, Option}
use dllog.Core.Context.{Context}

abbrev pub Level : Type 0
Level = Int64

abbrev pub level_debug : Level
level_debug = neg_int 4

abbrev pub level_info : Level
level_info = 0

abbrev pub level_warn : Level
level_warn = 4

abbrev pub level_error : Level
level_error = 8

-- A value is one that this package makes, or any other, told apart by a number.
pub data Value : Type 0 where
  bool : Bool → Value
  int : Int64 → Value
  text : String → Value
  any : ℕ → Value

pub record Attr : Type 0 where
  pub key : String
  pub value : Value

-- `slog.Record`. A record is a value here, so `Clone` is the identity.
pub record Record : Type 0 where
  pub time : ℕ
  pub level : Level
  pub message : String
  pub pc : ℕ
  pub attrs : List Attr

abbrev pub new_record : ℕ → Level → String → ℕ → Record
new_record time level message pc = record {
  time = time;
  level = level;
  message = message;
  pc = pc;
  attrs = [];
}

abbrev pub add_attr : Record → Attr → Record
add_attr r a = record r { attrs = r.attrs ++ (a ∷ []) }

-- `slog.Handler`, over the type `D` of its values and the type `Err` of its errors. `handle` is the
-- error that a call returns; that the call is made is an output.
pub record Downstream (D Err : Type 0) : Type 0 where
  pub enabled : D → Context → Level → Bool
  pub handle : D → Context → Record → Option Err
  pub with_attrs : D → List Attr → D
  pub with_group : D → String → D

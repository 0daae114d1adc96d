-- ===== src/Zap/Types.antt =====
-- What the zap adapter uses of `zapcore`: entries, fields, and the core that it wraps.
use Prim.Native.String.{String}
use dllog.Base.{ℕ, Int64, neg_int, Bool, List}

-- `zapcore.Level`, an `int8`, as an `int`: it is only compared.
abbrev pub Level : Type 0
Level = Int64

abbrev pub debug_level : Level
debug_level = neg_int 1

abbrev pub info_level : Level
info_level = 0

abbrev pub warn_level : Level
warn_level = 1

abbrev pub error_level : Level
error_level = 2

-- `zapcore.Entry`, with the fields that this package reads or sets; `rest` stands for the others.
pub record Entry : Type 0 where
  pub level : Level
  pub time : ℕ
  pub message : String
  pub rest : ℕ

pub data FieldType : Type 0 where
  bool_type : FieldType
  int64_type : FieldType
  other_type : ℕ → FieldType

pub record Field : Type 0 where
  pub key : String
  pub type : FieldType
  pub integer : Int64

-- `zapcore.Core`, over the type `Z` of its values: whether a level is enabled, whether `Check`
-- adds a core to the entry, and the derived core.
pub record Downstream (Z : Type 0) : Type 0 where
  pub enabled : Z → Level → Bool
  pub check : Z → Entry → Bool
  pub with_fields : Z → List Field → Z

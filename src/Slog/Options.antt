-- ===== src/Slog/Options.antt =====
-- options.go, and the checks that the constructors of handler.go make on the options.
use Prim.Native.String.{String}
use text.Mathlib.Text.{◌==◌ as str_eq}
use dllog.Base.{Int64, lt_int, Bool, not, ◌||◌, List, [], ◌∷◌, Option, some, none, if◌then◌else◌}
use dllog.Slog.Types.{Level, level_debug, level_info, level_error}
use dllog.Slots.{default_replay_key}

-- `slog.Leveler`: a fixed level, or a variable `V` that is read at each use.
pub data Leveler (V : Type 0) : Type 0 where
  fixed : Level → Leveler V
  dynamic : V → Leveler V

abbrev pub level_of : {V : Type 0} → (V → Level) → Leveler V → Level
level_of read (fixed l) = l
level_of read (dynamic v) = read v

pub record Config (V : Type 0) : Type 0 where
  pub level : Leveler V
  pub buffer_floor : Leveler V
  pub trip_level : Leveler V
  pub capacity : Int64
  pub post_trip_limit : Int64
  pub replay_key : String

module _ {V : Type 0} where
  unfoldable pub new_config : Config V
  new_config = record {
    level = fixed level_info;
    buffer_floor = fixed level_debug;
    trip_level = fixed level_error;
    capacity = 0;
    post_trip_limit = 0;
    replay_key = default_replay_key;
  }

  -- A `Leveler` given to an option may be nil.
  unfoldable pub with_level : Option (Leveler V) → Config V → Config V
  with_level none c = c
  with_level (some l) c = record c { level = l }

  unfoldable pub with_buffer_floor : Option (Leveler V) → Config V → Config V
  with_buffer_floor none c = c
  with_buffer_floor (some l) c = record c { buffer_floor = l }

  unfoldable pub with_trip_level : Option (Leveler V) → Config V → Config V
  with_trip_level none c = c
  with_trip_level (some l) c = record c { trip_level = l }

  unfoldable pub with_capacity : Int64 → Config V → Config V
  with_capacity n c = record c { capacity = n }

  unfoldable pub with_post_trip_limit : Int64 → Config V → Config V
  with_post_trip_limit n c = record c { post_trip_limit = n }

  unfoldable pub with_replay_key : String → Config V → Config V
  with_replay_key k c = if not (str_eq k "") then record c { replay_key = k } else c

  -- Options apply in the order given; a nil one is skipped.
  unfoldable pub apply_options : List (Option (Config V → Config V)) → Config V → Config V
  apply_options [] c = c
  apply_options (none ∷ opts) c = apply_options opts c
  apply_options (some opt ∷ opts) c = apply_options opts (opt c)

  -- `floor > level || level > trip`
  abbrev pub out_of_order : (V → Level) → Config V → Bool
  out_of_order read c =
      lt_int (level_of read c.level) (level_of read c.buffer_floor)
      || lt_int (level_of read c.trip_level) (level_of read c.level)

  -- `none` is the panic.
  unfoldable pub resolve : (V → Level) → List (Option (Config V → Config V)) → Option (Config V)
  unfolding apply_options new_config
  resolve read opts =
      let cfg = apply_options opts new_config in if out_of_order read cfg then none else some cfg

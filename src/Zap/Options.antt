-- ===== src/Zap/Options.antt =====
-- zapadapter/options.go, and the checks that the constructors of zapadapter/core.go make.
use Prim.Native.String.{String}
use text.Mathlib.Text.{◌==◌ as str_eq}
use dllog.Base.{Int64, lt_int, Bool, not, ◌||◌, List, [], ◌∷◌, Option, some, none, if◌then◌else◌}
use dllog.Zap.Types.{Level, debug_level, info_level, error_level}
use dllog.Slots.{default_replay_key}

pub record Config : Type 0 where
  pub level : Level
  pub buffer_floor : Level
  pub trip_level : Level
  pub capacity : Int64
  pub post_trip_limit : Int64
  pub replay_key : String

unfoldable pub new_config : Config
new_config = record {
  level = info_level;
  buffer_floor = debug_level;
  trip_level = error_level;
  capacity = 0;
  post_trip_limit = 0;
  replay_key = default_replay_key;
}

unfoldable pub with_level : Level → Config → Config
with_level l c = record c { level = l }

unfoldable pub with_buffer_floor : Level → Config → Config
with_buffer_floor l c = record c { buffer_floor = l }

unfoldable pub with_trip_level : Level → Config → Config
with_trip_level l c = record c { trip_level = l }

unfoldable pub with_capacity : Int64 → Config → Config
with_capacity n c = record c { capacity = n }

unfoldable pub with_post_trip_limit : Int64 → Config → Config
with_post_trip_limit n c = record c { post_trip_limit = n }

unfoldable pub with_replay_key : String → Config → Config
with_replay_key k c = if not (str_eq k "") then record c { replay_key = k } else c

-- Options apply in the order given; a nil one is skipped.
unfoldable pub apply_options : List (Option (Config → Config)) → Config → Config
apply_options [] c = c
apply_options (none ∷ opts) c = apply_options opts c
apply_options (some opt ∷ opts) c = apply_options opts (opt c)

-- `floor > level || level > trip`
abbrev pub out_of_order : Config → Bool
out_of_order c = lt_int c.level c.buffer_floor || lt_int c.trip_level c.level

-- `none` is the panic.
unfoldable pub resolve : List (Option (Config → Config)) → Option Config
unfolding apply_options new_config
resolve opts =
    let cfg = apply_options opts new_config in if out_of_order cfg then none else some cfg

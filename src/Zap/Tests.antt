-- ===== src/Zap/Tests.antt =====
-- A zap core over a ring of two cells, run, and the theorem about it at these values.
use dllog.Base.{◌==◌, not, ℕ, ◌+◌, ◌≡◌, refl, false, List, [], ◌∷◌, true, arith, some, none, Option}
use dllog.Core.Types.{Box}
use dllog.Core.SyncPool.{SyncPool, stack_pool}
use dllog.Core.Pool.{new_scope_pool}
use dllog.Core.Scope.Pooled.{new_scope_pool-IsPoolOf}
use dllog.Core.Carrier.{new_carrier}
use dllog.Slots.{
  Slot, SlotStore, SlotWorld, written, dropped_key, dropped_message, default_replay_key,
}
use dllog.Zap.Types.{
  Level, Entry, Field, FieldType, Downstream, debug_level, info_level, warn_level, error_level,
}
use dllog.Zap.Core.{Core, write_scoped, check, write}
use dllog.Zap.Unscoped.{check-write}
use dllog.Zap.Session
use dllog.Zap.Session.{Line, Holding, write_all, write_replay}

abbrev sync : SyncPool (Box (Option (Slot ℕ ℕ)))
sync = stack_pool (Box (Option (Slot ℕ ℕ)))

abbrev down : Downstream ℕ
down = record {
  enabled = λ _ _. true;
  check = λ _ ent. not (ent.time == 4);
  with_fields = λ z _. z;
}

abbrev zap_core : Core ℕ
zap_core = record {
  cfg = record {
    level = info_level;
    buffer_floor = debug_level;
    trip_level = error_level;
    capacity = 2;
    post_trip_limit = 0;
    replay_key = default_replay_key;
  };
  downstream = 6;
  pool = 0;
  carrier = some 0;
}

abbrev idle : SlotStore ℕ ℕ sync
idle = record {
  carrier = new_carrier;
  pools = new_scope_pool none sync 2 0 ∷ [];
  next_box = 0;
  out = [];
}

idle-Holding : Holding zap_core down idle []
unfolding new_scope_pool
idle-Holding = record {
  live = refl;
  early = refl;
  held = refl;
  pool = new_scope_pool none sync 2 0;
  pool_at = refl;
  pool_of = new_scope_pool-IsPoolOf none sync 2 0;
  pool_fits = record {
    positive = omega arith;
    small = omega arith;
    bounded = omega arith;
    zeroed = tt;
  };
}

abbrev entry_at : ℕ → Level → Entry
entry_at n l = record { level = l; time = n; message = "work"; rest = 0 }

abbrev line_at : ℕ → Level → Line
line_at n l = record { entry = entry_at n l; fields = [] }

abbrev mark : Field
mark = record { key = default_replay_key; type = FieldType.bool_type; integer = 1 }

abbrev lines : List Line
lines =
    line_at 1 debug_level
    ∷ line_at 2 debug_level
    ∷ line_at 3 info_level
    ∷ line_at 4 debug_level
    ∷ []

-- The downstream core declines the entry of the fourth line.
write_replay_example :
    (write_scoped zap_core down
      (entry_at 5 error_level)
      []
      (write_all zap_core down lines idle)).out
    ≡ written 6 (entry_at 3 info_level) []
      ∷ written 6
          (record { level = warn_level; time = 2; message = dropped_message; rest = 0 })
          (record { key = dropped_key; type = FieldType.int64_type; integer = 1 } ∷ [])
      ∷ written 6 (entry_at 2 debug_level) (mark ∷ [])
      ∷ written 6 (entry_at 5 error_level) []
      ∷ []
unfolding Session.shown Session.withheld
write_replay_example =
    write_replay zap_core down idle lines (line_at 5 error_level) idle-Holding
      (refl, (refl, (refl, (refl, tt)))) refl

-- The core's scope was released: a debug entry is neither checked nor written. `Check` is given the
-- number of cores that have been added.
abbrev released : SlotWorld ℕ ℕ sync
released = record {
  carriers = record { scope = none; pre_tripped = false; closed = true } ∷ [];
  pools = [];
  next_box = 0;
  out = [];
}

check-write_example :
    (check zap_core (λ n _ _. n + 1) released (entry_at 1 debug_level) 0 ≡ 0)
    × (write zap_core down (entry_at 1 debug_level) [] released ≡ released)
check-write_example =
    check-write zap_core down (λ n _ _. n + 1) 0 (entry_at 1 debug_level) [] released refl

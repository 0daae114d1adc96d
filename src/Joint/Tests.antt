-- ===== src/Joint/Tests.antt =====
-- One operation that logs through a slog handler and a zap core, and the theorem at these values.
use dllog.Base.{neg_int, ◌++◌, ℕ, ◌≡◌, refl, ap, List, [], ◌∷◌, true, arith, some, none, Option}
use dllog.Core.Types.{Box}
use dllog.Core.SyncPool.{SyncPool, stack_pool}
use dllog.Core.Pool.{Pool, new_scope_pool}
use dllog.Core.Scope.Pooled.{new_scope_pool-IsPoolOf}
use dllog.Core.Carrier
use dllog.Core.Carrier.{new_carrier}
use dllog.Core.Context.{Context, from_context, slog_carrier, on}
use dllog.Slog.Scope.{run_done}
use dllog.Slots.{
  Slot, SlotWorld, handled, written, default_replay_key, dropped_key, dropped_message,
}
use dllog.Slog.Types as Slog
use dllog.Slog.Options.{fixed}
use dllog.Slog.Handler.{Handler, Setting}
use dllog.Zap.Types as Zap
use dllog.Zap.Core.{Core}
use dllog.Joint.{Event, slog_event, zap_event, shown, withheld, ring_capacity}
use dllog.Joint.Replay.{IsReady}
use dllog.Joint.Budget.{limit_after, allowed, puts_all}
use dllog.Joint.AfterTrip.{limited_after_failure}
use dllog.Joint.Offers.{offer_all, accepted, offer_all-accepted}
use dllog.Joint.Released.{late_events}
use dllog.Joint.Session.{log_event, log_events, shared_replay}

abbrev pub sync : SyncPool (Box (Option (Slot ℕ ℕ)))
sync = stack_pool (Box (Option (Slot ℕ ℕ)))

abbrev pub setting : Setting ℕ ℕ ℕ Unit
setting = record {
  down = record {
    enabled = λ _ _ _. true;
    handle = λ _ _ _. none;
    with_attrs = λ d _. d;
    with_group = λ d _. d;
  };
  zap_down = record { enabled = λ _ _. true; check = λ _ _. true; with_fields = λ z _. z };
  read = λ _. 0;
}

-- A handler whose ring would hold three records, and a core whose ring would hold two.
abbrev pub handler : Handler ℕ ℕ
handler = record {
  cfg = record {
    level = fixed Slog.level_info;
    buffer_floor = fixed Slog.level_debug;
    trip_level = fixed Slog.level_error;
    capacity = 3;
    post_trip_limit = 0;
    replay_key = default_replay_key;
  };
  downstream = 6;
  pool = 0;
}

abbrev zap_core : Core ℕ
zap_core = record {
  cfg = record {
    level = Zap.info_level;
    buffer_floor = Zap.debug_level;
    trip_level = Zap.error_level;
    capacity = 2;
    post_trip_limit = 0;
    replay_key = "again";
  };
  downstream = 7;
  pool = 1;
  carrier = some 0;
}

abbrev world : SlotWorld ℕ ℕ sync
world = record {
  carriers = new_carrier ∷ [];
  pools = new_scope_pool none sync 3 0 ∷ new_scope_pool none sync 2 0 ∷ [];
  next_box = 0;
  out = [];
}

abbrev in_scope : Context
in_scope = some (record { values = 40; holder = some (slog_carrier 0) })

abbrev pub record_at : ℕ → Slog.Level → Slog.Record
record_at n l = Slog.new_record n l "work" 0

abbrev pub entry_at : ℕ → Zap.Level → Zap.Entry
entry_at n l = record { level = l; time = n; message = "work"; rest = 0 }

abbrev by_handler : ℕ → Slog.Level → Event ℕ ℕ ℕ
by_handler n l = slog_event handler in_scope (record_at n l)

abbrev by_core : ℕ → Zap.Level → Event ℕ ℕ ℕ
by_core n l = zap_event zap_core (record { entry = entry_at n l; fields = [] })

abbrev events : List (Event ℕ ℕ ℕ)
events =
    by_core 1 Zap.debug_level
    ∷ by_handler 2 Slog.level_debug
    ∷ by_handler 3 Slog.level_info
    ∷ by_core 4 Zap.debug_level
    ∷ []

by_handler-IsReady :
    (rest : List (Pool none sync)) (n : ℕ) (l : Slog.Level)
    → IsReady setting sync (new_scope_pool none sync 3 0 ∷ rest) (by_handler n l)
unfolding new_scope_pool
by_handler-IsReady rest n l = record {
  pool = new_scope_pool none sync 3 0;
  pool_at = refl;
  pool_as_made = new_scope_pool-IsPoolOf none sync 3 0;
  pool_fits = record {
    positive = omega arith;
    small = omega arith;
    bounded = omega arith;
    zeroed = tt;
  };
}

by_core-IsReady : (n : ℕ) (l : Zap.Level) → IsReady setting sync world.pools (by_core n l)
unfolding new_scope_pool
by_core-IsReady n l = record {
  pool = new_scope_pool none sync 2 0;
  pool_at = refl;
  pool_as_made = new_scope_pool-IsPoolOf none sync 2 0;
  pool_fits = record {
    positive = omega arith;
    small = omega arith;
    bounded = omega arith;
    zeroed = tt;
  };
}

-- The core is the first to withhold, so the ring has two cells; each replayed record has the
-- replay key of the handler or core that it was logged through.
shared_replay_example :
    (log_event setting (by_core 5 Zap.error_level) (log_events setting events world)).out
    ≡ handled 6 in_scope (record_at 3 Slog.level_info)
      ∷ handled 6 in_scope (
          Slog.add_attr
            (Slog.new_record 2 Slog.level_warn dropped_message 0)
            (record { key = dropped_key; value = Slog.Value.int 1 }))
      ∷ handled 6 in_scope (
          Slog.add_attr
            (record_at 2 Slog.level_debug)
            (record { key = default_replay_key; value = Slog.Value.bool true }))
      ∷ written 7
          (entry_at 4 Zap.debug_level)
          (record { key = "again"; type = Zap.FieldType.bool_type; integer = 1 } ∷ [])
      ∷ written 7 (entry_at 5 Zap.error_level) []
      ∷ []
unfolding from_context shown withheld ring_capacity
shared_replay_example =
    shared_replay setting world 0 events (by_core 5 Zap.error_level) (omega arith)
      (record { live = refl; early = refl; empty = refl })
      (
        by_core-IsReady 1 Zap.debug_level,
        (
          by_handler-IsReady _ 2 Slog.level_debug,
          (by_handler-IsReady _ 3 Slog.level_info, (by_core-IsReady 4 Zap.debug_level, tt)),
        ),
      )
      (refl, (refl, (refl, (refl, tt)))) refl (refl, (refl, (refl, (refl, (refl, tt)))))

-- The scope is released, and the two debug events that were left are dropped.
late_events_example :
    (log_events setting events (run_done (some 0) world)).out
    ≡ handled 6 in_scope (record_at 3 Slog.level_info) ∷ []
unfolding from_context shown run_done on Carrier.close
late_events_example =
    ap (λ w. w.out)
      (late_events setting world 0 events (omega arith) (refl, (refl, (refl, (refl, tt)))))

-- A core whose scopes let one entry through after a trip.
abbrev pub tight_core : Core ℕ
tight_core = record zap_core { cfg = record (zap_core.cfg) { post_trip_limit = 1 } }

abbrev tight_world : SlotWorld ℕ ℕ sync
tight_world = record world {
  pools = new_scope_pool none sync 3 0 ∷ new_scope_pool none sync 2 1 ∷ [];
}

abbrev by_tight : ℕ → Zap.Level → Event ℕ ℕ ℕ
by_tight n l = zap_event tight_core (record { entry = entry_at n l; fields = [] })

by_tight-IsReady : (n : ℕ) (l : Zap.Level) → IsReady setting sync tight_world.pools (by_tight n l)
unfolding new_scope_pool
by_tight-IsReady n l = record {
  pool = new_scope_pool none sync 2 1;
  pool_at = refl;
  pool_as_made = new_scope_pool-IsPoolOf none sync 2 1;
  pool_fits = record {
    positive = omega arith;
    small = omega arith;
    bounded = omega arith;
    zeroed = tt;
  };
}

-- The core's limit counts the handler's record, and then suppresses the second failure.
limited_after_failure_example :
    let w' =
      log_event setting
        (by_tight 5 Zap.error_level)
        (log_events setting (by_tight 1 Zap.debug_level ∷ []) tight_world) in
    (log_events setting (by_handler 6 Slog.level_debug ∷ by_tight 7 Zap.error_level ∷ []) w').out
    ≡ w'.out ++ (handled 6 in_scope (record_at 6 Slog.level_debug) ∷ [])
unfolding from_context limit_after allowed puts_all
limited_after_failure_example =
    limited_after_failure setting tight_world 0 (by_tight 1 Zap.debug_level ∷ [])
      (by_handler 6 Slog.level_debug ∷ by_tight 7 Zap.error_level ∷ []) (by_tight 5 Zap.error_level)
      (omega arith) (record { live = refl; early = refl; empty = refl })
      (by_tight-IsReady 1 Zap.debug_level, tt)
      (by_handler-IsReady _ 6 Slog.level_debug, (by_tight-IsReady 7 Zap.error_level, tt)) (refl, tt)
      refl (refl, (refl, tt)) (refl, (refl, tt))

-- A zap entry below the floor is not written; the debug record is withheld.
offer_all-accepted_example :
    offer_all setting (by_core 1 (neg_int 2) ∷ by_handler 2 Slog.level_debug ∷ []) world
    ≡ log_events setting (by_handler 2 Slog.level_debug ∷ []) world
unfolding from_context accepted
offer_all-accepted_example =
    offer_all-accepted setting (by_core 1 (neg_int 2) ∷ by_handler 2 Slog.level_debug ∷ []) world 0
      (omega arith) refl (refl, (refl, tt))

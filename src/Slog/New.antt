-- ===== src/Slog/New.antt =====
-- handler.go: the constructors, with what they reject; a panic is `none`.
use dllog.Base.{not, List, [], ◌∷◌, ◌++◌, Option, some, none, if◌then◌else◌, length}
use dllog.Core.Types.{Box}
use dllog.Core.SyncPool.{SyncPool}
use dllog.Core.Pool.{new_scope_pool}
use dllog.Core.Context.{Context}
use dllog.Slots.{SlotWorld, Slot}
use dllog.Slog.Options.{Config, Leveler, level_of, resolve}
use dllog.Slog.Handler.{Handler, Setting}

-- `context.Background()`
abbrev pub background : Context
background = some (record { values = 0; holder = none })

module _ {V D Z Err : Type 0} (set : Setting V D Z Err)
    {sync : SyncPool (Box (Option (Slot D Z)))} where
  -- `&Handler{...}`, whose pool is a new one.
  unfoldable pub with_pool : Config V → D → SlotWorld D Z sync → Handler V D × SlotWorld D Z sync
  with_pool cfg downstream w = (
    record { cfg = cfg; downstream = downstream; pool = length w.pools },
    record w {
      pools = w.pools ++ (new_scope_pool none sync cfg.capacity cfg.post_trip_limit ∷ []);
    },
  )

  -- `newEncoded`; `encode` builds a handler of log/slog that is open from a level on.
  unfoldable pub new_encoded :
      (Leveler V → D)
      → List (Option (Config V → Config V))
      → SlotWorld D Z sync
      → Option (Handler V D × SlotWorld D Z sync)
  unfolding with_pool
  new_encoded encode opts w = elim (resolve set.read opts) [
    | none ↦ none
    | some cfg ↦ some (with_pool cfg (encode cfg.buffer_floor) w)
  ]

  -- `NewJSONWith` and `NewTextWith`: `mustOwnLevel` rejects a level of the caller's.
  unfoldable pub new_with :
      Option (Leveler V)
      → (Leveler V → D)
      → List (Option (Config V → Config V))
      → SlotWorld D Z sync
      → Option (Handler V D × SlotWorld D Z sync)
  unfolding new_encoded
  new_with (some l) encode opts w = none
  new_with none encode opts w = new_encoded encode opts w

  unfoldable pub wrap :
      D → Option (Config V) → SlotWorld D Z sync → Option (Handler V D × SlotWorld D Z sync)
  unfolding with_pool
  wrap downstream none w = none
  wrap downstream (some cfg) w =
      if not (set.down.enabled downstream background (level_of set.read cfg.buffer_floor))
      then none
      else some (with_pool cfg downstream w)

  -- `New`
  unfoldable pub new :
      Option D
      → List (Option (Config V → Config V))
      → SlotWorld D Z sync
      → Option (Handler V D × SlotWorld D Z sync)
  unfolding wrap
  new none opts w = none
  new (some downstream) opts w = wrap downstream (resolve set.read opts) w

-- ===== src/Slots.antt =====
-- scope.go and zapadapter/slot.go: the slots of the two adapters, as implementations of `core.Entry`,
-- and the calls of the two downstreams that a replay makes.
pub mod Replay
use Prim.Native.String.{String}
use dllog.Base.{Int64, true, List, [], ◌∷◌, ◌++◌, if◌then◌else◌, Option}
use dllog.Core.Types.{Box}
use dllog.Core.SyncPool.{SyncPool}
use dllog.Core.Context.{World, Context}
use dllog.Core.Carrier.{Store, Entry}
use dllog.Slog.Types as Slog
use dllog.Zap.Types as Zap

abbrev pub default_replay_key : String
default_replay_key = "replay"

abbrev pub dropped_key : String
dropped_key = "dllog.dropped"

abbrev pub dropped_message : String
dropped_message = "dllog: buffered records dropped"

-- `slot` of scope.go.
pub record SlogSlot (D : Type 0) : Type 0 where
  pub ctx : Context
  pub slog_record : Slog.Record
  pub downstream : D
  pub replay_key : String

-- `slot` of zapadapter/slot.go.
pub record ZapSlot (Z : Type 0) : Type 0 where
  pub entry : Zap.Entry
  pub fields : List Zap.Field
  pub downstream : Z
  pub replay_key : String

-- An entry of the ring that the adapters share.
pub data Slot (D Z : Type 0) : Type 0 where
  slog : SlogSlot D → Slot D Z
  zap : ZapSlot Z → Slot D Z

-- A call of a downstream handler, or a write that a downstream core accepted.
pub data Output (D Z : Type 0) : Type 0 where
  handled : D → Context → Slog.Record → Output D Z
  written : Z → Zap.Entry → List Zap.Field → Output D Z

module _ {D Z : Type 0} where
  unfoldable pub slog_emit : SlogSlot D → List (Output D Z)
  slog_emit s =
      handled s.downstream s.ctx
        (Slog.add_attr s.slog_record (record { key = s.replay_key; value = Slog.Value.bool true }))
      ∷ []

  unfoldable pub slog_notify : SlogSlot D → Int64 → List (Output D Z)
  slog_notify s n =
      handled s.downstream s.ctx (
        Slog.add_attr (Slog.new_record s.slog_record.time Slog.level_warn dropped_message 0)
          (record { key = dropped_key; value = Slog.Value.int n }))
      ∷ []

  module _ (zap_down : Zap.Downstream Z) where
    -- `writeChecked`: the entry is offered to the downstream's `Check`, and written if it is taken.
    unfoldable pub write_checked : Z → Zap.Entry → List Zap.Field → List (Output D Z)
    write_checked down ent fields =
        if zap_down.check down ent then written down ent fields ∷ [] else []

    unfoldable pub zap_emit : ZapSlot Z → List (Output D Z)
    unfolding write_checked
    zap_emit s = write_checked s.downstream s.entry (
        s.fields
        ++ (record { key = s.replay_key; type = Zap.FieldType.bool_type; integer = 1 } ∷ []))

    unfoldable pub zap_notify : ZapSlot Z → Int64 → List (Output D Z)
    unfolding write_checked
    zap_notify s n =
        write_checked s.downstream
          (record {
            level = Zap.warn_level;
            time = s.entry.time;
            message = dropped_message;
            rest = 0;
          })
          (record { key = dropped_key; type = Zap.FieldType.int64_type; integer = n } ∷ [])

    emit : Slot D Z → List (Output D Z)
    emit (slog s) = slog_emit s
    emit (zap s) = zap_emit s

    notify : Slot D Z → Int64 → List (Output D Z)
    notify (slog s) n = slog_notify s n
    notify (zap s) n = zap_notify s n

    -- Both slots as `core.Entry`.
    unfoldable pub slots : Entry (Slot D Z) (Output D Z)
    unfolding emit notify slog_emit slog_notify zap_emit zap_notify
    slots = record { emit = emit; notify = notify }

-- One carrier, and the whole program, over the slots of both adapters.
abbrev pub SlotStore : (D Z : Type 0) → SyncPool (Box (Option (Slot D Z))) → Type 0
SlotStore D Z sync = Store (Slot D Z) (Output D Z) sync

abbrev pub SlotWorld : (D Z : Type 0) → SyncPool (Box (Option (Slot D Z))) → Type 0
SlotWorld D Z sync = World (Slot D Z) (Output D Z) sync

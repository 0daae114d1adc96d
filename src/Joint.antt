-- ===== src/Joint.antt =====
-- handler.go and zapadapter/core.go on one carrier: the records of slog handlers and the entries of
-- zap cores, in the order in which one operation logs them. Any number of handlers and cores may
-- log, each with its own levels, capacity and pool.
pub mod Laws
pub mod Replay
pub mod Session
pub mod Budget
pub mod AfterTrip
pub mod Whole
pub mod Offers
pub mod Operations
pub mod Stock
pub mod Apart
pub mod Anchor
pub mod Requests
pub mod Released
mod Tests
mod SequenceTests
mod RequestTests
use dllog.Base.{
  ◌≡◌, Int64, le_int, Bool, true, false, List, [], ◌∷◌, ◌++◌, Option, some, none, if◌then◌else◌,
}
use dllog.Core.Types.{Box, PoolRef}
use dllog.Core.SyncPool.{SyncPool}
use dllog.Core.Context.{Context}
use dllog.Slots.Replay.{offered}
use dllog.Slots.{SlotStore, Slot, Output, handled, write_checked}
use dllog.Slog.Types.{Record}
use dllog.Slog.Handler.{Handler, Setting}
use dllog.Slog.Handler
use dllog.Slog.Session as Slog
use dllog.Zap.Core.{Core}
use dllog.Zap.Core as Zap
use dllog.Zap.Session.{Line}
use dllog.Zap.Session as ZapSession

-- A record given to a handler with its context, or an entry zap_event to a core.
pub data Event (V D Z : Type 0) : Type 0 where
  slog_event : Handler V D → Context → Record → Event V D Z
  zap_event : Core Z → Line → Event V D Z

module _ {V D Z Err : Type 0} (set : Setting V D Z Err) where
  abbrev pub pool_of : Event V D Z → PoolRef
  pool_of (slog_event h ctx r) = h.pool
  pool_of (zap_event c l) = c.pool

  abbrev pub capacity_of : Event V D Z → Int64
  capacity_of (slog_event h ctx r) = h.cfg.capacity
  capacity_of (zap_event c l) = c.cfg.capacity

  abbrev pub limit_of : Event V D Z → Int64
  limit_of (slog_event h ctx r) = h.cfg.post_trip_limit
  limit_of (zap_event c l) = c.cfg.post_trip_limit

  -- At or above the trip level of its handler or core.
  abbrev pub fails : Event V D Z → Bool
  fails (slog_event h ctx r) = le_int (Handler.trip_level set h) r.level
  fails (zap_event c l) = le_int c.cfg.trip_level l.entry.level

  -- At or above the effective level.
  abbrev pub shows : Event V D Z → Bool
  shows (slog_event h ctx r) = le_int (Handler.level set h) r.level
  shows (zap_event c l) = le_int c.cfg.level l.entry.level

  -- What the downstream is given of an event that is let through.
  abbrev pub puts : Event V D Z → List (Output D Z)
  puts (slog_event h ctx r) = handled h.downstream ctx r ∷ []
  puts (zap_event c l) = offered set.zap_down c.downstream l.entry l.fields

  -- What the ring holds of an event that is withheld.
  abbrev pub slot_of : Event V D Z → Slot D Z
  slot_of (slog_event h ctx r) = Slog.kept_as set h ctx r
  slot_of (zap_event c l) = ZapSession.kept_as c set.zap_down l

  -- What goes out at once, and what is held.
  unfoldable pub shown : List (Event V D Z) → List (Output D Z)
  shown [] = []
  shown (e ∷ es) = (if shows e then puts e else []) ++ shown es

  unfoldable pub withheld : List (Event V D Z) → List (Option (Slot D Z))
  withheld [] = []
  withheld (e ∷ es) = (if shows e then [] else some (slot_of e) ∷ []) ++ withheld es

  -- The capacity of the shared ring is that of the first event that is withheld.
  unfoldable pub ring_capacity : List (Event V D Z) → Int64
  ring_capacity [] = 0
  ring_capacity (e ∷ es) = if shows e then ring_capacity es else capacity_of e

  module _ {sync : SyncPool (Box (Option (Slot D Z)))} where
    -- What a handler or a core does with the event on a live carrier.
    unfoldable pub act : Event V D Z → SlotStore D Z sync → SlotStore D Z sync
    act (slog_event h ctx r) st = (Handler.handle_scoped set h ctx r st).0
    act (zap_event c l) st = Zap.write_scoped c set.zap_down l.entry l.fields st

    unfoldable pub act_all : List (Event V D Z) → SlotStore D Z sync → SlotStore D Z sync
    act_all [] st = st
    act_all (e ∷ es) st = act_all es (act e st)

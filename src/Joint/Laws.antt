-- ===== src/Joint/Laws.antt =====
-- handler.go and zapadapter/core.go: what one event does to a live carrier, in terms of the calls of
-- the carrier alone. It is the same for the two adapters.
use dllog.Base.{Bool, ◌||◌, if◌then◌else◌, ◌≡◌, true, false, ◌++◌, Option}
use dllog.Core.Types.{Action, Box}
use dllog.Core.SyncPool.{SyncPool}
use dllog.Core.Carrier.{bind, append, pass_through, tripped, mark_and_flush}
use dllog.Core.Carrier.Passing.{verdict}
use dllog.Slots.{SlotStore, Slot, slots}
use dllog.Slog.Handler.{Setting}
use dllog.Slog.Calls.{
  handle_scoped-forward, handle_scoped-append, handle_scoped-trip, handle_scoped-spend,
}
use dllog.Zap.Calls.{
  write_scoped-forward, write_scoped-append, write_scoped-trip, write_scoped-spend,
}
use dllog.Joint.{Event, slog_event, zap_event, pool_of, fails, shows, puts, slot_of, act}

module _ {V D Z Err : Type 0} (set : Setting V D Z Err)
    {sync : SyncPool (Box (Option (Slot D Z)))} where
  pub act-shown :
      (e : Event V D Z) (st : SlotStore D Z sync)
      → fails set e ≡ false
      → shows set e ≡ true
      → tripped st ≡ false
      → act set e st ≡ record st { out = st.out ++ puts set e }
  unfolding act
  act-shown (slog_event h ctx r) st = handle_scoped-forward set h ctx r st
  act-shown (zap_event c l) st = write_scoped-forward c set.zap_down l.entry l.fields st

  pub act-withheld :
      (e : Event V D Z) (st st' : SlotStore D Z sync)
      → fails set e ≡ false
      → shows set e ≡ false
      → bind (pool_of set e) st ≡ (st', true)
      → (append st' (slot_of set e)).1 ≡ Action.buffered
      → act set e st ≡ (append st' (slot_of set e)).0
  unfolding act
  act-withheld (slog_event h ctx r) st = handle_scoped-append set h ctx r st
  act-withheld (zap_event c l) st = write_scoped-append c set.zap_down l.entry l.fields st

  pub act-fails :
      (e : Event V D Z) (st : SlotStore D Z sync)
      → fails set e ≡ true
      → (mark_and_flush (slots set.zap_down) st).1 ≡ true
      → let st' = (mark_and_flush (slots set.zap_down) st).0 in
        act set e st ≡ record st' { out = st'.out ++ puts set e }
  unfolding act
  act-fails (slog_event h ctx r) st = handle_scoped-trip set h ctx r st
  act-fails (zap_event c l) st = write_scoped-trip c set.zap_down l.entry l.fields st

  -- On a tripped carrier an event counts against the scope, whichever its level.
  pub act-spend :
      (e : Event V D Z) (st st' : SlotStore D Z sync) (p : Bool)
      → mark_and_flush (slots set.zap_down) st ≡ (st, false)
      → tripped st ≡ true
      → bind (pool_of set e) st ≡ (st', true)
      → (pass_through st').1 ≡ verdict p
      → (append st' (slot_of set e)).1 ≡ verdict p
      → let s =
          if fails set e || shows set e
          then (pass_through st').0
          else (append st' (slot_of set e)).0 in
        act set e st ≡ (if p then record s { out = s.out ++ puts set e } else s)
  unfolding act
  act-spend (slog_event h ctx r) st = handle_scoped-spend set h ctx r st
  act-spend (zap_event c l) st = write_scoped-spend c set.zap_down l.entry l.fields st

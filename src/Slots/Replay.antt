-- ===== src/Slots/Replay.antt =====
-- scope.go and zapadapter/slot.go: what a replay should give the two downstreams, record by record.
use dllog.Base.{◌∙◌, ◌≡◌, refl, ap, Int64, true, List, [], ◌∷◌, ◌++◌, Option, if◌then◌else◌}
use dllog.Core.Types.{Box, PoolRef}
use dllog.Core.SyncPool.{SyncPool}
use dllog.Core.Carrier.{mark_and_flush}
use dllog.Core.Carrier.Hold.{IsHolding}
use dllog.Core.Carrier.Bound.{IsBound, mark_and_flush-IsBound}
use dllog.Core.Carrier.FirstTrip.{replayed, mark_and_flush-IsHolding}
use dllog.Slots.{
  Slot, slog, zap, Output, handled, written, slots, write_checked, slog_emit, slog_notify, zap_emit,
  zap_notify, emit, notify, SlotStore,
}
use dllog.Slog.Types as Slog
use dllog.Zap.Types as Zap

-- An entry that a downstream core is asked for, and takes or declines.
abbrev pub offered :
    {D Z : Type 0} → Zap.Downstream Z → Z → Zap.Entry → List Zap.Field → List (Output D Z)
offered zap_down z ent fields = if zap_down.check z ent then written z ent fields ∷ [] else []

module _ {D Z : Type 0} (zap_down : Zap.Downstream Z) where
  -- A record as it was logged, its time too, with the replay key after its attributes; an entry
  -- likewise, with a field.
  abbrev pub marked : Slot D Z → List (Output D Z)
  marked (slog s) =
      let r = s.slog_record in
      handled s.downstream s.ctx (record {
        time = r.time;
        level = r.level;
        message = r.message;
        pc = r.pc;
        attrs = r.attrs ++ (record { key = s.replay_key; value = Slog.Value.bool true } ∷ []);
      })
      ∷ []
  marked (zap s) =
      let mark : Zap.Field = record {
        key = s.replay_key;
        type = Zap.FieldType.bool_type;
        integer = 1;
      } in
      offered zap_down s.downstream s.entry (s.fields ++ (mark ∷ []))

  -- The warning that `n` records were dropped, at the time of the first that was kept.
  abbrev pub counted : Slot D Z → Int64 → List (Output D Z)
  counted (slog s) n =
      handled s.downstream s.ctx (record {
        time = s.slog_record.time;
        level = 4;
        message = "dllog: buffered records dropped";
        pc = 0;
        attrs = record { key = "dllog.dropped"; value = Slog.Value.int n } ∷ [];
      })
      ∷ []
  counted (zap s) n =
      let ent : Zap.Entry = record {
        level = 1;
        time = s.entry.time;
        message = "dllog: buffered records dropped";
        rest = 0;
      } in
      offered zap_down s.downstream ent
        (record { key = "dllog.dropped"; type = Zap.FieldType.int64_type; integer = n } ∷ [])

  -- What a first trip puts out of a ring of the given capacity that was given `seen`: the last
  -- that fit, oldest first, marked, after a warning of those that did not.
  abbrev pub replay : Int64 → List (Option (Slot D Z)) → List (Output D Z)
  replay capacity seen = replayed (record { emit = marked; notify = counted }) capacity seen

  pub write_checked-offered :
      (z : Z) (ent : Zap.Entry) (fields : List Zap.Field)
      → write_checked {D = D} zap_down z ent fields ≡ offered zap_down z ent fields
  unfolding write_checked
  write_checked-offered z ent fields = refl

  emit-marked : (e : Slot D Z) → emit zap_down e ≡ marked e
  unfolding emit slog_emit zap_emit
  emit-marked (slog s) = refl
  emit-marked (zap s) = refl

  notify-counted : (e : Slot D Z) (n : Int64) → notify zap_down e n ≡ counted e n
  unfolding notify slog_notify zap_notify
  notify-counted (slog s) n = refl
  notify-counted (zap s) n = refl

  slots-marked : slots zap_down ≡ record { emit = marked; notify = counted }
  unfolding slots
  slots-marked = λ i. record { emit = λ e. emit-marked e i; notify = λ e n. notify-counted e n i }

  pub replayed-replay :
      (capacity : Int64) (seen : List (Option (Slot D Z)))
      → replayed (slots zap_down) capacity seen ≡ replay capacity seen
  replayed-replay capacity seen = ap (λ ops. replayed ops capacity seen) slots-marked

  -- The first trip of a carrier of the two adapters.
  module _ {sync : SyncPool (Box (Option (Slot D Z)))} (capacity limit : Int64) (ref : PoolRef)
      (st : SlotStore D Z sync) (seen : List (Option (Slot D Z))) where
    pub mark_and_flush-replay :
        IsHolding capacity limit ref st seen
        → let (st', trigger) = mark_and_flush (slots zap_down) st in
          (trigger ≡ true) × (st'.out ≡ st.out ++ replay capacity seen)
    mark_and_flush-replay k =
        let (first, out) = mark_and_flush-IsHolding capacity limit ref (slots zap_down) st seen k in
        (first, out ∙ ap (λ xs. st.out ++ xs) (replayed-replay capacity seen))

  module _ {sync : SyncPool (Box (Option (Slot D Z)))} (capacity limit : Int64)
      (st : SlotStore D Z sync) (seen : List (Option (Slot D Z))) where
    pub mark_and_flush-replay_bound :
        IsBound capacity limit st seen
        → let (st', trigger) = mark_and_flush (slots zap_down) st in
          (trigger ≡ true) × (st'.out ≡ st.out ++ replay capacity seen)
    mark_and_flush-replay_bound k =
        let (first, out) = mark_and_flush-IsBound capacity limit (slots zap_down) st seen k in
        (first, out ∙ ap (λ xs. st.out ++ xs) (replayed-replay capacity seen))

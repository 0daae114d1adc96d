-- ===== src/Slog/Session.antt =====
-- What a handler puts out for the records of one operation.
use dllog.Base.{
  sym, append-nil, inl, inr, Bool-cases, append_assoc, true, false, ◌≡◌, refl, ◌∙◌, le_int, List,
  [], ◌∷◌, ◌++◌, Option, some, if◌then◌else◌,
}
use dllog.Core.Types.{Box}
use dllog.Core.SyncPool.{SyncPool}
use dllog.Core.Carrier.Hold.{IsHolding, bind-IsHolding, append-IsHolding}
use dllog.Core.Carrier.FirstTrip.{tripped-IsHolding}
use dllog.Slots.Replay.{replay, mark_and_flush-replay}
use dllog.Core.Context.{Context}
use dllog.Slots.{SlotStore, Slot, Output, handled, slog}
use dllog.Slog.Types.{Record}
use dllog.Slog.Handler.{
  trip_and_suppress, trip_level, handle_trip, handle_scoped, Handler, Setting, level, slot_of,
  handle_below, handle_above, forward,
}

module _ {V D Z Err : Type 0} (set : Setting V D Z Err) (h : Handler V D) (ctx : Context) where
  -- The records that a level filter in front of the downstream would pass.
  unfoldable pub shown : List Record → List (Output D Z)
  shown [] = []
  shown (r ∷ rs) =
      (if le_int (level set h) r.level then handled h.downstream ctx r ∷ [] else []) ++ shown rs

  -- A record that is withheld, with what its replay needs.
  abbrev pub kept_as : Record → Slot D Z
  kept_as r = slog (record {
    ctx = ctx;
    slog_record = r;
    downstream = h.downstream;
    replay_key = h.cfg.replay_key;
  })

  -- The others, as the ring holds them.
  unfoldable pub withheld : List Record → List (Option (Slot D Z))
  withheld [] = []
  withheld (r ∷ rs) =
      (if le_int (level set h) r.level then [] else some (kept_as r) ∷ []) ++ withheld rs

  module _ {sync : SyncPool (Box (Option (Slot D Z)))} where
    abbrev pub Holding : SlotStore D Z sync → List (Option (Slot D Z)) → Type 0
    Holding = IsHolding h.cfg.capacity h.cfg.post_trip_limit h.pool

    handle_above-Holding :
        (st : SlotStore D Z sync) (seen : List (Option (Slot D Z))) (r : Record)
        → Holding st seen
        → let st' = (handle_above set h ctx r st).0 in
          Holding st' seen × (st'.out ≡ st.out ++ (handled h.downstream ctx r ∷ []))
    unfolding handle_above forward
    handle_above-Holding st seen r k =
        simp (tripped-IsHolding h.cfg.capacity h.cfg.post_trip_limit h.pool st seen k) (
          record {
            live = k.live;
            early = k.early;
            held = k.held;
            pool = k.pool;
            pool_at = k.pool_at;
            pool_of = k.pool_of;
            pool_fits = k.pool_fits;
          },
          refl,
        )

    handle_below-Holding :
        (st : SlotStore D Z sync) (seen : List (Option (Slot D Z))) (r : Record)
        → Holding st seen
        → let st' = (handle_below set h ctx r st).0 in
          Holding st' (seen ++ (some (kept_as r) ∷ [])) × (st'.out ≡ st.out)
    unfolding handle_below
    handle_below-Holding st seen r k =
        let (there, held, out, (s, e)) =
          bind-IsHolding h.cfg.capacity h.cfg.post_trip_limit h.pool st seen k in
        let (a, held', out') =
          append-IsHolding h.cfg.capacity h.cfg.post_trip_limit h.pool _ seen (slot_of set h ctx r)
            s held e in
        rw (there, a) (held', out' ∙ out)

    -- A record below the trip level goes out at once or is held, as the level says.
    pub handle_scoped-Holding :
        (st : SlotStore D Z sync) (seen : List (Option (Slot D Z))) (r : Record)
        → Holding st seen
        → le_int (trip_level set h) r.level ≡ false
        → let st' = (handle_scoped set h ctx r st).0 in
          Holding st' (seen ++ withheld (r ∷ [])) × (st'.out ≡ st.out ++ shown (r ∷ []))
    unfolding handle_scoped handle_above withheld shown
    handle_scoped-Holding st seen r k quiet = elim (Bool-cases (le_int (level set h) r.level)) [
      | inl e ↦ rw (quiet, e, append-nil seen) (handle_above-Holding st seen r k)
      | inr e ↦
          let (k', out) = handle_below-Holding st seen r k in
          rw (quiet, e) (k', out ∙ sym (append-nil st.out))
    ]

    -- The first record at the trip level replays what is held, and goes out after it.
    pub handle_trip-Holding :
        (st : SlotStore D Z sync) (seen : List (Option (Slot D Z))) (r : Record)
        → Holding st seen
        → le_int (trip_level set h) r.level ≡ true
        → (handle_scoped set h ctx r st).0.out
          ≡ st.out ++ (replay set.zap_down h.cfg.capacity seen ++ (handled h.downstream ctx r ∷ []))
    unfolding handle_scoped handle_trip trip_and_suppress forward
    handle_trip-Holding st seen r k loud =
        let (first, out) =
          mark_and_flush-replay set.zap_down h.cfg.capacity h.cfg.post_trip_limit h.pool st seen
            k in
        rw (loud, first, out) (append_assoc st.out _ _)

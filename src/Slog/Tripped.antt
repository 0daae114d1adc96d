-- ===== src/Slog/Tripped.antt =====
-- handler.go and scope.go: what goes out of a carrier whose trip came before the record.
use dllog.Base.{
  ◌≡◌, refl, sym, ap, ◌∙◌, subst, le_int, true, false, List, [], ◌∷◌, ◌++◌, Option, some,
  append_assoc,
}
use dllog.Core.Types.{Box}
use dllog.Core.SyncPool.{SyncPool}
use dllog.Core.Carrier
use dllog.Core.Carrier.FirstTrip.{tripped-IsHolding}
use dllog.Slots.Replay.{replay, mark_and_flush-replay}
use dllog.Core.Carrier.Tripped.{IsTripped, mark_and_flush-IsTripped, IsTripped-again}
use dllog.Core.Carrier.Passes.{bind-IsTripped}
use dllog.Core.Context.{Context, CarrierRef, from_context, store_at, put_back, on}
use dllog.Slots.{SlotStore, SlotWorld, Slot, handled, slots}
use dllog.Slog.Types.{Record}
use dllog.Slog.Scope.{live_carrier, trip}
use dllog.Slog.Calls.{handle-on}
use dllog.Slog.Live.{live_carrier-live, store_at-put_back}
use dllog.Slog.Handler.{
  Handler, Setting, trip_level, handle, handle_scoped, handle_trip, forward, suppressed,
  trip_and_suppress,
}
use dllog.Slog.Replay.{IsOpen}
use dllog.Slog.Middleware.{already_tripped, tripped_at}

module _ {V D Z Err : Type 0} (set : Setting V D Z Err) (h : Handler V D) (ctx : Context) where
  module _ {sync : SyncPool (Box (Option (Slot D Z)))} where
    suppressed-IsTripped :
        (st : SlotStore D Z sync)
        → IsTripped h.pool st
        → ((suppressed set h st).1 ≡ false) × ((suppressed set h st).0.out ≡ st.out)
    unfolding suppressed
    suppressed-IsTripped st k =
        let (there, action, out) = bind-IsTripped h.pool st k in rw (there, action) (refl, out)

    -- A record at the trip level goes out of a carrier that has just tripped.
    handle_trip-IsTripped :
        (st : SlotStore D Z sync) (r : Record)
        → IsTripped h.pool st
        → (handle_trip set h ctx r st).0.out ≡ st.out ++ (handled h.downstream ctx r ∷ [])
    unfolding handle_trip trip_and_suppress forward
    handle_trip-IsTripped st r k =
        let (again, k', out) = IsTripped-again h.pool (slots set.zap_down) st k in
        let (passed, out') =
          suppressed-IsTripped (Carrier.mark_and_flush (slots set.zap_down) st).0 k' in
        rw (again, passed) (ap (λ xs. xs ++ (handled h.downstream ctx r ∷ [])) (out' ∙ out))

    -- The world after the first trip of the live carrier `c`.
    abbrev tripped_world : SlotWorld D Z sync → CarrierRef → SlotWorld D Z sync
    tripped_world w c = put_back w c (Carrier.mark_and_flush (slots set.zap_down) (store_at w c)).0

    trip-tripped_world :
        (w : SlotWorld D Z sync) (c : CarrierRef)
        → live_carrier w ctx ≡ some c
        → trip (slots set.zap_down) ctx w ≡ tripped_world w c
    unfolding trip on
    trip-tripped_world w c e = rw e refl

    tripped_world-IsTripped :
        (w : SlotWorld D Z sync) (c : CarrierRef) (seen : List (Option (Slot D Z)))
        → IsOpen set h ctx w c seen
        → IsTripped h.pool (store_at (tripped_world w c) c)
    tripped_world-IsTripped w c seen k =
        subst (IsTripped h.pool) (sym (store_at-put_back w c _ k.inside)) (
          mark_and_flush-IsTripped h.pool (slots set.zap_down) h.cfg.capacity h.cfg.post_trip_limit
            (store_at w c) seen k.holding)

    handle-IsTripped :
        (w : SlotWorld D Z sync) (c : CarrierRef) (r : Record)
        → from_context ctx ≡ some c
        → IsTripped h.pool (store_at w c)
        → le_int (trip_level set h) r.level ≡ true
        → (handle set h ctx r w).0.out ≡ w.out ++ (handled h.downstream ctx r ∷ [])
    unfolding on handle_scoped
    handle-IsTripped w c r at k loud =
        rw (handle-on set h ctx r w c at k.live, loud) (handle_trip-IsTripped (store_at w c) r k)

    -- A trip, and then a record at the trip level.
    pub trip-handle :
        (w : SlotWorld D Z sync) (c : CarrierRef) (seen : List (Option (Slot D Z))) (r : Record)
        → from_context ctx ≡ some c
        → IsOpen set h ctx w c seen
        → le_int (trip_level set h) r.level ≡ true
        → (handle set h ctx r (trip (slots set.zap_down) ctx w)).0.out
          ≡ w.out ++ (replay set.zap_down h.cfg.capacity seen ++ (handled h.downstream ctx r ∷ []))
    trip-handle w c seen r at k loud =
        let (_, out) =
          mark_and_flush-replay set.zap_down h.cfg.capacity h.cfg.post_trip_limit h.pool
            (store_at w c) seen k.holding in
        rw (trip-tripped_world w c (live_carrier-live w ctx c at k.holding.live)) (
          handle-IsTripped (tripped_world w c) c r at (tripped_world-IsTripped w c seen k) loud
          ∙ ap (λ xs. xs ++ (handled h.downstream ctx r ∷ [])) out
          ∙ append_assoc w.out _ _)

    pub already_tripped-IsOpen :
        (w : SlotWorld D Z sync) (c : CarrierRef) (seen : List (Option (Slot D Z)))
        → from_context ctx ≡ some c
        → IsOpen set h ctx w c seen
        → already_tripped w ctx ≡ false
    unfolding already_tripped tripped_at
    already_tripped-IsOpen w c seen at k = rw (live_carrier-live w ctx c at k.holding.live) (
        tripped-IsHolding h.cfg.capacity h.cfg.post_trip_limit h.pool (store_at w c) seen k.holding)

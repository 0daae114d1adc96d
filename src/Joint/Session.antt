-- ===== src/Joint/Session.antt =====
-- handler.go and zapadapter/core.go on one carrier, found through contexts and bound cores.
use dllog.Base.{
  ◌≡◌, ◌<◌, ◌⊎◌, refl, sym, ap, ◌∙◌, subst, true, false, List, [], ◌∷◌, ◌++◌, Option, some, inl,
  inr, Bool-cases, append_assoc, All, length, length-set, arith,
}
use dllog.Core.Types.{Box}
use dllog.Core.SyncPool.{SyncPool}
use dllog.Core.Carrier.Bound.{IsBound, IsUnbound}
use dllog.Slots.Replay.{replay}
use dllog.Core.Context.{CarrierRef, from_context, carrier_at, store_at, put_back, on}
use dllog.Slots.{SlotStore, SlotWorld, Slot}
use dllog.Slog.Handler.{Setting, handle}
use dllog.Slog.Calls.{handle-on}
use dllog.Zap.Calls.{write-on}
use dllog.Slog.Live.{store_at-put_back}
use dllog.Zap.Core.{write}
use dllog.Joint.{
  Event, slog_event, zap_event, capacity_of, limit_of, fails, shows, puts, shown, withheld,
  ring_capacity, act, act_all,
}
use dllog.Joint.Laws.{act-fails}
use dllog.Joint.Replay.{
  IsQuiet, IsReady, act_shown-IsBound, act_withheld-IsBound, act_first-IsBound, act_shown-unbound,
  IsUnbound-IsHolding, first_trip,
}

-- The record's context carries `cr`, or the core is bound to it.
abbrev pub IsOn : {V D Z : Type 0} → CarrierRef → Event V D Z → Type 0
IsOn cr (slog_event h ctx r) = from_context ctx ≡ some cr
IsOn cr (zap_event c l) = c.carrier ≡ some cr

module _ {V D Z Err : Type 0} (set : Setting V D Z Err)
    {sync : SyncPool (Box (Option (Slot D Z)))} where
  -- `Handle` or `Write`.
  unfoldable pub log_event : Event V D Z → SlotWorld D Z sync → SlotWorld D Z sync
  log_event (slog_event h ctx r) w = (handle set h ctx r w).0
  log_event (zap_event c l) w = write c set.zap_down l.entry l.fields w

  unfoldable pub log_events : List (Event V D Z) → SlotWorld D Z sync → SlotWorld D Z sync
  log_events [] w = w
  log_events (e ∷ es) w = log_events es (log_event e w)

  log_event-act :
      (e : Event V D Z) (w : SlotWorld D Z sync) (cr : CarrierRef)
      → IsOn cr e
      → (carrier_at w cr).closed ≡ false
      → log_event e w ≡ put_back w cr (act set e (store_at w cr))
  unfolding log_event act on
  log_event-act (slog_event h ctx r) w cr at live =
      ap (λ p. p.0) (handle-on set h ctx r w cr at live)
  log_event-act (zap_event c l) w cr at live = write-on c set.zap_down l.entry l.fields w cr at live

  -- Unbound as yet, or bound by some event.
  abbrev Steady : SlotStore D Z sync → List (Event V D Z) → Type 0
  Steady st es =
      (IsUnbound st.carrier × All (IsReady set sync st.pools) es)
      ⊎ ((first : Event V D Z) × (seen : List (Option (Slot D Z))) × IsBound (capacity_of set first)
            (limit_of set first) st seen)

  Steady-live :
      (st : SlotStore D Z sync) (es : List (Event V D Z)) → Steady st es → st.carrier.closed ≡ false
  Steady-live st es (inl (u, ready)) = u.live
  Steady-live st es (inr (first, seen, k)) = k.live

  act-Steady :
      (e : Event V D Z) (es : List (Event V D Z)) (st : SlotStore D Z sync)
      → IsQuiet set e
      → Steady st (e ∷ es)
      → Steady (act set e st) es
  act-Steady e es st q (inl (u, (r, ready))) = elim (Bool-cases (shows set e)) [
    | inl up ↦ let same = act_shown-unbound set e st u q up in inl (rw same u, rw same ready)
    | inr low ↦ inr (e, _, (act_first-IsBound set e st (IsUnbound-IsHolding set e st u r) q low).0)
  ]
  act-Steady e es st q (inr (first, seen, k)) = elim (Bool-cases (shows set e)) [
    | inl up ↦ inr (first, seen, (act_shown-IsBound set first e st seen k q up).0)
    | inr low ↦ inr (first, _, (act_withheld-IsBound set first e st seen k q low).0)
  ]

  pub log_event-store_at :
      (e : Event V D Z) (w : SlotWorld D Z sync) (cr : CarrierRef)
      → cr < length w.carriers
      → IsOn cr e
      → (carrier_at w cr).closed ≡ false
      → (store_at (log_event e w) cr ≡ act set e (store_at w cr))
        × (cr < length (log_event e w).carriers)
  log_event-store_at e w cr inside at live = rw (log_event-act e w cr at live) (
    store_at-put_back w cr (act set e (store_at w cr)) inside,
    omega (arith, length-set w.carriers cr (act set e (store_at w cr)).carrier, inside),
  )

  -- After events on `cr`, its carrier is live, as the events alone leave it.
  pub log_events-store_at :
      (es : List (Event V D Z)) (w : SlotWorld D Z sync) (cr : CarrierRef)
      → cr < length w.carriers
      → Steady (store_at w cr) es
      → All (IsQuiet set) es
      → All (IsOn cr) es
      → let w' = log_events es w in
        (store_at w' cr ≡ act_all set es (store_at w cr))
        × (cr < length w'.carriers)
        × ((carrier_at w' cr).closed ≡ false)
  unfolding log_events act_all
  log_events-store_at [] w cr inside k quiet on_cr =
      (refl, inside, Steady-live (store_at w cr) [] k)
  log_events-store_at (e ∷ es) w cr inside k (q, quiet) (o, on_cr) =
      let (same, inside') =
        log_event-store_at e w cr inside o (Steady-live (store_at w cr) (e ∷ es) k) in
      let k' = subst (λ st. Steady st es) (sym same) (act-Steady e es (store_at w cr) q k) in
      let (all, inside'', live) =
        log_events-store_at es (log_event e w) cr inside' k' quiet on_cr in
      (all ∙ ap (act_all set es) same, inside'', live)

  -- One operation that logs through any number of slog handlers and zap cores, each with its
  -- own levels, capacity and pool, on one live carrier that has no scope yet: events below the
  -- trip levels, then one at or above its own, from either adapter. Put out, in order: what the
  -- levels alone let through; the replay of the others across the adapters, in the order in
  -- which they were logged, the last that fit the capacity of the first that was withheld,
  -- marked, after a notice if some did not fit; the failing event.
  pub shared_replay :
      (w : SlotWorld D Z sync) (cr : CarrierRef) (es : List (Event V D Z)) (failed : Event V D Z)
      → cr < length w.carriers
      → IsUnbound (carrier_at w cr)
      → All (IsReady set sync w.pools) es
      → All (IsQuiet set) es
      → fails set failed ≡ true
      → All (IsOn cr) (failed ∷ es)
      → (log_event failed (log_events es w)).out
        ≡ w.out
          ++ (shown set es
              ++ (replay set.zap_down (ring_capacity set es) (withheld set es) ++ puts set failed))
  shared_replay w cr es failed inside u ready quiet loud (o, on_cr) =
      let (all, inside', live) = log_events-store_at es w cr inside (inl (u, ready)) quiet on_cr in
      let (same, _) = log_event-store_at failed (log_events es w) cr inside' o live in
      let (first, out) = first_trip set (store_at w cr) es u ready quiet in
      ap (λ st. st.out) (same ∙ ap (act set failed) all)
      ∙ ap (λ st. st.out) (act-fails set failed _ loud first)
      ∙ ap (λ xs. xs ++ puts set failed) out
      ∙ append_assoc w.out _ _
      ∙ ap (λ xs. w.out ++ xs) (append_assoc (shown set es) _ _)

-- ===== src/Joint/AfterTrip.antt =====
-- handler.go and zapadapter/core.go on one carrier, found through contexts and bound cores: the
-- events after a failure.
use dllog.Base.{
  false, true, ◌≡◌, ℕ, ◌<◌, sym, ap, ◌∙◌, subst, true, List, [], ◌∷◌, ◌++◌, Option, inl, inr, All,
  length,
}
use dllog.Core.Types.{Box}
use dllog.Core.SyncPool.{SyncPool}
use dllog.Core.Log.{spend}
use dllog.Core.Carrier.Bound.{IsUnbound}
use dllog.Core.Carrier.{tripped}
use dllog.Core.Carrier.Opening.{tripped-IsForetold}
use dllog.Core.Carrier.Passing.{tripped-IsOpened, IsOpened}
use dllog.Core.Context.{CarrierRef, carrier_at, store_at}
use dllog.Slots.{SlotWorld, Slot}
use dllog.Slog.Handler.{Setting}
use dllog.Joint.{Event, fails, act}
use dllog.Joint.Replay.{IsQuiet, IsReady}
use dllog.Joint.Budget.{
  budget, limit_after, allowed, puts_all, puts_all-step, puts_all-none, act-IsOpened,
  act-IsForetold, Tripped, act-fails-Tripped,
}
use dllog.Joint.Session.{IsOn, log_event, log_events, log_event-store_at, log_events-store_at}

module _ {V D Z Err : Type 0} (set : Setting V D Z Err)
    {sync : SyncPool (Box (Option (Slot D Z)))} where
  -- What events put out on a carrier that has tripped, which stays so.
  abbrev pub Spends : List (Event V D Z) → SlotWorld D Z sync → CarrierRef → Option ℕ → Type 0
  Spends es w cr b =
      let w' = log_events set es w in
      (w'.out ≡ w.out ++ puts_all set (allowed set b es))
      × (cr < length w'.carriers)
      × ((carrier_at w' cr).closed ≡ false)
      × (tripped (store_at w' cr) ≡ true)

  log_events-IsOpened :
      (es : List (Event V D Z)) (w : SlotWorld D Z sync) (cr : CarrierRef) (b : Option ℕ)
      → cr < length w.carriers
      → IsOpened (store_at w cr) b
      → All (IsOn cr) es
      → Spends es w cr b
  unfolding log_events
  log_events-IsOpened [] w cr b inside k on_cr =
      (puts_all-none set b w.out, inside, k.live, tripped-IsOpened (store_at w cr) b k)
  log_events-IsOpened (e ∷ es) w cr b inside k (o, on_cr) =
      let (same, inside') = log_event-store_at set e w cr inside o k.live in
      let (k', one) = act-IsOpened set e (store_at w cr) b k in
      let (out, inside_end, live, trips) =
        log_events-IsOpened es (log_event set e w) cr (spend b).0 inside'
          (subst (λ st. IsOpened st (spend b).0) (sym same) k') on_cr in
      (
        puts_all-step set b e es w.out (log_event set e w).out _ (ap (λ st. st.out) same ∙ one) out,
        inside_end,
        live,
        trips,
      )

  pub log_events-Tripped :
      (es : List (Event V D Z)) (w : SlotWorld D Z sync) (cr : CarrierRef) (b : Option ℕ)
      → cr < length w.carriers
      → Tripped set (store_at w cr) es b
      → All (IsOn cr) es
      → Spends es w cr b
  unfolding log_events limit_after
  log_events-Tripped es w cr b inside (inl k) on_cr = log_events-IsOpened es w cr b inside k on_cr
  log_events-Tripped [] w cr b inside (inr f) on_cr =
      (puts_all-none set b w.out, inside, f.0.live, tripped-IsForetold (store_at w cr) f.0)
  log_events-Tripped (e ∷ es) w cr b inside (inr (f, (r, ready), same_b)) (o, on_cr) =
      let (same, inside') = log_event-store_at set e w cr inside o f.live in
      let (k', one) = act-IsForetold set e (store_at w cr) f r in
      let spent = (spend (budget set [] (e ∷ es))).0 in
      let (out, inside_end, live, trips) =
        log_events-IsOpened es (log_event set e w) cr spent inside'
          (subst (λ st. IsOpened st spent) (sym same) k') on_cr in
      subst (λ b. Spends (e ∷ es) w cr b) (sym same_b)
        (
          puts_all-step set _ e es w.out (log_event set e w).out _ (ap (λ st. st.out) same ∙ one)
              out,
          inside_end,
          live,
          trips,
        )

  -- After any events on a live carrier that had no scope, one of them a failure, it has tripped.
  pub log_events-failed :
      (w : SlotWorld D Z sync) (cr : CarrierRef) (es later : List (Event V D Z))
      (failed : Event V D Z)
      → cr < length w.carriers
      → IsUnbound (carrier_at w cr)
      → All (IsReady set sync w.pools) es
      → All (IsReady set sync w.pools) later
      → All (IsQuiet set) es
      → fails set failed ≡ true
      → All (IsOn cr) (failed ∷ es)
      → All (IsOn cr) later
      → Spends later (log_event set failed (log_events set es w)) cr (budget set es later)
  log_events-failed w cr es later failed inside u ready ready' quiet loud (o, on_es) on_later =
      let (all, inside', live) =
        log_events-store_at set es w cr inside (inl (u, ready)) quiet on_es in
      let (same, inside'') =
        log_event-store_at set failed (log_events set es w) cr inside' o live in
      log_events-Tripped later (log_event set failed (log_events set es w)) cr (budget set es later)
        inside''
        (subst (λ st. Tripped set st later (budget set es later))
          (sym (same ∙ ap (act set failed) all))
          (act-fails-Tripped set failed (store_at w cr) es later u ready ready' quiet loud))
        on_later

  -- On a live carrier that had no scope, with the pools in place: after events below the trip
  -- levels and then one at or above its own, any later events of the two adapters go out in
  -- order, whatever their levels, up to the post-trip limit of the first event that was
  -- withheld, or else of the first after the failure, and the others are dropped; a limit that
  -- is not positive is none.
  pub limited_after_failure :
      (w : SlotWorld D Z sync) (cr : CarrierRef) (es later : List (Event V D Z))
      (failed : Event V D Z)
      → cr < length w.carriers
      → IsUnbound (carrier_at w cr)
      → All (IsReady set sync w.pools) es
      → All (IsReady set sync w.pools) later
      → All (IsQuiet set) es
      → fails set failed ≡ true
      → All (IsOn cr) (failed ∷ es)
      → All (IsOn cr) later
      → let w' = log_event set failed (log_events set es w) in
        (log_events set later w').out
        ≡ w'.out ++ puts_all set (allowed set (budget set es later) later)
  limited_after_failure w cr es later failed inside u ready ready' quiet loud on_es on_later =
      (log_events-failed w cr es later failed inside u ready ready' quiet loud on_es on_later).0

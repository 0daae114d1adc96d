-- ===== src/Joint/Released.antt =====
-- handler.go and zapadapter/core.go after a scope's `done`: events that come late.
use dllog.Base.{
  ◌≡◌, ◌<◌, refl, ap, ◌∙◌, true, false, List, [], ◌∷◌, ◌++◌, Option, some, inl, inr, if◌then◌else◌,
  Bool-cases, append-nil, append_assoc, All, length,
}
use dllog.Core.Types.{Box}
use dllog.Core.SyncPool.{SyncPool}
use dllog.Core.Context.{CarrierRef, carrier_at}
use dllog.Slots.{SlotWorld, Slot}
use dllog.Slog.Handler.{Setting}
use dllog.Slog.Scope.{run_done}
use dllog.Slog.Live.{live_carrier-closed, run_done-closed}
use dllog.Slog.Unscoped.{handle-shown}
use dllog.Zap.Core.{Core, bound_live}
use dllog.Zap.Unscoped.{check-write}
use dllog.Joint.{Event, slog_event, zap_event, shows, puts, shown}
use dllog.Joint.Session.{IsOn, log_event, log_events}

module _ {V D Z Err : Type 0} (set : Setting V D Z Err)
    {sync : SyncPool (Box (Option (Slot D Z)))} where
  bound_live-closed :
      (c : Core Z) (w : SlotWorld D Z sync) (cr : CarrierRef)
      → c.carrier ≡ some cr
      → (carrier_at w cr).closed ≡ true
      → bound_live c w c.carrier ≡ false
  bound_live-closed c w cr at done = rw (at, done) refl

  -- One event on a released carrier.
  log_event-closed :
      (e : Event V D Z) (w : SlotWorld D Z sync) (cr : CarrierRef)
      → IsOn cr e
      → (carrier_at w cr).closed ≡ true
      → log_event set e w ≡ (if shows set e then record w { out = w.out ++ puts set e } else w)
  unfolding log_event
  log_event-closed (slog_event h ctx r) w cr at done =
      handle-shown set h ctx w r (live_carrier-closed w ctx cr at done)
  log_event-closed (zap_event c l) w cr at done =
      (check-write c set.zap_down (λ n _ _. n) tt l.entry l.fields w
        (bound_live-closed c w cr at done)).1

  log_events-closed :
      (es : List (Event V D Z)) (w : SlotWorld D Z sync) (cr : CarrierRef)
      → All (IsOn cr) es
      → (carrier_at w cr).closed ≡ true
      → log_events set es w ≡ record w { out = w.out ++ shown set es }
  unfolding log_events shown
  log_events-closed [] w cr on_cr done = simp (append-nil w.out) refl
  log_events-closed (e ∷ es) w cr (o, on_cr) done = elim (Bool-cases (shows set e)) [
    | inl up ↦
        simp (log_event-closed e w cr o done, up)
          (log_events-closed es (record w { out = w.out ++ puts set e }) cr on_cr done
            ∙ ap (λ xs. record w { out = xs }) (append_assoc w.out (puts set e) (shown set es)))
    | inr low ↦ simp (log_event-closed e w cr o done, low) (log_events-closed es w cr on_cr done)
  ]

  -- After the `done` of a carrier's scope, whatever the scope held, the events logged on it
  -- through slog handlers and zap cores are put out as their levels alone let them, and nothing
  -- else changes: nothing is withheld, no pool is touched, and no carrier opens again.
  pub late_events :
      (w : SlotWorld D Z sync) (cr : CarrierRef) (es : List (Event V D Z))
      → cr < length w.carriers
      → All (IsOn cr) es
      → let w' = run_done (some cr) w in
        log_events set es w' ≡ record w' { out = w'.out ++ shown set es }
  late_events w cr es inside on_cr =
      log_events-closed es (run_done (some cr) w) cr on_cr (run_done-closed w cr inside)

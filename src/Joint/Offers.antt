-- ===== src/Joint/Offers.antt =====
-- handler.go and zapadapter/core.go together with what asks them first: `slog.Logger` calls `Enabled`
-- before `Handle`, and a zap logger writes what `Check` adds the core to.
use dllog.Base.{
  ◌≡◌, ◌<◌, refl, sym, ap, ◌∙◌, subst, lt_int, le_int, Bool, true, false, not, ◌||◌, List, [], ◌∷◌,
  Option, inl, inr, if◌then◌else◌, Bool-cases, All, length,
}
use dllog.Core.Types.{Box}
use dllog.Core.SyncPool.{SyncPool}
use dllog.Core.Carrier.Stable.{StaysLive-IsStable}
use dllog.Core.Context.{CarrierRef, carrier_at, store_at}
use dllog.Slots.{SlotStore, SlotWorld, Slot, slots}
use dllog.Slog.Handler.{Setting}
use dllog.Slog.Handler
use dllog.Slog.Live.{live_carrier-live}
use dllog.Slog.Kept.{handle_scoped-IsStable}
use dllog.Zap.Core as Zap
use dllog.Zap.Kept.{write_scoped-IsStable}
use dllog.Joint.{Event, slog_event, zap_event, act}
use dllog.Joint.Session.{IsOn, log_event, log_events, log_event-store_at}

module _ {V D Z Err : Type 0} (set : Setting V D Z Err) where
  module _ {sync : SyncPool (Box (Option (Slot D Z)))} where
    -- `Enabled` of the handler, or of the core.
    abbrev enabled_by : SlotWorld D Z sync → Event V D Z → Bool
    enabled_by w (slog_event h ctx r) = Handler.enabled set h w ctx r.level
    enabled_by w (zap_event c l) = Zap.enabled c w l.entry.level

    -- A call on a logger.
    unfoldable pub offer : Event V D Z → SlotWorld D Z sync → SlotWorld D Z sync
    offer e w = if enabled_by w e then log_event set e w else w

    unfoldable pub offer_all : List (Event V D Z) → SlotWorld D Z sync → SlotWorld D Z sync
    offer_all [] w = w
    offer_all (e ∷ es) w = offer_all es (offer e w)

  -- At or above the effective level, or the floor.
  abbrev pub accepts : Event V D Z → Bool
  accepts (slog_event h ctx r) =
      le_int (Handler.level set h) r.level || not (lt_int r.level (Handler.buffer_floor set h))
  accepts (zap_event c l) =
      le_int c.cfg.level l.entry.level || not (lt_int l.entry.level c.cfg.buffer_floor)

  unfoldable pub accepted : List (Event V D Z) → List (Event V D Z)
  accepted [] = []
  accepted (e ∷ es) = if accepts e then e ∷ accepted es else accepted es

  pub All-accepted {κ} :
      (P : Event V D Z → Type κ) (es : List (Event V D Z)) → All P es → All P (accepted es)
  unfolding accepted
  All-accepted P [] h = tt
  All-accepted P (e ∷ es) (p, h) = elim (Bool-cases (accepts e)) [
    | inl a ↦
        let kept : (if accepts e then e ∷ accepted es else accepted es) ≡ e ∷ accepted es =
          rw a refl in
        subst (All P) (sym kept) (p, All-accepted P es h)
    | inr a ↦
        let gone : (if accepts e then e ∷ accepted es else accepted es) ≡ accepted es = rw a refl in
        subst (All P) (sym gone) (All-accepted P es h)
  ]

  gate : (a b : Bool) → (if a then true else if b then false else true) ≡ (a || not b)
  gate true b = refl
  gate false true = refl
  gate false false = refl

  module _ {sync : SyncPool (Box (Option (Slot D Z)))} where
    -- In a live scope a logger asks for what is above the floor.
    enabled_by-accepts :
        (e : Event V D Z) (w : SlotWorld D Z sync) (cr : CarrierRef)
        → IsOn cr e
        → (carrier_at w cr).closed ≡ false
        → enabled_by w e ≡ accepts e
    unfolding Handler.enabled Zap.enabled
    enabled_by-accepts (slog_event h ctx r) w cr at live =
        rw (live_carrier-live w ctx cr at live) (
          gate (le_int (Handler.level set h) r.level) (lt_int r.level (Handler.buffer_floor set h)))
    enabled_by-accepts (zap_event c l) w cr at live =
        rw (at, live)
          (gate (le_int c.cfg.level l.entry.level) (lt_int l.entry.level c.cfg.buffer_floor))

    act-live :
        (e : Event V D Z) (st : SlotStore D Z sync)
        → (act set e st).carrier.closed ≡ st.carrier.closed
    unfolding act
    act-live (slog_event h ctx r) st =
        handle_scoped-IsStable set h (StaysLive-IsStable (slots set.zap_down)) ctx r st
    act-live (zap_event c l) st =
        write_scoped-IsStable c set.zap_down (StaysLive-IsStable (slots set.zap_down)) l.entry
          l.fields st

    -- On a live carrier, calls on loggers, which ask `Enabled` or `Check` first, log exactly
    -- the events that are at or above the effective level or not below the buffer floor,
    -- before a failure and after it.
    pub offer_all-accepted :
        (es : List (Event V D Z)) (w : SlotWorld D Z sync) (cr : CarrierRef)
        → cr < length w.carriers
        → (carrier_at w cr).closed ≡ false
        → All (IsOn cr) es
        → offer_all es w ≡ log_events set (accepted es) w
    unfolding offer_all offer accepted log_events
    offer_all-accepted [] w cr inside live on_cr = refl
    offer_all-accepted (e ∷ es) w cr inside live (o, on_cr) =
        let same = enabled_by-accepts e w cr o live in
        elim (Bool-cases (accepts e)) [
          | inl a ↦
              let (stored, inside') = log_event-store_at set e w cr inside o live in
              let live' = ap (λ st. st.carrier.closed) stored ∙ act-live e (store_at w cr) ∙ live in
              simp (same, a) (offer_all-accepted es (log_event set e w) cr inside' live' on_cr)
          | inr a ↦ simp (same, a) (offer_all-accepted es w cr inside live on_cr)
        ]

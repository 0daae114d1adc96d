-- ===== src/Joint/Whole.antt =====
-- handler.go and zapadapter/core.go on one carrier: any events, split at the first that fails.
use dllog.Base.{
  ◌≡◌, ◌<◌, ◌⊎◌, refl, sym, ap, ◌∙◌, subst, true, List, [], ◌∷◌, ◌++◌, Option, inl, inr,
  if◌then◌else◌, Bool-cases, append-nil, append_assoc, All, All-append_left, All-append_right,
  length,
}
use dllog.Core.Types.{Box}
use dllog.Core.SyncPool.{SyncPool}
use dllog.Core.Carrier.Bound.{IsUnbound}
use dllog.Slots.Replay.{replay}
use dllog.Core.Context.{CarrierRef, carrier_at, store_at}
use dllog.Slots.{SlotStore, SlotWorld, Slot, Output}
use dllog.Slog.Handler.{Setting}
use dllog.Joint.{Event, fails, shows, puts, shown, withheld, ring_capacity, act, act_all}
use dllog.Joint.Replay.{
  IsQuiet, IsReady, act_shown-unbound, act_first-IsBound, act_all-IsBound, IsUnbound-IsHolding,
}
use dllog.Joint.Budget.{budget, allowed, puts_all}
use dllog.Joint.Session.{IsOn, log_event, log_events, log_events-store_at, shared_replay}
use dllog.Joint.AfterTrip.{limited_after_failure}

module _ {V D Z Err : Type 0} (set : Setting V D Z Err) where
  -- The events before the first failure.
  unfoldable pub quiet : List (Event V D Z) → List (Event V D Z)
  quiet [] = []
  quiet (e ∷ es) = if fails set e then [] else e ∷ quiet es

  -- The first failure and what follows.
  unfoldable pub failure : List (Event V D Z) → List (Event V D Z)
  failure [] = []
  failure (e ∷ es) = if fails set e then e ∷ es else failure es

  put_by_failure : List (Event V D Z) → List (Event V D Z) → List (Output D Z)
  put_by_failure es [] = []
  put_by_failure es (failed ∷ later) =
      replay set.zap_down (ring_capacity set es) (withheld set es)
      ++ (puts set failed ++ puts_all set (allowed set (budget set es later) later))

  -- What an operation that logs these events puts out.
  unfoldable pub put_out : List (Event V D Z) → List (Output D Z)
  unfolding put_by_failure
  put_out es = shown set (quiet es) ++ put_by_failure (quiet es) (failure es)

  pub quiet-failure : (es : List (Event V D Z)) → es ≡ quiet es ++ failure es
  unfolding quiet failure
  quiet-failure [] = refl
  quiet-failure (e ∷ es) = elim (Bool-cases (fails set e)) [
    | inl f ↦ simp f refl
    | inr q ↦ simp q (ap (λ xs. e ∷ xs) (quiet-failure es))
  ]

  pub quiet-IsQuiet : (es : List (Event V D Z)) → All (IsQuiet set) (quiet es)
  unfolding quiet
  quiet-IsQuiet [] = tt
  quiet-IsQuiet (e ∷ es) = elim (Bool-cases (fails set e)) [
    | inl f ↦ simp f tt
    | inr q ↦
        let kept : (if fails set e then [] else e ∷ quiet es) ≡ e ∷ quiet es = rw q refl in
        subst (All (IsQuiet set)) (sym kept) (q, quiet-IsQuiet es)
  ]

  pub failure-cases :
      (es : List (Event V D Z))
      → (failure es ≡ [])
        ⊎ ((failed : Event V D Z) × (later : List (Event V D Z)) × (failure es ≡ failed ∷ later)
            × (fails set failed ≡ true))
  unfolding failure
  failure-cases [] = inl refl
  failure-cases (e ∷ es) = elim (Bool-cases (fails set e)) [
    | inl f ↦ simp f (inr (e, es, refl, f))
    | inr q ↦ simp q (failure-cases es)
  ]

  module _ {sync : SyncPool (Box (Option (Slot D Z)))} where
    -- What goes out before any failure.
    act_all-shown :
        (st : SlotStore D Z sync) (es : List (Event V D Z))
        → IsUnbound st.carrier
        → All (IsReady set sync st.pools) es
        → All (IsQuiet set) es
        → (act_all set es st).out ≡ st.out ++ shown set es
    unfolding act_all shown
    act_all-shown st [] u ready q = sym (append-nil st.out)
    act_all-shown st (e ∷ es) u (r, ready) (q, qs) = elim (Bool-cases (shows set e)) [
      | inl up ↦
          let same = act_shown-unbound set e st u q up in
          rw up (
            act_all-shown (act set e st) es (rw same u) (rw same ready) qs
            ∙ ap (λ st'. st'.out ++ shown set es) same
            ∙ append_assoc st.out (puts set e) (shown set es))
      | inr low ↦
          let (b, out) = act_first-IsBound set e st (IsUnbound-IsHolding set e st u r) q low in
          let (_, out') = act_all-IsBound set e (act set e st) _ es b qs in
          rw low (out' ∙ ap (λ xs. xs ++ shown set es) out)
    ]

    pub log_events-append :
        (xs ys : List (Event V D Z)) (w : SlotWorld D Z sync)
        → log_events set (xs ++ ys) w ≡ log_events set ys (log_events set xs w)
    unfolding log_events
    log_events-append [] ys w = refl
    log_events-append (x ∷ xs) ys w = log_events-append xs ys (log_event set x w)

    quiet_out :
        (w : SlotWorld D Z sync) (cr : CarrierRef) (es : List (Event V D Z))
        → cr < length w.carriers
        → IsUnbound (carrier_at w cr)
        → All (IsReady set sync w.pools) es
        → All (IsQuiet set) es
        → All (IsOn cr) es
        → (log_events set es w).out ≡ w.out ++ shown set es
    quiet_out w cr es inside u ready q on_cr =
        let (all, _, _) = log_events-store_at set es w cr inside (inl (u, ready)) q on_cr in
        ap (λ st. st.out) all ∙ act_all-shown (store_at w cr) es u ready q

    failed_out :
        (w : SlotWorld D Z sync) (cr : CarrierRef) (es later : List (Event V D Z))
        (failed : Event V D Z)
        → cr < length w.carriers
        → IsUnbound (carrier_at w cr)
        → All (IsReady set sync w.pools) (es ++ (failed ∷ later))
        → All (IsQuiet set) es
        → fails set failed ≡ true
        → All (IsOn cr) (es ++ (failed ∷ later))
        → (log_events set (es ++ (failed ∷ later)) w).out
          ≡ w.out ++ (shown set es ++ put_by_failure es (failed ∷ later))
    unfolding put_by_failure log_events
    failed_out w cr es later failed inside u ready q loud on_cr =
        let ready_es = All-append_left (IsReady set sync w.pools) es (failed ∷ later) ready in
        let (_, ready_later) =
          All-append_right (IsReady set sync w.pools) es (failed ∷ later) ready in
        let on_es = All-append_left (IsOn cr) es (failed ∷ later) on_cr in
        let (o, on_later) = All-append_right (IsOn cr) es (failed ∷ later) on_cr in
        ap (λ v. v.out) (log_events-append es (failed ∷ later) w)
        ∙ limited_after_failure set w cr es later failed inside u ready_es ready_later q loud
            (o, on_es) on_later
        ∙ ap (λ xs. xs ++ rest)
            (shared_replay set w cr es failed inside u ready_es q loud (o, on_es))
        ∙ append_assoc w.out _ rest
        ∙ ap (λ xs. w.out ++ xs)
            (append_assoc (shown set es) _ rest
              ∙ ap (λ xs. shown set es ++ xs) (append_assoc _ (puts set failed) rest))
      where
        rest : List (Output D Z)
        rest = puts_all set (allowed set (budget set es later) later)

    pub operation_out :
        (w : SlotWorld D Z sync) (cr : CarrierRef) (es : List (Event V D Z))
        → cr < length w.carriers
        → IsUnbound (carrier_at w cr)
        → All (IsReady set sync w.pools) es
        → All (IsOn cr) es
        → (log_events set es w).out ≡ w.out ++ put_out es
    unfolding put_out put_by_failure
    operation_out w cr es inside u ready on_cr =
        let parts = quiet-failure es in
        elim (failure-cases es) [
          | inl none_fails ↦
              let all : es ≡ quiet es =
                parts ∙ ap (λ xs. quiet es ++ xs) none_fails ∙ append-nil (quiet es) in
              rw none_fails (
                ap (λ xs. (log_events set xs w).out) all
                ∙ quiet_out w cr (quiet es) inside u
                    (subst (All (IsReady set sync w.pools)) all ready) (quiet-IsQuiet es)
                    (subst (All (IsOn cr)) all on_cr)
                ∙ ap (λ xs. w.out ++ xs) (sym (append-nil _)))
          | inr (failed, later, at, loud) ↦
              let all : es ≡ quiet es ++ (failed ∷ later) = parts ∙ ap (λ xs. quiet es ++ xs) at in
              ap (λ xs. (log_events set xs w).out) all
              ∙ failed_out w cr (quiet es) later failed inside u
                  (subst (All (IsReady set sync w.pools)) all ready) (quiet-IsQuiet es) loud
                  (subst (All (IsOn cr)) all on_cr)
              ∙ ap (λ xs. w.out ++ (shown set (quiet es) ++ put_by_failure (quiet es) xs)) (sym at)
        ]

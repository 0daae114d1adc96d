-- ===== src/Joint/Anchor.antt =====
-- middleware.go over handler.go and zapadapter/core.go: the end of a request, whatever it logged.
use Prim.Native.String.{String}
use dllog.Base.{
  ℕ, zero, suc, ◌≡◌, ◌<◌, refl, sym, ap, ◌∙◌, subst, Int64, le_int, Bool, true, false, List, [],
  ◌∷◌, ◌++◌, Option, some, inl, inr, if◌then◌else◌, Bool-cases, append-nil, All, All-append_left,
  All-append_right, length, length-set, arith,
}
use dllog.Core.Types.{Box, norm_limit}
use dllog.Core.SyncPool.{SyncPool}
use dllog.Core.Carrier.{tripped, mark_and_flush}
use dllog.Core.Carrier.Bound.{IsUnbound, tripped-IsUnbound, tripped-IsBound}
use dllog.Core.Context.{Ctx, Context, CarrierRef, from_context, carrier_at, store_at, put_back, on}
use dllog.Core.Scope.Refine.{left}
use dllog.Slots.{SlotStore, SlotWorld, Slot, slots}
use dllog.Slog.Types.{Record}
use dllog.Slog.Scope.{trip}
use dllog.Slog.Live.{live_carrier-live, store_at-put_back}
use dllog.Slog.Handler.{Handler, Setting, trip_level, handle}
use dllog.Slog.Middleware.{
  Request, StatusWriter, status_code, MwConfig, already_tripped, anchor, logger_or,
}
use dllog.Joint.{Event, slog_event, fails, shows, puts, act, act_all}
use dllog.Joint.Laws.{act-fails}
use dllog.Joint.Replay.{
  IsQuiet, IsReady, act_shown-unbound, act_first-IsBound, act_all-IsBound, IsUnbound-IsHolding,
  first_trip,
}
use dllog.Joint.Budget.{
  budget, limit_after, allowed, puts_all, puts_all-none, Tripped, mark_and_flush-Tripped,
}
use dllog.Joint.Session.{IsOn, log_event, log_events, log_event-store_at, log_events-store_at}
use dllog.Joint.AfterTrip.{log_events-Tripped, log_events-failed}
use dllog.Joint.Whole.{
  quiet, failure, quiet-failure, quiet-IsQuiet, failure-cases, log_events-append,
}

abbrev pub is_empty : {A : Type 0} → List A → Bool
is_empty [] = true
is_empty (x ∷ xs) = false

module _ {V D Z Err : Type 0} (set : Setting V D Z Err) where
  left-suc : (n : ℕ) → left (suc n) 0 ≡ some (suc n)
  left-suc n = ground arith

  -- A budget that is not spent lets one event through.
  puts_all-one :
      (n : ℕ) (e : Event V D Z) → puts_all set (allowed set (left n 0) (e ∷ [])) ≡ puts set e
  unfolding puts_all allowed
  puts_all-one zero e = append-nil (puts set e)
  puts_all-one (suc n) e = rw (left-suc n) (sym (puts_all-none set (some n) (puts set e)))

  module _ {sync : SyncPool (Box (Option (Slot D Z)))} where
    tripped-quiet :
        (st : SlotStore D Z sync) (es : List (Event V D Z))
        → IsUnbound st.carrier
        → All (IsReady set sync st.pools) es
        → All (IsQuiet set) es
        → tripped (act_all set es st) ≡ false
    unfolding act_all
    tripped-quiet st [] u ready q = tripped-IsUnbound st u
    tripped-quiet st (e ∷ es) u (r, ready) (q, qs) = elim (Bool-cases (shows set e)) [
      | inl up ↦
          let same = act_shown-unbound set e st u q up in
          tripped-quiet (act set e st) es (rw same u) (rw same ready) qs
      | inr low ↦
          let (b, _) = act_first-IsBound set e st (IsUnbound-IsHolding set e st u r) q low in
          tripped-IsBound _ _ _ _ (act_all-IsBound set e (act set e st) _ es b qs).0
    ]

    already_tripped-live :
        (w : SlotWorld D Z sync) (ctx : Context) (cr : CarrierRef)
        → from_context ctx ≡ some cr
        → (carrier_at w cr).closed ≡ false
        → already_tripped w ctx ≡ tripped (store_at w cr)
    unfolding already_tripped
    already_tripped-live w ctx cr at live = rw (live_carrier-live w ctx cr at live) refl

    trip-live :
        (w : SlotWorld D Z sync) (ctx : Context) (cr : CarrierRef)
        → from_context ctx ≡ some cr
        → (carrier_at w cr).closed ≡ false
        → trip (slots set.zap_down) ctx w
          ≡ put_back w cr (mark_and_flush (slots set.zap_down) (store_at w cr)).0
    unfolding trip on
    trip-live w ctx cr at live = rw (live_carrier-live w ctx cr at live) refl

    -- `Trip`, then a failing event: the same is put out as for the event alone.
    trip-log_event :
        (w : SlotWorld D Z sync) (cr : CarrierRef) (es : List (Event V D Z)) (failed : Event V D Z)
        → cr < length w.carriers
        → IsUnbound (carrier_at w cr)
        → All (IsReady set sync w.pools) es
        → IsReady set sync w.pools failed
        → All (IsQuiet set) es
        → fails set failed ≡ true
        → All (IsOn cr) (failed ∷ es)
        → let w' = log_events set es w in
          let st = (mark_and_flush (slots set.zap_down) (store_at w' cr)).0 in
          (log_event set failed (put_back w' cr st)).out ≡ (log_event set failed w').out
    unfolding log_events limit_after
    trip-log_event w cr es failed inside u ready r q loud (o, on_es) =
        let ops = slots {D = D} set.zap_down in
        let w' = log_events set es w in
        let st = (mark_and_flush ops (store_at w' cr)).0 in
        let b = budget set es (failed ∷ []) in
        let (all, inside', live) =
          log_events-store_at set es w cr inside (inl (u, ready)) q on_es in
        let (first, _) = first_trip set (store_at w cr) es u ready q in
        let (same, _) = log_event-store_at set failed w' cr inside' o live in
        let k =
          subst (λ s. Tripped set s (failed ∷ []) b)
            (sym (store_at-put_back w' cr st inside' ∙ ap (λ s. (mark_and_flush ops s).0) all))
            (mark_and_flush-Tripped set (store_at w cr) es (failed ∷ []) u ready (r, tt) q) in
        let (out, _, _, _) =
          log_events-Tripped set (failed ∷ []) (put_back w' cr st) cr b
            (omega (arith, length-set w'.carriers cr st.carrier, inside')) k (o, tt) in
        out
        ∙ ap (λ xs. st.out ++ xs)
            (puts_all-one (norm_limit (limit_after set es (failed ∷ []))) failed)
        ∙ sym (
            ap (λ s. s.out)
              (same
                ∙ act-fails set failed (store_at w' cr) loud
                    (ap (λ s. (mark_and_flush ops s).1) all ∙ first)))

module _ {V D Z Err L : Type 0} {sync : SyncPool (Box (Option (Slot D Z)))}
    (set : Setting V D Z Err) (h : Handler V D)
    (log_error : L → Context → String → String → Int64 → SlotWorld D Z sync → SlotWorld D Z sync)
    (default_logger : L) (cfg : MwConfig L) (record_of : String → String → Int64 → Record)
    (logs : (ctx : Context) (method path : String) (status : Int64) (w : SlotWorld D Z sync)
      → log_error (logger_or default_logger cfg.logger) ctx method path status w
        ≡ (handle set h ctx (record_of method path status) w).0)
    (loud : (method path : String) (status : Int64)
      → le_int (trip_level set h) (record_of method path status).level ≡ true) where
  abbrev pub anchor_event : Ctx → Request → StatusWriter → Event V D Z
  anchor_event ctx r sw =
      slog_event h (some ctx) (record_of r.method (cfg.anchor_path r) (status_code sw))

  module _ (w : SlotWorld D Z sync) (ctx : Ctx) (cr : CarrierRef) (es : List (Event V D Z))
      (r : Request) (sw : StatusWriter) (inside : cr < length w.carriers)
      (u : IsUnbound (carrier_at w cr)) (ready : All (IsReady set sync w.pools) es)
      (at : from_context (some ctx) ≡ some cr) (on_cr : All (IsOn cr) es) where
    -- Nothing has failed.
    anchor-quiet :
        IsReady set sync w.pools (anchor_event ctx r sw)
        → All (IsQuiet set) es
        → let w' = log_events set es w in
          (anchor (slots set.zap_down) log_error default_logger cfg ctx r (status_code sw) w').out
          ≡ (log_event set (anchor_event ctx r sw) w').out
    unfolding anchor log_event
    anchor-quiet r_ready q =
        let w' = log_events set es w in
        let (all, inside', live) =
          log_events-store_at set es w cr inside (inl (u, ready)) q on_cr in
        let calm =
          already_tripped-live set w' (some ctx) cr at live
          ∙ ap tripped all
          ∙ tripped-quiet set (store_at w cr) es u ready q in
        rw
          (
            calm,
            logs (some ctx) r.method (cfg.anchor_path r) (status_code sw)
                (trip (slots set.zap_down) (some ctx) w'),
            trip-live set w' (some ctx) cr at live,
          )
          (trip-log_event set w cr es (anchor_event ctx r sw) inside u ready r_ready q
            (loud r.method (cfg.anchor_path r) (status_code sw)) (at, on_cr))

    -- Something has failed.
    anchor-failed :
        (failed : Event V D Z) (later : List (Event V D Z))
        → failure set es ≡ failed ∷ later
        → fails set failed ≡ true
        → let w' = log_events set es w in
          anchor (slots set.zap_down) log_error default_logger cfg ctx r (status_code sw) w' ≡ w'
    unfolding anchor log_events
    anchor-failed failed later split bad =
        let parts : es ≡ quiet set es ++ (failed ∷ later) =
          quiet-failure set es ∙ ap (λ xs. quiet set es ++ xs) split in
        let ready' = subst (All (IsReady set sync w.pools)) parts ready in
        let on_cr' = subst (All (IsOn cr)) parts on_cr in
        let (_, ready_later) =
          All-append_right (IsReady set sync w.pools) (quiet set es) _ ready' in
        let (o, on_later) = All-append_right (IsOn cr) (quiet set es) _ on_cr' in
        let (_, _, live, trips) =
          log_events-failed set w cr (quiet set es) later failed inside u
            (All-append_left (IsReady set sync w.pools) (quiet set es) _ ready') ready_later
            (quiet-IsQuiet set es) bad (o, All-append_left (IsOn cr) (quiet set es) _ on_cr')
            on_later in
        let same =
          ap (λ xs. log_events set xs w) parts
          ∙ log_events-append set (quiet set es) (failed ∷ later) w in
        rw
          (already_tripped-live set (log_events set es w) (some ctx) cr at
              (ap (λ v. (carrier_at v cr).closed) same ∙ live)
            ∙ ap (λ v. tripped (store_at v cr)) same
            ∙ trips)
          refl

    -- The anchor is one event more, unless one has failed.
    pub anchor-out :
        IsReady set sync w.pools (anchor_event ctx r sw)
        → let w' = log_events set es w in
          let added = if is_empty (failure set es) then anchor_event ctx r sw ∷ [] else [] in
          (anchor (slots set.zap_down) log_error default_logger cfg ctx r (status_code sw) w').out
          ≡ (log_events set added w').out
    unfolding log_events
    anchor-out r_ready = elim (failure-cases set es) [
      | inl calm ↦
          let all : es ≡ quiet set es =
            quiet-failure set es ∙ ap (λ xs. quiet set es ++ xs) calm ∙ append-nil (quiet set es) in
          rw calm
            (anchor-quiet r_ready (subst (All (IsQuiet set)) (sym all) (quiet-IsQuiet set es)))
      | inr (failed, later, split, bad) ↦
          rw split (ap (λ v. v.out) (anchor-failed failed later split bad))
    ]

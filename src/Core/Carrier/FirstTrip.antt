-- ===== src/Core/Carrier/FirstTrip.antt =====
-- internal/core/carrier.go: the first trip of a carrier, and what it puts out.
use mathlib.Core.List.{append-nil}
use dllog.Base.{
  lt_int, ap, ap₂, ◌∷◌, ◌-◌, ◌%◌, ◌^◌, ◌≡◌, refl, sym, ◌∙◌, subst, Int64, true, false, List, [],
  ◌++◌, Option, some, none, if◌then◌else◌, length,
}
use dllog.Core.Types.{Scope, Box, PoolRef, norm_capacity}
use dllog.Core.SyncPool.{SyncPool}
use dllog.Core.Scope.History.{keep_last, keep_last-nil}
use dllog.Core.Carrier.{
  Entry, Store, pre_trip, flush, flush_on, mark_and_flush, notice, emit_all, tripped, scope_tripped,
}
use dllog.Core.Carrier.Cases.{mark_tripped_cases}
use dllog.Core.Carrier.Hold.{Held, IsHolding, trip-Held}

-- What each of these puts out, in order.
abbrev pub gather : {E O : Type 0} → (E → List O) → List (Option E) → List O
gather f [] = []
gather f (none ∷ es) = gather f es
gather f (some e ∷ es) = f e ++ gather f es

-- The notice of `n` that did not fit, with the oldest that did.
abbrev pub announced : {E O : Type 0} → (E → Int64 → List O) → Int64 → List (Option E) → List O
announced f n (some e ∷ es) = if lt_int 0 n then f e n else []
announced f n (none ∷ es) = []
announced f n [] = []

-- What a first trip should put out of a carrier that was given `seen`: the last entries that fit,
-- after a notice of those that did not.
abbrev pub replayed : {E O : Type 0} → Entry E O → Int64 → List (Option E) → List O
replayed ops capacity seen =
    let kept = keep_last (norm_capacity capacity) seen in
    announced ops.notify ((length seen - norm_capacity capacity) % 2 ^ 64) kept
    ++ gather ops.emit kept

pub replayed-nil :
    {E O : Type 0} (ops : Entry E O) (capacity : Int64) (out : List O)
    → out ≡ out ++ replayed ops capacity []
replayed-nil {E} ops capacity out =
    rw (keep_last-nil {A = Option E} (norm_capacity capacity)) (sym (append-nil out))

module _ {E O : Type 0} (ops : Entry E O) where
  emit_all-gather : (es : List (Option E)) → emit_all ops es ≡ gather ops.emit es
  unfolding emit_all
  emit_all-gather [] = refl
  emit_all-gather (none ∷ es) = emit_all-gather es
  emit_all-gather (some e ∷ es) = ap (λ xs. ops.emit e ++ xs) (emit_all-gather es)

  notice-announced :
      (n : Int64) (es : List (Option E)) → notice ops n es ≡ announced ops.notify n es
  unfolding notice
  notice-announced n [] = refl
  notice-announced n (none ∷ es) = refl
  notice-announced n (some e ∷ es) = refl

  flushed-replayed :
      (capacity : Int64) (seen : List (Option E))
      → let kept = keep_last (norm_capacity capacity) seen in
        notice ops ((length seen - norm_capacity capacity) % 2 ^ 64) kept ++ emit_all ops kept
        ≡ replayed ops capacity seen
  flushed-replayed capacity seen = ap₂ ◌++◌ (notice-announced _ _) (emit_all-gather _)

module _ {E : Type 0} (capacity limit : Int64) where
  pub scope_tripped-Held :
      (o : Option (Scope (Option E))) (seen : List (Option E))
      → Held capacity limit o seen
      → scope_tripped o ≡ false
  unfolding scope_tripped
  scope_tripped-Held none seen h = refl
  scope_tripped-Held (some s) seen h = h.0.mirrored ∙ h.2

  module _ {O : Type 0} {sync : SyncPool (Box (Option E))} (ref : PoolRef) where
    -- A carrier that holds has not tripped.
    pub tripped-IsHolding :
        (st : Store E O sync) (seen : List (Option E))
        → IsHolding capacity limit ref st seen
        → tripped st ≡ false
    unfolding tripped
    tripped-IsHolding st seen h =
        simp (h.live, h.early) (scope_tripped-Held st.carrier.scope seen h.held)

    module _ (ops : Entry E O) where
      flush_on-Held :
          (st : Store E O sync) (seen : List (Option E)) (s : Scope (Option E))
          → Held capacity limit (some s) seen
          → let (st', trigger) = flush_on ops st (some s) in
            (trigger ≡ true) × (st'.out ≡ st.out ++ replayed ops capacity seen)
      unfolding flush_on
      flush_on-Held st seen s h =
          let (entries, dropped, tripped) = trip-Held capacity limit s seen h in
          rw (tripped, entries, dropped)
            (refl, ap (λ xs. st.out ++ xs) (flushed-replayed ops capacity seen))

      pub flush-Held :
          (st : Store E O sync) (seen : List (Option E)) (s : Scope (Option E))
          → Held capacity limit (some s) seen
          → st.carrier.scope ≡ some s
          → let (st', trigger) = flush ops st in
            (trigger ≡ true) × (st'.out ≡ st.out ++ replayed ops capacity seen)
      unfolding flush
      flush-Held st seen s h e =
          subst
            (λ o.
              let (st', trigger) = flush_on ops st o in
              (trigger ≡ true) × (st'.out ≡ st.out ++ replayed ops capacity seen))
            (sym e) (flush_on-Held st seen s h)

      -- A trip of a live carrier that has not tripped knows that it is the first, and puts
      -- out the replay of the entries that the carrier was given; nothing, if it was given
      -- none.
      pub mark_and_flush-IsHolding :
          (st : Store E O sync) (seen : List (Option E))
          → IsHolding capacity limit ref st seen
          → let (st', trigger) = mark_and_flush ops st in
            (trigger ≡ true) × (st'.out ≡ st.out ++ replayed ops capacity seen)
      unfolding mark_and_flush pre_trip
      mark_and_flush-IsHolding st seen h =
          mark_tripped_cases
            (λ r.
              let (st', trigger) = if r.1 then flush ops r.0 else (r.0, r.2) in
              (trigger ≡ true) × (st'.out ≡ st.out ++ replayed ops capacity seen))
            st (λ c. cc (c, h.live))
            (λ s _ e. flush-Held st seen s (subst (λ o. Held capacity limit o seen) e h.held) e)
            (λ _ _ t. cc (t, h.early))
            λ _ e _.
              let empty : seen ≡ [] = subst (λ o. Held capacity limit o seen) e h.held in
              (
                refl,
                subst (λ xs. st.out ≡ st.out ++ replayed ops capacity xs) (sym empty)
                    (replayed-nil ops capacity st.out),
              )

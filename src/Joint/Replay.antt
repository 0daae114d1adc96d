-- ===== src/Joint/Replay.antt =====
-- handler.go and zapadapter/core.go on one carrier: one operation, and its failure.
use dllog.Base.{
  ◌≡◌, refl, sym, ap, ◌∙◌, subst, true, false, List, [], ◌∷◌, ◌++◌, Option, some, none, inl, inr,
  Bool-cases, append-nil, append_assoc, All, get_elem?,
}
use dllog.Core.Types.{Box}
use dllog.Core.SyncPool.{SyncPool}
use dllog.Core.Pool.{Pool}
use dllog.Core.Scope.Pooled.{IsPoolOf, PoolFits}
use dllog.Core.Carrier.{bind, mark_and_flush}
use dllog.Core.Carrier.Hold.{Held, IsHolding, bind-IsHolding}
use dllog.Core.Carrier.Bound.{
  IsBound, tripped-IsBound, bind-IsBound, append-IsBound, IsUnbound, tripped-IsUnbound,
  mark_and_flush-IsUnbound,
}
use dllog.Core.Carrier.FirstTrip.{replayed-nil}
use dllog.Slots.Replay.{replay, marked, counted, mark_and_flush-replay_bound}
use dllog.Slots.{SlotStore, Slot, Output, slots}
use dllog.Slog.Handler.{Setting}
use dllog.Joint.{
  Event, pool_of, capacity_of, limit_of, fails, shows, puts, slot_of, shown, withheld,
  ring_capacity, act, act_all,
}
use dllog.Joint.Laws.{act-shown, act-withheld}

module _ {V D Z Err : Type 0} (set : Setting V D Z Err) where
  abbrev pub IsQuiet : Event V D Z → Type 0
  IsQuiet e = fails set e ≡ false

  -- The pool of the event's handler or core is in place.
  pub record IsReady (sync : SyncPool (Box (Option (Slot D Z)))) (pools : List (Pool none sync))
      (e : Event V D Z) : Type 0 where
    pub pool : Pool none sync
    pub pool_at : get_elem? pools (pool_of set e) ≡ some pool
    pub pool_as_made : IsPoolOf none sync (capacity_of set e) (limit_of set e) pool
    pub pool_fits : PoolFits none sync pool

  module _ {sync : SyncPool (Box (Option (Slot D Z)))} where
    abbrev pub Bound : Event V D Z → SlotStore D Z sync → List (Option (Slot D Z)) → Type 0
    Bound e = IsBound (capacity_of set e) (limit_of set e)

    pub act_shown-IsBound :
        (first e : Event V D Z) (st : SlotStore D Z sync) (seen : List (Option (Slot D Z)))
        → Bound first st seen
        → IsQuiet e
        → shows set e ≡ true
        → Bound first (act set e st) seen × ((act set e st).out ≡ st.out ++ puts set e)
    act_shown-IsBound first e st seen k q up =
        rw (act-shown set e st q up (tripped-IsBound _ _ st seen k)) (
          record {
            live = k.live;
            early = k.early;
            scope = k.scope;
            there = k.there;
            held = k.held;
          },
          refl,
        )

    pub act_withheld-IsBound :
        (first e : Event V D Z) (st : SlotStore D Z sync) (seen : List (Option (Slot D Z)))
        → Bound first st seen
        → IsQuiet e
        → shows set e ≡ false
        → Bound first (act set e st) (seen ++ (some (slot_of set e) ∷ []))
          × ((act set e st).out ≡ st.out)
    act_withheld-IsBound first e st seen k q low =
        let (buffered, kept, out) = append-IsBound _ _ st seen (slot_of set e) k in
        rw (act-withheld set e st st q low (bind-IsBound _ _ (pool_of set e) st seen k) buffered)
          (kept, out)

    -- What a live carrier holds, and has put out, after events below the trip levels.
    pub act_all-IsBound :
        (first : Event V D Z) (st : SlotStore D Z sync) (seen : List (Option (Slot D Z)))
        (es : List (Event V D Z))
        → Bound first st seen
        → All IsQuiet es
        → let st' = act_all set es st in
          Bound first st' (seen ++ withheld set es) × (st'.out ≡ st.out ++ shown set es)
    unfolding act_all shown withheld
    act_all-IsBound first st seen [] k quiet = rw (append-nil seen) (k, sym (append-nil st.out))
    act_all-IsBound first st seen (e ∷ es) k (q, quiet) = elim (Bool-cases (shows set e)) [
      | inl up ↦
          let (k', out) = act_shown-IsBound first e st seen k q up in
          let (k'', out') = act_all-IsBound first (act set e st) seen es k' quiet in
          rw up (k'', out' ∙ ap (λ xs. xs ++ shown set es) out ∙ append_assoc st.out (puts set e) _)
      | inr low ↦
          let (k', out) = act_withheld-IsBound first e st seen k q low in
          let (k'', out') = act_all-IsBound first (act set e st) _ es k' quiet in
          rw (low, ← append_assoc seen (some (slot_of set e) ∷ []) (withheld set es))
            (k'', out' ∙ ap (λ xs. xs ++ shown set es) out)
    ]

    abbrev pub Holds : Event V D Z → SlotStore D Z sync → Type 0
    Holds e st = IsHolding (capacity_of set e) (limit_of set e) (pool_of set e) st []

    pub IsUnbound-IsHolding :
        (e : Event V D Z) (st : SlotStore D Z sync)
        → IsUnbound st.carrier
        → IsReady sync st.pools e
        → Holds e st
    IsUnbound-IsHolding e st u k = record {
      live = u.live;
      early = u.early;
      held = rw u.empty refl;
      pool = k.pool;
      pool_at = k.pool_at;
      pool_of = k.pool_as_made;
      pool_fits = k.pool_fits;
    }

    -- The first event that is withheld makes the scope, out of the pool of its own handler or core.
    pub act_first-IsBound :
        (e : Event V D Z) (st : SlotStore D Z sync)
        → Holds e st
        → IsQuiet e
        → shows set e ≡ false
        → Bound e (act set e st) (some (slot_of set e) ∷ []) × ((act set e st).out ≡ st.out)
    act_first-IsBound e st k q low =
        let (there, k', out, (s, at)) = bind-IsHolding _ _ (pool_of set e) st [] k in
        let b : Bound e (bind (pool_of set e) st).0 [] = record {
          live = k'.live;
          early = k'.early;
          scope = s;
          there = at;
          held = subst (λ o. Held (capacity_of set e) (limit_of set e) o []) at k'.held;
        } in
        let (buffered, kept, out') = append-IsBound _ _ _ [] (slot_of set e) b in
        rw
          (act-withheld set e st _ q low (ap (λ t. ((bind (pool_of set e) st).0, t)) there)
            buffered)
          (kept, out' ∙ out)

    pub act_shown-unbound :
        (e : Event V D Z) (st : SlotStore D Z sync)
        → IsUnbound st.carrier
        → IsQuiet e
        → shows set e ≡ true
        → act set e st ≡ record st { out = st.out ++ puts set e }
    act_shown-unbound e st u q up = act-shown set e st q up (tripped-IsUnbound st u)

    pub first_trip :
        (st : SlotStore D Z sync) (es : List (Event V D Z))
        → IsUnbound st.carrier
        → All (IsReady sync st.pools) es
        → All IsQuiet es
        → let (st', trigger) = mark_and_flush (slots set.zap_down) (act_all set es st) in
          (trigger ≡ true)
          × (st'.out
              ≡ st.out
                ++ (shown set es ++ replay set.zap_down (ring_capacity set es) (withheld set es)))
    unfolding act_all shown withheld ring_capacity
    first_trip st [] u ready quiet =
        let (first, out) = mark_and_flush-IsUnbound (slots set.zap_down) st u in
        (
          first,
          out
              ∙ replayed-nil (record { emit = marked set.zap_down; notify = counted set.zap_down })
                  0 st.out,
        )
    first_trip st (e ∷ es) u (r, ready) (q, quiet) = elim (Bool-cases (shows set e)) [
      | inl up ↦
          let same = act_shown-unbound e st u q up in
          let (first, out) = first_trip (act set e st) es (rw same u) (rw same ready) quiet in
          rw up (
            first,
            out
                ∙ ap (λ st'. st'.out ++ rest) same
                ∙ append_assoc st.out (puts set e) rest
                ∙ ap (λ xs. st.out ++ xs) (sym (append_assoc (puts set e) _ _)),
          )
      | inr low ↦
          let (b, out) = act_first-IsBound e st (IsUnbound-IsHolding e st u r) q low in
          let (b', out') = act_all-IsBound e (act set e st) _ es b quiet in
          let (first, out'') = mark_and_flush-replay_bound set.zap_down _ _ _ _ b' in
          rw low (
            first,
            out''
                ∙ ap (λ xs. xs ++ again) (out' ∙ ap (λ xs. xs ++ shown set es) out)
                ∙ append_assoc st.out (shown set es) again,
          )
    ]
      where
        again : List (Output D Z)
        again = replay set.zap_down (capacity_of set e) (some (slot_of set e) ∷ withheld set es)

        rest : List (Output D Z)
        rest = shown set es ++ replay set.zap_down (ring_capacity set es) (withheld set es)

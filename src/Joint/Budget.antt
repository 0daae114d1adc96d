-- ===== src/Joint/Budget.antt =====
-- handler.go and zapadapter/core.go on one carrier after a failure: what the limit of the scope
-- still lets through.
use dllog.Base.{
  ◌≡◌, ℕ, zero, suc, refl, sym, ap, ◌∙◌, Int64, Bool, true, false, List, [], ◌∷◌, ◌++◌, Option,
  some, none, inl, inr, ◌⊎◌, ◌||◌, if◌then◌else◌, Bool-cases, append-nil, append_assoc, All, take,
}
use dllog.Core.Types.{Box, norm_limit}
use dllog.Core.SyncPool.{SyncPool}
use dllog.Core.Log.{spend}
use dllog.Core.Scope.Refine.{left}
use dllog.Core.Carrier.{bind, tripped, mark_and_flush}
use dllog.Core.Carrier.Bound.{IsUnbound}
use dllog.Core.Carrier.Passing.{
  allows, IsOpened, bind-IsOpened, tripped-IsOpened, mark_and_flush-IsOpened, pass_through-IsOpened,
  append-IsOpened,
}
use dllog.Core.Carrier.Opening.{
  IsForetold, tripped-IsForetold, mark_and_flush-IsForetold, mark_and_flush-foretells,
  mark_and_flush-opens, bind-opens,
}
use dllog.Slots.{SlotStore, Slot, Output, slots}
use dllog.Slog.Handler.{Setting}
use dllog.Joint.{Event, pool_of, capacity_of, limit_of, fails, shows, puts, slot_of, act, act_all}
use dllog.Joint.Laws.{act-spend, act-fails}
use dllog.Joint.Replay.{
  first_trip, IsQuiet, IsReady, act_first-IsBound, act_shown-unbound, IsUnbound-IsHolding,
  act_all-IsBound,
}

module _ {V D Z Err : Type 0} (set : Setting V D Z Err) where
  -- The limit of the scope is that of the first event that is withheld, before the failure, or
  -- else of the first after it.
  unfoldable pub limit_after : List (Event V D Z) → List (Event V D Z) → Int64
  limit_after [] [] = 0
  limit_after [] (e ∷ later) = limit_of set e
  limit_after (e ∷ es) later = if shows set e then limit_after es later else limit_of set e

  abbrev pub budget : List (Event V D Z) → List (Event V D Z) → Option ℕ
  budget es later = left (norm_limit (limit_after es later)) 0

  -- The events that a budget lets through, in order: all of them, if it has no bound.
  unfoldable pub allowed : Option ℕ → List (Event V D Z) → List (Event V D Z)
  allowed none es = es
  allowed (some n) es = take n es

  unfoldable pub puts_all : List (Event V D Z) → List (Output D Z)
  puts_all [] = []
  puts_all (e ∷ es) = puts set e ++ puts_all es

  puts_allowed-cons :
      (b : Option ℕ) (e : Event V D Z) (es : List (Event V D Z))
      → puts_all (allowed b (e ∷ es))
        ≡ (if allows b then puts set e else []) ++ puts_all (allowed (spend b).0 es)
  unfolding puts_all allowed
  puts_allowed-cons none e es = refl
  puts_allowed-cons (some zero) e es = refl
  puts_allowed-cons (some (suc n)) e es = refl

  pub puts_all-step :
      (b : Option ℕ) (e : Event V D Z) (es : List (Event V D Z))
      (out out' out'' : List (Output D Z))
      → out' ≡ out ++ (if allows b then puts set e else [])
      → out'' ≡ out' ++ puts_all (allowed (spend b).0 es)
      → out'' ≡ out ++ puts_all (allowed b (e ∷ es))
  puts_all-step b e es out out' out'' one rest =
      rest
      ∙ ap (λ xs. xs ++ puts_all (allowed (spend b).0 es)) one
      ∙ append_assoc out _ _
      ∙ ap (λ xs. out ++ xs) (sym (puts_allowed-cons b e es))

  pub puts_all-none :
      (b : Option ℕ) (out : List (Output D Z)) → out ≡ out ++ puts_all (allowed b [])
  unfolding puts_all allowed
  puts_all-none none out = sym (append-nil out)
  puts_all-none (some zero) out = sym (append-nil out)
  puts_all-none (some (suc n)) out = sym (append-nil out)

  module _ {sync : SyncPool (Box (Option (Slot D Z)))} where
    let_through :
        (s : SlotStore D Z sync) (p : Bool) (b : Option ℕ) (out xs : List (Output D Z))
        → IsOpened s b
        → s.out ≡ out
        → let s' = if p then record s { out = s.out ++ xs } else s in
          IsOpened s' b × (s'.out ≡ out ++ (if p then xs else []))
    let_through s true b out xs k e = (
      record { live = k.live; scope = k.scope; there = k.there; passes = k.passes },
      ap (λ ys. ys ++ xs) e,
    )
    let_through s false b out xs k e = (k, e ∙ sym (append-nil out))

    -- What an event does to a scope that has tripped, once `Bind` has handed it out.
    act-spends :
        (e : Event V D Z) (st st' : SlotStore D Z sync) (b : Option ℕ)
        → mark_and_flush (slots set.zap_down) st ≡ (st, false)
        → tripped st ≡ true
        → bind (pool_of set e) st ≡ (st', true)
        → IsOpened st' b
        → IsOpened (act set e st) (spend b).0
          × ((act set e st).out ≡ st'.out ++ (if allows b then puts set e else []))
    act-spends e st st' b f t there k =
        let (q, k', out, _) = pass_through-IsOpened st' b k in
        let (a, k'', out', _) = append-IsOpened st' b (slot_of set e) k in
        rw (act-spend set e st st' (allows b) f t there q a)
          elim (Bool-cases (fails set e || shows set e)) [
            | inl loud ↦ rw loud (let_through _ (allows b) (spend b).0 st'.out (puts set e) k' out)
            | inr low ↦ rw low (let_through _ (allows b) (spend b).0 st'.out (puts set e) k'' out')
          ]

    pub act-IsOpened :
        (e : Event V D Z) (st : SlotStore D Z sync) (b : Option ℕ)
        → IsOpened st b
        → IsOpened (act set e st) (spend b).0
          × ((act set e st).out ≡ st.out ++ (if allows b then puts set e else []))
    act-IsOpened e st b k =
        act-spends e st st b (mark_and_flush-IsOpened (slots set.zap_down) st b k)
          (tripped-IsOpened st b k) (bind-IsOpened (pool_of set e) st b k) k

    -- The first event after a trip that came before any scope.
    pub act-IsForetold :
        (e : Event V D Z) (st : SlotStore D Z sync)
        → IsForetold st.carrier
        → IsReady set sync st.pools e
        → let b = left (norm_limit (limit_of set e)) 0 in
          IsOpened (act set e st) (spend b).0
          × ((act set e st).out ≡ st.out ++ (if allows b then puts set e else []))
    act-IsForetold e st f r =
        let (there, k, out) =
          bind-opens (capacity_of set e) (limit_of set e) (pool_of set e) r.pool st f r.pool_at
            r.pool_as_made r.pool_fits in
        let (k', out') =
          act-spends e st (bind (pool_of set e) st).0 _
            (mark_and_flush-IsForetold (slots set.zap_down) st f) (tripped-IsForetold st f)
            (ap (λ t. ((bind (pool_of set e) st).0, t)) there) k in
        (k', out' ∙ rw out refl)

    -- A carrier that has tripped, with `n` of its limit left; one without a scope has the limit of
    -- the first event to come.
    abbrev pub Tripped : SlotStore D Z sync → List (Event V D Z) → Option ℕ → Type 0
    Tripped st later b =
        IsOpened st b
        ⊎ (IsForetold st.carrier × All (IsReady set sync st.pools) later × (b ≡ budget [] later))

    Tripped-out :
        (st : SlotStore D Z sync) (later : List (Event V D Z)) (b : Option ℕ)
        (out : List (Output D Z))
        → Tripped st later b
        → Tripped (record st { out = out }) later b
    Tripped-out st later b out (inl k) =
        inl (record { live = k.live; scope = k.scope; there = k.there; passes = k.passes })
    Tripped-out st later b out (inr f) = inr f

    -- The carrier after a trip, and after a failure.
    pub mark_and_flush-Tripped :
        (st : SlotStore D Z sync) (es later : List (Event V D Z))
        → IsUnbound st.carrier
        → All (IsReady set sync st.pools) es
        → All (IsReady set sync st.pools) later
        → All (IsQuiet set) es
        → Tripped
            (mark_and_flush (slots set.zap_down) (act_all set es st)).0
            later
            (budget es later)
    unfolding act_all limit_after
    mark_and_flush-Tripped st [] later u ready ready' quiet =
        let (f, same) = mark_and_flush-foretells (slots set.zap_down) st u in
        inr (f, rw same ready', refl)
    mark_and_flush-Tripped st (e ∷ es) later u (r, ready) ready' (q, quiet) =
        elim (Bool-cases (shows set e)) [
          | inl up ↦
              let same = act_shown-unbound set e st u q up in
              rw up (
                mark_and_flush-Tripped (act set e st) es later (rw same u) (rw same ready)
                  (rw same ready') quiet)
          | inr low ↦
              let (b, _) = act_first-IsBound set e st (IsUnbound-IsHolding set e st u r) q low in
              let (b', _) = act_all-IsBound set e (act set e st) _ es b quiet in
              rw low (
                inl (
                  mark_and_flush-opens (capacity_of set e) (limit_of set e) (slots set.zap_down) _ _
                    b'))
        ]

    pub act-fails-Tripped :
        (failed : Event V D Z) (st : SlotStore D Z sync) (es later : List (Event V D Z))
        → IsUnbound st.carrier
        → All (IsReady set sync st.pools) es
        → All (IsReady set sync st.pools) later
        → All (IsQuiet set) es
        → fails set failed ≡ true
        → Tripped (act set failed (act_all set es st)) later (budget es later)
    act-fails-Tripped failed st es later u ready ready' quiet loud =
        let (first, _) = first_trip set st es u ready quiet in
        rw (act-fails set failed (act_all set es st) loud first) (
          Tripped-out _ later (budget es later) _
            (mark_and_flush-Tripped st es later u ready ready' quiet))

-- ===== src/Core/Carrier/Passing.antt =====
-- internal/core/carrier.go: a tripped carrier, and the budget of what it still lets through.
use dllog.Base.{
  [], ℕ, zero, suc, ◌≡◌, refl, sym, ap, ◌∙◌, subst, Bool, true, false, List, Option, some, none,
  if◌then◌else◌, arith,
}
use dllog.Core.Types.{Action, Scope, Box, PoolRef}
use dllog.Core.SyncPool.{SyncPool}
use dllog.Core.Log.{passing, buffering, spend, pass_through-passing, append-passing, trip-buffering}
use dllog.Core.Scope as Engine
use dllog.Core.Scope.Inv.{IsValid, append-IsValid, pass_through-IsValid, trip-IsValid}
use dllog.Core.Scope.Refine.{view, append_refines, pass_through_refines, trip_refines}
use dllog.Core.Carrier.Cases.{bind_cases, mark_tripped_cases}
use dllog.Core.Carrier.{
  Entry, Store, bind, append, append_on, pass_through, pass_through_on, tripped, scope_tripped,
  flush, flush_on, mark_and_flush,
}

-- Whether a budget has room for one more.
abbrev pub allows : Option ℕ → Bool
allows none = true
allows (some zero) = false
allows (some (suc n)) = true

abbrev pub verdict : Bool → Action
verdict true = Action.pass_through
verdict false = Action.suppressed

if_same : (b : Bool) → (if b then true else true) ≡ true
if_same true = refl
if_same false = refl

spend-verdict : (b : Option ℕ) → (spend b).1 ≡ verdict (allows b)
spend-verdict none = refl
spend-verdict (some zero) = refl
spend-verdict (some (suc n)) = refl

-- A valid scope that has tripped, with `b` left of its budget.
pub record IsPassing {E : Type 0} (s : Scope (Option E)) (b : Option ℕ) : Type 0 where
  pub valid : IsValid s
  pub phase : (view none s).phase ≡ passing b

module _ {E : Type 0} (s : Scope (Option E)) (b : Option ℕ) (k : IsPassing s b) where
  flags : (s.closed ≡ false) × (s.trip_state ≡ true) × (s.tripped ≡ true)
  flags = let v = k.valid in let p = k.phase in ground arith

  pass_through_scope :
      let (s', a) = Engine.pass_through s in (a ≡ verdict (allows b)) × IsPassing s' (spend b).0
  pass_through_scope =
      let e = pass_through_refines none s k.valid ∙ pass_through-passing (view none s) b k.phase in
      (
        ap (λ r. r.1) e ∙ spend-verdict b,
        record { valid = pass_through-IsValid s k.valid; phase = ap (λ r. r.0.phase) e },
      )

  append_scope :
      (x : Option E)
      → let (s', a) = Engine.append s x in (a ≡ verdict (allows b)) × IsPassing s' (spend b).0
  append_scope x =
      let e = append_refines none s x k.valid ∙ append-passing (view none s) b x k.phase in
      (
        ap (λ r. r.1) e ∙ spend-verdict b,
        record { valid = append-IsValid s x k.valid; phase = ap (λ r. r.0.phase) e },
      )

  trip_scope : Engine.trip none s ≡ (s, [], 0, false)
  unfolding Engine.trip
  trip_scope = let (c, t, _) = flags in rw (c, t) refl

-- A first trip of a scope that withholds leaves it with its whole budget.
pub trip-IsPassing :
    {E : Type 0} (s : Scope (Option E)) (xs : List (Option E))
    → IsValid s
    → (view none s).phase ≡ buffering xs
    → IsPassing (Engine.trip none s).0 (view none s).budget
trip-IsPassing s xs v e = record {
  valid = trip-IsValid none s v;
  phase =
      ap (λ r. r.0.phase) (trip_refines none s v)
      ∙ ap (λ l. l.phase) (trip-buffering (view none s) xs e);
}

module _ {E O : Type 0} {sync : SyncPool (Box (Option E))} where
  -- A live carrier with such a scope.
  pub record IsOpened (st : Store E O sync) (b : Option ℕ) : Type 0 where
    pub live : st.carrier.closed ≡ false
    pub scope : Scope (Option E)
    pub there : st.carrier.scope ≡ some scope
    pub passes : IsPassing scope b

  pub bind-IsOpened :
      (ref : PoolRef) (st : Store E O sync) (b : Option ℕ)
      → IsOpened st b
      → bind ref st ≡ (st, true)
  bind-IsOpened ref st b k =
      bind_cases (λ r. r ≡ (st, true)) ref st (λ c. cc) (λ _ _ _. refl) λ _ e. cc

  pub tripped-IsOpened : (st : Store E O sync) (b : Option ℕ) → IsOpened st b → tripped st ≡ true
  unfolding tripped scope_tripped Engine.tripped
  tripped-IsOpened st b k =
      let (_, _, t) = flags k.scope b k.passes in
      simp (k.live, k.there, t) (if_same st.carrier.pre_tripped)

  flush_on-IsOpened :
      (ops : Entry E O) (st : Store E O sync) (b : Option ℕ)
      → (k : IsOpened st b) → flush_on ops st (some k.scope) ≡ (st, false)
  unfolding flush_on
  flush_on-IsOpened ops st b k = simp (trip_scope k.scope b k.passes, ← k.there) refl

  pub mark_and_flush-IsOpened :
      (ops : Entry E O) (st : Store E O sync) (b : Option ℕ)
      → IsOpened st b
      → mark_and_flush ops st ≡ (st, false)
  unfolding mark_and_flush flush
  mark_and_flush-IsOpened ops st b k =
      mark_tripped_cases (λ r. (if r.1 then flush ops r.0 else (r.0, r.2)) ≡ (st, false)) st
        (λ c. cc)
        (λ _ _ _.
          subst (λ o. flush_on ops st o ≡ (st, false)) (sym k.there) (flush_on-IsOpened ops st b k))
        (λ _ e _. cc) λ _ e _. cc

  pub pass_through-IsOpened :
      (st : Store E O sync) (b : Option ℕ)
      → IsOpened st b
      → let (st', a) = pass_through st in
        (a ≡ verdict (allows b))
        × IsOpened st' (spend b).0
        × (st'.out ≡ st.out)
        × (st'.pools ≡ st.pools)
  unfolding pass_through pass_through_on
  pass_through-IsOpened st b k =
      let (a, k') = pass_through_scope k.scope b k.passes in
      simp k.there (a, record { live = k.live; scope = _; there = refl; passes = k' }, refl, refl)

  pub append-IsOpened :
      (st : Store E O sync) (b : Option ℕ) (x : E)
      → IsOpened st b
      → let (st', a) = append st x in
        (a ≡ verdict (allows b))
        × IsOpened st' (spend b).0
        × (st'.out ≡ st.out)
        × (st'.pools ≡ st.pools)
  unfolding append append_on
  append-IsOpened st b x k =
      let (a, k') = append_scope k.scope b k.passes (some x) in
      simp k.there (a, record { live = k.live; scope = _; there = refl; passes = k' }, refl, refl)

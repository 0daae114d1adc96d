-- ===== src/Core/Carrier/Spent.antt =====
-- Carriers that no call can trip any more, and what each call does to them.
use dllog.Base.{
  get_elem?, not, ◌≡◌, refl, sym, subst, Bool, true, false, ◌||◌, Option, some, none, if◌then◌else◌,
  inl, inr, Bool-cases,
}
use dllog.Core.Types.{Scope, Box, PoolRef}
use dllog.Core.SyncPool.{SyncPool}
use dllog.Core.Scope as Engine
use dllog.Core.Carrier.Cases.{bind_cases, mark_tripped_cases}
use dllog.Core.Carrier.Inv.{
  pass_through-flags, append-flags, close-out, IsSound, ScopeFits, or-true,
}
use dllog.Core.Carrier.{
  Pool, make_scope, append_on, pass_through_on, close_scope, pre_trip, Entry, Carrier, Store, bind,
  mark_and_flush, close, append, pass_through, flush, flush_on,
}

abbrev pub scope_spent : {E : Type 0} → Option (Scope (Option E)) → Bool
scope_spent none = false
scope_spent (some s) = s.trip_state

-- No trip can come any more.
abbrev pub spent : {E : Type 0} → Carrier E → Bool
spent c = c.closed || (c.pre_tripped || scope_spent c.scope)

module _ {E O : Type 0} {sync : SyncPool (Box (Option E))} (ops : Entry E O) where
  -- What a trip does to a carrier that is, or is not, spent.
  abbrev pub Trips : Store E O sync → Store E O sync × Bool → Type 0
  Trips st (st', trigger) =
      (trigger ≡ not (spent st.carrier))
      × (spent st'.carrier ≡ true)
      × (trigger ≡ false → st'.out ≡ st.out)

  spent-scope :
      (st : Store E O sync) (s : Scope (Option E))
      → ScopeFits st.carrier (some s)
      → st.carrier.closed ≡ false
      → st.carrier.scope ≡ some s
      → (st.carrier.pre_tripped || scope_spent st.carrier.scope) ≡ s.trip_state
  spent-scope st s v live e = elim (Bool-cases st.carrier.pre_tripped) [
    | inl p ↦ simp (p, e) (sym (v.2 p))
    | inr p ↦ simp (p, e) refl
  ]

  flush_on-Trips :
      (st : Store E O sync) (s : Scope (Option E))
      → ScopeFits st.carrier (some s)
      → st.carrier.closed ≡ false
      → st.carrier.scope ≡ some s
      → Trips st (flush_on ops st (some s))
  unfolding flush_on Engine.trip Engine.clear_ring
  flush_on-Trips st s v live e = elim (Bool-cases s.trip_state) [
    | inl t ↦ simp (spent-scope st s v live e, v.1, live, t) (refl, or-true _, λ _. refl)
    | inr t ↦ simp (spent-scope st s v live e, v.1, live, t) (refl, or-true _, λ h. cc)
  ]

  pre_trip-Trips :
      (st : Store E O sync)
      → st.carrier.closed ≡ false
      → st.carrier.scope ≡ none
      → st.carrier.pre_tripped ≡ false
      → Trips st (pre_trip st, true)
  unfolding pre_trip
  pre_trip-Trips st live e p = simp (live, e, p) (refl, refl, λ h. refl)

  flush-Trips :
      (st : Store E O sync) (s : Scope (Option E))
      → IsSound st
      → st.carrier.closed ≡ false
      → st.carrier.scope ≡ some s
      → Trips st (flush ops st)
  unfolding flush
  flush-Trips st s v live e =
      subst (λ o. Trips st (flush_on ops st o)) (sym e)
        (flush_on-Trips st s (subst (ScopeFits st.carrier) e v.fits) live e)

  pub mark_and_flush-Trips : (st : Store E O sync) → IsSound st → Trips st (mark_and_flush ops st)
  unfolding mark_and_flush
  mark_and_flush-Trips st v =
      mark_tripped_cases (λ r. Trips st (if r.1 then flush ops r.0 else (r.0, r.2))) st
        (λ c. simp c (refl, refl, λ _. refl)) (λ s live e. flush-Trips st s v live e)
        (λ live e p. simp (live, p) (refl, refl, λ _. refl)) λ live e p. pre_trip-Trips st live e p

-- What the other calls keep: a spent carrier stays spent, and nothing is put out.
module _ {E O : Type 0} {sync : SyncPool (Box (Option E))} where
  abbrev pub Keeps : Store E O sync → Store E O sync → Type 0
  Keeps st st' = (spent st.carrier ≡ true → spent st'.carrier ≡ true) × (st'.out ≡ st.out)

  make_scope-Keeps :
      (ref : PoolRef) (st : Store E O sync) (p : Option (Pool none sync))
      → st.carrier.closed ≡ false
      → st.carrier.scope ≡ none
      → Keeps st (make_scope ref st p).0
  unfolding make_scope
  make_scope-Keeps ref st none live e = (λ h. h, refl)
  make_scope-Keeps ref st (some p) live e = elim (Bool-cases st.carrier.pre_tripped) [
    | inl t ↦ simp (live, e, t) (λ h. refl, refl)
    | inr t ↦ simp (live, e, t) (λ h. cc, refl)
  ]

  pub bind-Keeps : (ref : PoolRef) (st : Store E O sync) → Keeps st (bind ref st).0
  bind-Keeps ref st =
      bind_cases (λ r. Keeps st r.0) ref st (λ _. (λ h. h, refl)) (λ _ _ _. (λ h. h, refl))
        λ live e. make_scope-Keeps ref st (get_elem? st.pools ref) live e

  append_on-Keeps :
      (st : Store E O sync) (x : E) (o : Option (Scope (Option E)))
      → st.carrier.scope ≡ o
      → Keeps st (append_on st x o).0
  unfolding append_on
  append_on-Keeps st x none e = (λ h. h, refl)
  append_on-Keeps st x (some s) e = simp (e, (append-flags s (some x)).1) (λ h. h, refl)

  pub append-Keeps : (st : Store E O sync) (x : E) → Keeps st (append st x).0
  unfolding append
  append-Keeps st x = append_on-Keeps st x st.carrier.scope refl

  pass_through_on-Keeps :
      (st : Store E O sync) (o : Option (Scope (Option E)))
      → st.carrier.scope ≡ o
      → Keeps st (pass_through_on st o).0
  unfolding pass_through_on
  pass_through_on-Keeps st none e = (λ h. h, refl)
  pass_through_on-Keeps st (some s) e = simp (e, (pass_through-flags s).1) (λ h. h, refl)

  pub pass_through-Keeps : (st : Store E O sync) → Keeps st (pass_through st).0
  unfolding pass_through
  pass_through-Keeps st = pass_through_on-Keeps st st.carrier.scope refl

  close_scope-closed :
      (st : Store E O sync) (o : Option (Scope (Option E)))
      → (close_scope st o).carrier.closed ≡ st.carrier.closed
  unfolding close_scope
  close_scope-closed st none = refl
  close_scope-closed st (some s) = refl

  pub close-Keeps : (st : Store E O sync) → Keeps st (close st)
  unfolding close
  close-Keeps st = (λ h. simp (close_scope-closed _ st.carrier.scope) refl, close-out st)

-- ===== src/Core/Carrier/Inv.antt =====
-- internal/core/carrier.go: the invariant of a carrier and its pools.
use dllog.Base.{
  ◌||◌, not, sym, ◌≡◌, refl, ◌∙◌, ap, Bool, true, false, List, inl, inr, Option, some, none,
  if◌then◌else◌, get_elem?, arith, All, All-set, All-get_elem?, Bool-cases,
}
use dllog.Core.Types.{Scope, Box, PoolRef}
use dllog.Core.SyncPool.{SyncPool}
use dllog.Core.Pool.{Pool}
use dllog.Core.Scope as Engine
use dllog.Core.Scope.Inv.{
  IsValid, append-IsValid, pass_through-IsValid, trip-IsValid, close-IsValid,
}
use dllog.Core.Scope.Pooled.{PoolFits, get-PoolFits, close-PoolFits}
use dllog.Core.Carrier.Cases.{bind_cases, mark_tripped_cases}
use dllog.Core.Carrier.{
  pre_trip, Entry, Carrier, Store, make_scope, bind, mark_tripped, close, close_scope, append,
  append_on, pass_through, pass_through_on, flush_on,
}

-- What is known of the carrier's scope: it is closed with the carrier, and is born tripped if the
-- trip came first.
abbrev pub ScopeFits : {E : Type 0} → Carrier E → Option (Scope (Option E)) → Type 0
ScopeFits c none = Unit
ScopeFits c (some s) =
    IsValid s × (s.closed ≡ c.closed) × (c.pre_tripped ≡ true → s.trip_state ≡ true)

pub or-true : (b : Bool) → (b || true) ≡ true
or-true true = refl
or-true false = refl

-- What the methods of a scope do to its two flags.
module _ {T : Type 0} where
  pub append-flags :
      (s : Scope T) (x : T)
      → let s' = (Engine.append s x).0 in (s'.closed ≡ s.closed) × (s'.trip_state ≡ s.trip_state)
  unfolding Engine.append
  append-flags s x = ground arith

  pub pass_through-flags :
      (s : Scope T)
      → let s' = (Engine.pass_through s).0 in
        (s'.closed ≡ s.closed) × (s'.trip_state ≡ s.trip_state)
  unfolding Engine.pass_through
  pass_through-flags s = ground arith

  pub trip-flags :
      (zero_value : T) (s : Scope T)
      → let s' = (Engine.trip zero_value s).0 in
        (s'.closed ≡ s.closed) × (s'.trip_state ≡ (s.trip_state || not s.closed))
  unfolding Engine.trip Engine.clear_ring
  trip-flags zero_value s = ground arith

module _ {E : Type 0} where
  born-ScopeFits :
      (c : Carrier E) (s : Scope (Option E))
      → c.closed ≡ false
      → IsValid s
      → s.closed ≡ false
      → ScopeFits
          (record c { scope = some (if c.pre_tripped then (Engine.trip none s).0 else s) })
          (some (if c.pre_tripped then (Engine.trip none s).0 else s))
  born-ScopeFits c s live v opened = elim (Bool-cases c.pre_tripped) [
    | inl e ↦
        let (closed, tripped) = trip-flags none s in
        simp e (
          trip-IsValid none s v,
          closed ∙ opened ∙ sym live,
          λ _. tripped ∙ ap (λ b. s.trip_state || not b) opened ∙ or-true s.trip_state,
        )
    | inr e ↦ simp e (v, opened ∙ sym live, λ p. cc)
  ]

module _ {E : Type 0} (sync : SyncPool (Box (Option E))) where
  close-flags :
      (s : Scope (Option E)) (pools : List (Pool none sync))
      → let s' = (Engine.close none sync s pools).0 in
        (s'.closed ≡ true) × (s'.trip_state ≡ s.trip_state)
  unfolding Engine.close Engine.clear_ring
  close-flags s pools = ground arith

module _ {E O : Type 0} {sync : SyncPool (Box (Option E))} where
  pub record IsSound (st : Store E O sync) : Type 0 where
    pub fits : ScopeFits st.carrier st.carrier.scope
    pub pools_fit : All (PoolFits none sync) st.pools

  make_scope-IsSound :
      (ref : PoolRef) (st : Store E O sync) (p : Option (Pool none sync))
      → st.carrier.closed ≡ false
      → get_elem? st.pools ref ≡ p
      → IsSound st
      → IsSound (make_scope ref st p).0
  unfolding make_scope
  make_scope-IsSound ref st none live at v = v
  make_scope-IsSound ref st (some p) live at v =
      let fit = All-get_elem? (PoolFits none sync) st.pools ref p at v.pools_fit in
      let (valid, opened, fit') = get-PoolFits none sync ref st.next_box p fit in
      record {
        fits = born-ScopeFits st.carrier _ live valid opened;
        pools_fit = All-set (PoolFits none sync) st.pools ref _ fit' v.pools_fit;
      }

  -- `Bind` keeps the carrier sound.
  pub bind-IsSound : (ref : PoolRef) (st : Store E O sync) → IsSound st → IsSound (bind ref st).0
  bind-IsSound ref st v =
      bind_cases (λ r. IsSound r.0) ref st (λ _. v) (λ _ _ _. v)
        λ live _. make_scope-IsSound ref st (get_elem? st.pools ref) live refl v

  -- `MarkTripped` keeps the carrier sound.
  pub mark_tripped-IsSound : (st : Store E O sync) → IsSound st → IsSound (mark_tripped st).0
  unfolding pre_trip
  mark_tripped-IsSound st v =
      mark_tripped_cases (λ r. IsSound r.0) st (λ _. v) (λ _ _ _. v) (λ _ _ _. v)
        λ _ e _. record { fits = rw e tt; pools_fit = v.pools_fit }

  close_scope-IsSound :
      (st : Store E O sync) (scope : Option (Scope (Option E)))
      → ScopeFits st.carrier scope
      → All (PoolFits none sync) st.pools
      → st.carrier.scope ≡ scope
      → IsSound (close_scope (record st { carrier = record (st.carrier) { closed = true } }) scope)
  unfolding close_scope
  close_scope-IsSound st none v g e = record { fits = rw e tt; pools_fit = g }
  close_scope-IsSound st (some s) v g e = record {
    fits = (
      close-IsValid none sync s st.pools v.0,
      (close-flags sync s st.pools).0,
      λ pre. (close-flags sync s st.pools).1 ∙ v.2 pre,
    );
    pools_fit = close-PoolFits none sync s st.pools g;
  }

  pub close-IsSound : (st : Store E O sync) → IsSound st → IsSound (close st)
  unfolding close
  close-IsSound st v = close_scope-IsSound st st.carrier.scope v.fits v.pools_fit refl

  append_on-IsSound :
      (st : Store E O sync) (e : E) (scope : Option (Scope (Option E)))
      → ScopeFits st.carrier scope
      → IsSound st
      → IsSound (append_on st e scope).0
  unfolding append_on
  append_on-IsSound st e none f v = v
  append_on-IsSound st e (some s) f v =
      let (closed, tripped) = append-flags s (some e) in
      record {
        fits = (append-IsValid s (some e) f.0, closed ∙ f.1, λ pre. tripped ∙ f.2 pre);
        pools_fit = v.pools_fit;
      }

  pub append-IsSound : (st : Store E O sync) (e : E) → IsSound st → IsSound (append st e).0
  unfolding append
  append-IsSound st e v = append_on-IsSound st e st.carrier.scope v.fits v

  pass_through_on-IsSound :
      (st : Store E O sync) (scope : Option (Scope (Option E)))
      → ScopeFits st.carrier scope
      → IsSound st
      → IsSound (pass_through_on st scope).0
  unfolding pass_through_on
  pass_through_on-IsSound st none f v = v
  pass_through_on-IsSound st (some s) f v =
      let (closed, tripped) = pass_through-flags s in
      record {
        fits = (pass_through-IsValid s f.0, closed ∙ f.1, λ pre. tripped ∙ f.2 pre);
        pools_fit = v.pools_fit;
      }

  pub pass_through-IsSound : (st : Store E O sync) → IsSound st → IsSound (pass_through st).0
  unfolding pass_through
  pass_through-IsSound st v = pass_through_on-IsSound st st.carrier.scope v.fits v

  pub flush_on-IsSound :
      (ops : Entry E O) (st : Store E O sync) (scope : Option (Scope (Option E)))
      → ScopeFits st.carrier scope
      → IsSound st
      → IsSound (flush_on ops st scope).0
  unfolding flush_on
  flush_on-IsSound ops st none f v = v
  flush_on-IsSound ops st (some s) f v = elim (Bool-cases (Engine.trip none s).3) [
    | inl e ↦ simp e (record { fits = fits; pools_fit = v.pools_fit })
    | inr e ↦ simp e (record { fits = fits; pools_fit = v.pools_fit })
  ]
    where
      fits :
          ScopeFits
            (record (st.carrier) { scope = some (Engine.trip none s).0 })
            (some (Engine.trip none s).0)
      fits =
          let (closed, tripped) = trip-flags none s in
          (trip-IsValid none s f.0, closed ∙ f.1, λ pre. tripped ∙ rw (f.2 pre) refl)

module _ {E O : Type 0} {sync : SyncPool (Box (Option E))} where
  close_scope-out :
      (st : Store E O sync) (o : Option (Scope (Option E))) → (close_scope st o).out ≡ st.out
  unfolding close_scope
  close_scope-out st none = refl
  close_scope-out st (some s) = refl

  close_scope-closed :
      (st : Store E O sync) (o : Option (Scope (Option E)))
      → (close_scope st o).carrier.closed ≡ st.carrier.closed
  unfolding close_scope
  close_scope-closed st none = refl
  close_scope-closed st (some s) = refl

  pub close-closed : (st : Store E O sync) → (close st).carrier.closed ≡ true
  unfolding close
  close-closed st = close_scope-closed _ st.carrier.scope

  -- Closing a carrier puts nothing out.
  pub close-out : (st : Store E O sync) → (close st).out ≡ st.out
  unfolding close
  close-out st = close_scope-out _ st.carrier.scope

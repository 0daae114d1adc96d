-- ===== src/Core/Carrier/Bound.antt =====
-- internal/core/carrier.go: a live carrier with its scope in place, whichever pool made it.
use dllog.Base.{
  ◌≡◌, refl, sym, subst, Int64, true, false, List, [], ◌∷◌, ◌++◌, Option, some, none, if◌then◌else◌,
}
use dllog.Core.Types.{Action, Scope, Box, PoolRef}
use dllog.Core.SyncPool.{SyncPool}
use dllog.Core.Carrier.Hold.{Held, append-Held}
use dllog.Core.Carrier.FirstTrip.{replayed, scope_tripped-Held, flush-Held}
use dllog.Core.Carrier.Cases.{bind_cases, mark_tripped_cases}
use dllog.Core.Carrier.{
  scope_tripped, Carrier, Entry, Store, bind, append, append_on, tripped, flush, mark_and_flush,
  pre_trip,
}

-- A live carrier that has not tripped and has no scope.
pub record IsUnbound {E : Type 0} (c : Carrier E) : Type 0 where
  pub live : c.closed ≡ false
  pub early : c.pre_tripped ≡ false
  pub empty : c.scope ≡ none

module _ {E O : Type 0} {sync : SyncPool (Box (Option E))} where
  pub tripped-IsUnbound : (st : Store E O sync) → IsUnbound st.carrier → tripped st ≡ false
  unfolding tripped scope_tripped
  tripped-IsUnbound st u = rw (u.live, u.early, u.empty) refl

  pub mark_and_flush-IsUnbound :
      (ops : Entry E O) (st : Store E O sync)
      → IsUnbound st.carrier
      → let (st', trigger) = mark_and_flush ops st in (trigger ≡ true) × (st'.out ≡ st.out)
  unfolding mark_and_flush pre_trip
  mark_and_flush-IsUnbound ops st u =
      mark_tripped_cases
        (λ r.
          let (st', trigger) = if r.1 then flush ops r.0 else (r.0, r.2) in
          (trigger ≡ true) × (st'.out ≡ st.out))
        st (λ c. cc (c, u.live)) (λ _ _ e. cc (e, u.empty)) (λ _ _ t. cc (t, u.early))
        λ _ _ _. (refl, refl)

module _ {E O : Type 0} {sync : SyncPool (Box (Option E))} (capacity limit : Int64) where
  pub record IsBound (st : Store E O sync) (seen : List (Option E)) : Type 0 where
    pub live : st.carrier.closed ≡ false
    pub early : st.carrier.pre_tripped ≡ false
    pub scope : Scope (Option E)
    pub there : st.carrier.scope ≡ some scope
    pub held : Held capacity limit (some scope) seen

  pub tripped-IsBound :
      (st : Store E O sync) (seen : List (Option E)) → IsBound st seen → tripped st ≡ false
  unfolding tripped
  tripped-IsBound st seen k =
      simp (k.live, k.early, k.there) (scope_tripped-Held capacity limit (some k.scope) seen k.held)

  pub bind-IsBound :
      (ref : PoolRef) (st : Store E O sync) (seen : List (Option E))
      → IsBound st seen
      → bind ref st ≡ (st, true)
  bind-IsBound ref st seen k =
      bind_cases (λ r. r ≡ (st, true)) ref st (λ c. cc (c, k.live)) (λ _ _ _. refl)
        λ _ e. cc (e, k.there)

  append_on-IsBound :
      (st : Store E O sync) (seen : List (Option E)) (x : E) (k : IsBound st seen)
      → let (st', a) = append_on st x (some k.scope) in
        (a ≡ Action.buffered) × IsBound st' (seen ++ (some x ∷ [])) × (st'.out ≡ st.out)
  unfolding append_on
  append_on-IsBound st seen x k =
      let (buffered, held) = append-Held capacity limit k.scope seen (some x) k.held in
      (
        buffered,
        record { live = k.live; early = k.early; scope = _; there = refl; held = held },
        refl,
      )

  pub append-IsBound :
      (st : Store E O sync) (seen : List (Option E)) (x : E)
      → IsBound st seen
      → let (st', a) = append st x in
        (a ≡ Action.buffered) × IsBound st' (seen ++ (some x ∷ [])) × (st'.out ≡ st.out)
  unfolding append
  append-IsBound st seen x k =
      subst
        (λ o.
          let (st', a) = append_on st x o in
          (a ≡ Action.buffered) × IsBound st' (seen ++ (some x ∷ [])) × (st'.out ≡ st.out))
        (sym k.there) (append_on-IsBound st seen x k)

  pub mark_and_flush-IsBound :
      (ops : Entry E O) (st : Store E O sync) (seen : List (Option E))
      → IsBound st seen
      → let (st', trigger) = mark_and_flush ops st in
        (trigger ≡ true) × (st'.out ≡ st.out ++ replayed ops capacity seen)
  unfolding mark_and_flush pre_trip
  mark_and_flush-IsBound ops st seen k =
      mark_tripped_cases
        (λ r.
          let (st', trigger) = if r.1 then flush ops r.0 else (r.0, r.2) in
          (trigger ≡ true) × (st'.out ≡ st.out ++ replayed ops capacity seen))
        st (λ c. cc (c, k.live))
        (λ _ _ _. flush-Held capacity limit 0 ops st seen k.scope k.held k.there)
        (λ _ e _. cc (e, k.there)) λ _ e _. cc (e, k.there)

-- ===== src/Core/Carrier/Opening.antt =====
-- internal/core/carrier.go: how a carrier comes to be tripped, with a scope or before it has one.
use dllog.Base.{
  ◌≡◌, refl, sym, ap, subst, Int64, true, false, List, [], Option, some, none, if◌then◌else◌,
  get_elem?,
}
use dllog.Core.Types.{Scope, Box, PoolRef, norm_limit}
use dllog.Core.SyncPool.{SyncPool}
use dllog.Core.Pool.{Pool, get}
use dllog.Core.Scope as Engine
use dllog.Core.Scope.Refine.{left}
use dllog.Core.Scope.Pooled.{IsPoolOf, PoolFits}
use dllog.Core.Carrier.Hold.{trip-Held, Held, made-Held}
use dllog.Core.Carrier.Bound.{IsBound, IsUnbound}
use dllog.Core.Carrier.Passing.{IsPassing, trip-IsPassing, IsOpened}
use dllog.Core.Carrier.Cases.{bind_cases, mark_tripped_cases}
use dllog.Core.Carrier.{
  Carrier, Entry, Store, make_scope, bind, tripped, flush, flush_on, mark_and_flush, pre_trip,
}

-- A live carrier that tripped before any scope was made.
pub record IsForetold {E : Type 0} (c : Carrier E) : Type 0 where
  pub live : c.closed ≡ false
  pub early : c.pre_tripped ≡ true
  pub empty : c.scope ≡ none

-- A trip of a scope that holds leaves it with the whole of its limit.
trip-Held-IsPassing :
    {E : Type 0} (capacity limit : Int64) (s : Scope (Option E)) (seen : List (Option E))
    → Held capacity limit (some s) seen
    → IsPassing (Engine.trip none s).0 (left (norm_limit limit) 0)
trip-Held-IsPassing capacity limit s seen (v, opened, quiet, viewed) =
    subst (IsPassing _) (ap (λ l. l.budget) viewed)
      (trip-IsPassing s _ v (ap (λ l. l.phase) viewed))

module _ {E O : Type 0} {sync : SyncPool (Box (Option E))} where
  pub tripped-IsForetold : (st : Store E O sync) → IsForetold st.carrier → tripped st ≡ true
  unfolding tripped
  tripped-IsForetold st f = rw (f.live, f.early) refl

  pub mark_and_flush-IsForetold :
      (ops : Entry E O) (st : Store E O sync)
      → IsForetold st.carrier
      → mark_and_flush ops st ≡ (st, false)
  unfolding mark_and_flush
  mark_and_flush-IsForetold ops st f =
      mark_tripped_cases (λ r. (if r.1 then flush ops r.0 else (r.0, r.2)) ≡ (st, false)) st
        (λ c. cc) (λ _ _ e. cc (e, f.empty)) (λ _ _ _. refl) λ _ _ t. cc (t, f.early)

  -- A first trip, before any scope.
  pub mark_and_flush-foretells :
      (ops : Entry E O) (st : Store E O sync)
      → IsUnbound st.carrier
      → let (st', trigger) = mark_and_flush ops st in
        IsForetold st'.carrier × (st'.pools ≡ st.pools)
  unfolding mark_and_flush pre_trip
  mark_and_flush-foretells ops st u =
      mark_tripped_cases
        (λ r.
          let (st', trigger) = if r.1 then flush ops r.0 else (r.0, r.2) in
          IsForetold st'.carrier × (st'.pools ≡ st.pools))
        st (λ c. cc (c, u.live)) (λ _ _ e. cc (e, u.empty)) (λ _ _ t. cc (t, u.early))
        λ _ _ _. (record { live = u.live; early = refl; empty = u.empty }, refl)

module _ {E O : Type 0} {sync : SyncPool (Box (Option E))} (capacity limit : Int64) where
  flush_on-opens :
      (ops : Entry E O) (st : Store E O sync) (seen : List (Option E))
      → (k : IsBound capacity limit st seen)
      → IsOpened (flush_on ops st (some k.scope)).0 (left (norm_limit limit) 0)
  unfolding flush_on
  flush_on-opens ops st seen k =
      let (entries, dropped, trip) = trip-Held capacity limit k.scope seen k.held in
      rw trip (record {
        live = k.live;
        scope = _;
        there = refl;
        passes = trip-Held-IsPassing capacity limit k.scope seen k.held;
      })

  -- A first trip of a carrier with a scope.
  pub mark_and_flush-opens :
      (ops : Entry E O) (st : Store E O sync) (seen : List (Option E))
      → IsBound capacity limit st seen
      → IsOpened (mark_and_flush ops st).0 (left (norm_limit limit) 0)
  unfolding mark_and_flush flush
  mark_and_flush-opens ops st seen k =
      mark_tripped_cases
        (λ r. IsOpened (if r.1 then flush ops r.0 else (r.0, r.2)).0 (left (norm_limit limit) 0)) st
        (λ c. cc (c, k.live))
        (λ _ _ _.
          subst (λ o. IsOpened (flush_on ops st o).0 (left (norm_limit limit) 0)) (sym k.there)
            (flush_on-opens ops st seen k))
        (λ _ e _. cc (e, k.there)) λ _ e _. cc (e, k.there)

  module _ (ref : PoolRef) (pool : Pool none sync) where
    make_scope-opens :
        (st : Store E O sync)
        → IsForetold st.carrier
        → get_elem? st.pools ref ≡ some pool
        → IsPoolOf none sync capacity limit pool
        → PoolFits none sync pool
        → let (st', there) = make_scope ref st (get_elem? st.pools ref) in
          (there ≡ true) × IsOpened st' (left (norm_limit limit) 0) × (st'.out ≡ st.out)
    unfolding make_scope
    make_scope-opens st f at of fits =
        rw (at, f.early)
          (
            refl,
            record {
              live = f.live;
              scope = _;
              there = refl;
              passes =
                  trip-Held-IsPassing capacity limit (get none sync ref st.next_box pool).0 []
                    (made-Held capacity limit ref st.next_box pool of fits);
            },
            refl,
          )

    -- A carrier that tripped before it had a scope makes one that is tripped already.
    pub bind-opens :
        (st : Store E O sync)
        → IsForetold st.carrier
        → get_elem? st.pools ref ≡ some pool
        → IsPoolOf none sync capacity limit pool
        → PoolFits none sync pool
        → let (st', there) = bind ref st in
          (there ≡ true) × IsOpened st' (left (norm_limit limit) 0) × (st'.out ≡ st.out)
    bind-opens st f at of fits =
        bind_cases
          (λ r. (r.1 ≡ true) × IsOpened r.0 (left (norm_limit limit) 0) × (r.0.out ≡ st.out)) ref st
          (λ c. cc) (λ _ _ e. cc (e, f.empty)) λ _ _. make_scope-opens st f at of fits

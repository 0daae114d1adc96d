-- ===== src/Core/Carrier/Tripped.antt =====
-- A live carrier that has just tripped: a second trip, and what it lets through next.
use dllog.Base.{
  refl, [], get_elem?, subst, sym, ap, Bool-cases, inl, inr, Int64, if◌then◌else◌, List, ◌∙◌, ◌≡◌,
  Bool, true, false, Option, some, none, arith,
}
use dllog.Core.Types.{Scope, Box, PoolRef}
use dllog.Core.SyncPool.{SyncPool}
use dllog.Core.Pool.{Pool}
use dllog.Core.Scope as Engine
use dllog.Core.Carrier.Hold.{Held, IsHolding}
use dllog.Core.Carrier.Cases.{mark_tripped_cases}
use dllog.Core.Carrier.{flush, mark_and_flush, pre_trip, flush_on, Entry, Store}
use dllog.Core.Scope.Inv.{IsValid, trip-IsValid}
use dllog.Core.Scope.Pooled.{PoolFits}
use dllog.Core.Carrier.Inv.{trip-flags}

-- A scope that has tripped, and whose budget is untouched; without a scope, the trip is remembered.
abbrev pub Fresh : {E : Type 0} → Bool → Option (Scope (Option E)) → Type 0
Fresh pre none = pre ≡ true
Fresh pre (some s) = IsValid s × (s.closed ≡ false) × (s.trip_state ≡ true) × (s.post_trip ≡ 0)

module _ {E O : Type 0} {sync : SyncPool (Box (Option E))} (ref : PoolRef) where
  pub record IsTripped (st : Store E O sync) : Type 0 where
    pub live : st.carrier.closed ≡ false
    pub fresh : Fresh st.carrier.pre_tripped st.carrier.scope
    pub pool : Pool none sync
    pub pool_at : get_elem? st.pools ref ≡ some pool
    pub pool_fits : PoolFits none sync pool

trip-post_trip :
    {E : Type 0} (s : Scope (Option E)) → (Engine.trip none s).0.post_trip ≡ s.post_trip
unfolding Engine.trip Engine.clear_ring
trip-post_trip s = ground arith

pub trip-Fresh :
    {E : Type 0} (s : Scope (Option E))
    → IsValid s
    → s.closed ≡ false
    → s.post_trip ≡ 0
    → Fresh false (some (Engine.trip none s).0)
trip-Fresh s v live unspent =
    let (closed, tripped) = trip-flags none s in
    (
      trip-IsValid none s v,
      closed ∙ live,
      ground (arith, trip-flags none s),
      trip-post_trip s ∙ unspent,
    )

trip-again :
    {E : Type 0} (s : Scope (Option E))
    → s.trip_state ≡ true
    → Engine.trip none s ≡ (s, [], 0, false)
unfolding Engine.trip
trip-again s t = ground arith

module _ {E O : Type 0} {sync : SyncPool (Box (Option E))} (ref : PoolRef) where
  module _ (ops : Entry E O) where
    -- A flush of the carrier's scope `s`, which is there.
    flush_on-scope :
        (st : Store E O sync) (s : Scope (Option E))
        → (flush_on ops st (some s)).0.carrier
          ≡ record (st.carrier) { scope = some (Engine.trip none s).0 }
    unfolding flush_on
    flush_on-scope st s = elim (Bool-cases (Engine.trip none s).3) [
      | inl e ↦ rw e refl
      | inr e ↦ rw e refl
    ]

    flush_on-pools :
        (st : Store E O sync) (s : Scope (Option E)) → (flush_on ops st (some s)).0.pools ≡ st.pools
    unfolding flush_on
    flush_on-pools st s = elim (Bool-cases (Engine.trip none s).3) [
      | inl e ↦ rw e refl
      | inr e ↦ rw e refl
    ]

    flush_on-again :
        (st : Store E O sync) (s : Scope (Option E))
        → s.trip_state ≡ true
        → let (st', trigger) = flush_on ops st (some s) in (trigger ≡ false) × (st'.out ≡ st.out)
    unfolding flush_on
    flush_on-again st s t = rw (trip-again s t) (refl, refl)

    flush_on-IsTripped :
        (st : Store E O sync) (s : Scope (Option E)) (pool : Pool none sync)
        → st.carrier.closed ≡ false
        → IsValid s
        → s.closed ≡ false
        → s.post_trip ≡ 0
        → get_elem? st.pools ref ≡ some pool
        → PoolFits none sync pool
        → IsTripped ref (flush_on ops st (some s)).0
    flush_on-IsTripped st s pool live v opened unspent at fits = record {
      live = ap (λ c. c.closed) (flush_on-scope st s) ∙ live;
      fresh = rw (flush_on-scope st s) (trip-Fresh s v opened unspent);
      pool = pool;
      pool_at = rw (flush_on-pools st s) at;
      pool_fits = fits;
    }

    -- After a first trip the carrier is tripped, its budget untouched.
    pub mark_and_flush-IsTripped :
        (capacity limit : Int64) (st : Store E O sync) (seen : List (Option E))
        → IsHolding capacity limit ref st seen
        → IsTripped ref (mark_and_flush ops st).0
    unfolding mark_and_flush pre_trip flush
    mark_and_flush-IsTripped capacity limit st seen h =
        mark_tripped_cases (λ r. IsTripped ref (if r.1 then flush ops r.0 else (r.0, r.2)).0) st
          (λ c. cc (c, h.live))
          (λ s _ e.
            let k : Held capacity limit (some s) seen =
              subst (λ o. Held capacity limit o seen) e h.held in
            subst (λ o. IsTripped ref (flush_on ops st o).0) (sym e)
              (flush_on-IsTripped st s h.pool h.live k.0 k.1 (k.0.unspent k.2) h.pool_at
                h.pool_fits))
          (λ _ _ t. cc (t, h.early))
          λ live e _. record {
            live = live;
            fresh = rw e refl;
            pool = h.pool;
            pool_at = h.pool_at;
            pool_fits = h.pool_fits;
          }

    -- A second trip of it triggers nothing, and puts nothing out.
    pub IsTripped-again :
        (st : Store E O sync)
        → IsTripped ref st
        → let (st', trigger) = mark_and_flush ops st in
          (trigger ≡ false) × IsTripped ref st' × (st'.out ≡ st.out)
    unfolding mark_and_flush pre_trip flush
    IsTripped-again st h =
        mark_tripped_cases
          (λ r.
            let (st', trigger) = if r.1 then flush ops r.0 else (r.0, r.2) in
            (trigger ≡ false) × IsTripped ref st' × (st'.out ≡ st.out))
          st (λ c. cc (c, h.live))
          (λ s _ e.
            let (v, opened, tripped, unspent) = subst (Fresh st.carrier.pre_tripped) e h.fresh in
            subst
              (λ o.
                let (st', trigger) = flush_on ops st o in
                (trigger ≡ false) × IsTripped ref st' × (st'.out ≡ st.out))
              (sym e)
              (let (silent, out) = flush_on-again st s tripped in
                (
                  silent,
                  flush_on-IsTripped st s h.pool h.live v opened unspent h.pool_at h.pool_fits,
                  out,
                )))
          (λ _ _ _. (refl, h, refl))
          λ _ e p.
            let t : st.carrier.pre_tripped ≡ true =
              subst (Fresh st.carrier.pre_tripped) e h.fresh in
            cc (p, t)

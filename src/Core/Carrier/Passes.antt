-- ===== src/Core/Carrier/Passes.antt =====
-- internal/core/carrier.go: what a carrier that has just tripped lets through next.
use dllog.Base.{refl, get_elem?, subst, ◌≡◌, true, false, Option, some, none, arith}
use dllog.Core.Types.{Action, Scope, Box, PoolRef, BoxRef}
use dllog.Core.SyncPool.{SyncPool}
use dllog.Core.Pool.{Pool, get}
use dllog.Core.Scope as Engine
use dllog.Core.Carrier.Cases.{bind_cases}
use dllog.Core.Carrier.{make_scope, bind, pass_through, pass_through_on, Store}
use dllog.Core.Scope.Pooled.{get-PoolFits}
use dllog.Core.Carrier.Tripped.{Fresh, IsTripped, trip-Fresh}

get-quiet :
    {T : Type 0} (z : T) (sync : SyncPool (Box T)) (ref : PoolRef) (fresh : BoxRef)
    (p : Pool z sync)
    → (get z sync ref fresh p).0.trip_state ≡ false
unfolding get
get-quiet z sync ref fresh p = refl

pass_through-Fresh :
    {E : Type 0} (s : Scope (Option E))
    → Fresh false (some s)
    → (Engine.pass_through s).1 ≡ Action.pass_through
unfolding Engine.pass_through
pass_through-Fresh s (v, live, t, z) = ground arith

module _ {E O : Type 0} {sync : SyncPool (Box (Option E))} (ref : PoolRef) where
  passes :
      (st : Store E O sync) (s : Scope (Option E))
      → st.carrier.scope ≡ some s
      → Fresh false (some s)
      → ((pass_through st).1 ≡ Action.pass_through) × ((pass_through st).0.out ≡ st.out)
  unfolding pass_through pass_through_on
  passes st s e f = rw e (pass_through-Fresh s f, refl)

  make_scope-passes :
      (st : Store E O sync)
      → IsTripped ref st
      → st.carrier.pre_tripped ≡ true
      → let (st', there) = make_scope ref st (get_elem? st.pools ref) in
        (there ≡ true)
        × ((pass_through st').1 ≡ Action.pass_through)
        × ((pass_through st').0.out ≡ st.out)
  unfolding make_scope
  make_scope-passes st h p =
      let (v, opened, _) = get-PoolFits none sync ref st.next_box h.pool h.pool_fits in
      rw h.pool_at (
        simp p (
          let (action, out) =
            passes _ _ refl
              (trip-Fresh _ v opened (v.unspent (get-quiet none sync ref st.next_box h.pool))) in
          (refl, action, out)))

  -- What is bound next lets an offer through, at once or in a scope that is born tripped.
  pub bind-IsTripped :
      (st : Store E O sync)
      → IsTripped ref st
      → let (st', there) = bind ref st in
        (there ≡ true)
        × ((pass_through st').1 ≡ Action.pass_through)
        × ((pass_through st').0.out ≡ st.out)
  bind-IsTripped st h =
      bind_cases
        (λ r.
          (r.1 ≡ true)
          × ((pass_through r.0).1 ≡ Action.pass_through)
          × ((pass_through r.0).0.out ≡ st.out))
        ref st (λ c. cc (c, h.live))
        (λ s _ e.
          let (action, out) = passes st s e (subst (Fresh st.carrier.pre_tripped) e h.fresh) in
          (refl, action, out))
        λ _ e. make_scope-passes st h (subst (Fresh st.carrier.pre_tripped) e h.fresh)

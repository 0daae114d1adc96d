-- ===== src/Core/Carrier/Hold.antt =====
-- A live carrier that has not tripped, by the entries that it was given so far; what `Bind`,
-- `append` and a first trip do to it.
use dllog.Base.{
  get_elem?-set_self, subst, ◌-◌, ◌%◌, ◌^◌, ◌<◌, ◌≡◌, refl, sym, ap, ◌∙◌, Int64, true, false, List,
  [], ◌∷◌, ◌++◌, Option, some, none, get_elem?, length, arith,
}
use dllog.Core.Types.{Action, Scope, Box, BoxRef, PoolRef, norm_capacity}
use dllog.Core.SyncPool.{SyncPool}
use dllog.Core.Pool.{Pool, get}
use dllog.Core.Log
use dllog.Core.Scope as Engine
use dllog.Core.Scope.Inv.{IsValid, append-IsValid}
use dllog.Core.Scope.Refine.{view, append_refines, trip_refines}
use dllog.Core.Scope.History.{
  keep_last, log_of, empty_log, append-log_of, new_scope-view, log_of-nil,
}
use dllog.Core.Scope.Pooled.{PoolFits, IsPoolOf, get-PoolFits, get-new_scope}
use dllog.Core.Carrier.{Store, make_scope, bind, append, append_on, tripped}
use dllog.Core.Carrier.Inv.{append-flags}
use dllog.Core.Carrier.Cases.{bind_cases}

norm_capacity-pos : (c : Int64) → 0 < norm_capacity c
norm_capacity-pos c = ground arith

append-buffered :
    {T : Type 0} (l : Log.Log T) (seen : List T) (x : T)
    → (Log.append (log_of l seen) x).1 ≡ Action.buffered
unfolding Log.append
append-buffered l seen x = ground arith

module _ {E : Type 0} (capacity limit : Int64) where
  -- The scope holds the log that has seen `seen`; no scope has seen nothing.
  abbrev pub Held : Option (Scope (Option E)) → List (Option E) → Type 0
  Held none seen = seen ≡ []
  Held (some s) seen =
      IsValid s
      × (s.closed ≡ false)
      × (s.trip_state ≡ false)
      × (view none s ≡ log_of (empty_log none capacity limit) seen)

  -- A scope that is made now has seen nothing.
  pub made-Held :
      {sync : SyncPool (Box (Option E))} (ref : PoolRef) (fresh : BoxRef) (p : Pool none sync)
      → IsPoolOf none sync capacity limit p
      → PoolFits none sync p
      → Held (some (get none sync ref fresh p).0) []
  unfolding Engine.new_scope
  made-Held {sync} ref fresh p of fits =
      let (valid, opened, _) = get-PoolFits none sync ref fresh p fits in
      let (same, _) = get-new_scope none sync capacity limit ref fresh p of in
      (
        valid,
        opened,
        ap (λ s. s.trip_state) same,
        ap (view none) same ∙ new_scope-view none capacity limit ∙ log_of-nil none capacity limit,
      )

  pub append-Held :
      (s : Scope (Option E)) (seen : List (Option E)) (x : Option E)
      → Held (some s) seen
      → let (s', a) = Engine.append s x in (a ≡ Action.buffered) × Held (some s') (seen ++ (x ∷ []))
  append-Held s seen x (v, opened, quiet, viewed) =
      let step = append_refines none s x v in
      let (closed, tripped) = append-flags s x in
      (
        ap (λ r. r.1) step
            ∙ ap (λ l. (Log.append l x).1) viewed
            ∙ append-buffered (empty_log none capacity limit) seen x,
        (
          append-IsValid s x v,
          closed ∙ opened,
          tripped ∙ quiet,
          ap (λ r. r.0) step
              ∙ ap (λ l. (Log.append l x).0) viewed
              ∙ append-log_of (empty_log none capacity limit) seen x (norm_capacity-pos capacity),
        ),
      )

  pub trip-Held :
      (s : Scope (Option E)) (seen : List (Option E))
      → Held (some s) seen
      → let (s', entries, dropped, tripped) = Engine.trip none s in
        (entries ≡ keep_last (norm_capacity capacity) seen)
        × (dropped ≡ (length seen - norm_capacity capacity) % 2 ^ 64)
        × (tripped ≡ true)
  unfolding Log.trip
  trip-Held s seen (v, opened, quiet, viewed) =
      let answer = trip_refines none s v ∙ ap Log.trip viewed in
      (ap (λ r. r.1) answer, ap (λ r. r.2) answer, ap (λ r. r.3) answer)

  module _ {O : Type 0} {sync : SyncPool (Box (Option E))} (ref : PoolRef) where
    pub record IsHolding (st : Store E O sync) (seen : List (Option E)) : Type 0 where
      pub live : st.carrier.closed ≡ false
      pub early : st.carrier.pre_tripped ≡ false
      pub held : Held st.carrier.scope seen
      pub pool : Pool none sync
      pub pool_at : get_elem? st.pools ref ≡ some pool
      pub pool_of : IsPoolOf none sync capacity limit pool
      pub pool_fits : PoolFits none sync pool

    make_scope-IsHolding :
        (st : Store E O sync) (seen : List (Option E))
        → IsHolding st seen
        → st.carrier.scope ≡ none
        → let (st', there) = make_scope ref st (get_elem? st.pools ref) in
          (there ≡ true)
          × IsHolding st' seen
          × (st'.out ≡ st.out)
          × ((s : Scope (Option E)) × (st'.carrier.scope ≡ some s))
    unfolding make_scope
    make_scope-IsHolding st seen h e = rw h.pool_at (
      refl,
      record {
        live = h.live;
        early = h.early;
        held = rw h.early (subst (Held (some made)) (sym empty) blank);
        pool = rest;
        pool_at = get_elem?-set_self st.pools ref rest h.pool h.pool_at;
        pool_of = (get-new_scope none sync capacity limit ref st.next_box h.pool h.pool_of).1;
        pool_fits = (get-PoolFits none sync ref st.next_box h.pool h.pool_fits).2;
      },
      refl,
      (_, refl),
    )
      where
        made : Scope (Option E)
        made = (get none sync ref st.next_box h.pool).0

        rest : Pool none sync
        rest = (get none sync ref st.next_box h.pool).1

        empty : seen ≡ []
        empty = subst (λ o. Held o seen) e h.held

        blank : Held (some made) []
        blank = made-Held ref st.next_box h.pool h.pool_of h.pool_fits

    -- `Bind` on a live carrier that has not tripped leaves it with a scope, holding what it
    -- held, and puts nothing out.
    pub bind-IsHolding :
        (st : Store E O sync) (seen : List (Option E))
        → IsHolding st seen
        → let (st', there) = bind ref st in
          (there ≡ true)
          × IsHolding st' seen
          × (st'.out ≡ st.out)
          × ((s : Scope (Option E)) × (st'.carrier.scope ≡ some s))
    bind-IsHolding st seen h =
        bind_cases
          (λ r.
            (r.1 ≡ true)
            × IsHolding r.0 seen
            × (r.0.out ≡ st.out)
            × ((s : Scope (Option E)) × (r.0.carrier.scope ≡ some s)))
          ref st (λ c. cc (c, h.live)) (λ s _ e. (refl, h, refl, (s, e)))
          λ _ e. make_scope-IsHolding st seen h e

    append_on-IsHolding :
        (st : Store E O sync) (seen : List (Option E)) (x : E) (s : Scope (Option E))
        → IsHolding st seen
        → st.carrier.scope ≡ some s
        → let (st', a) = append_on st x (some s) in
          (a ≡ Action.buffered) × IsHolding st' (seen ++ (some x ∷ [])) × (st'.out ≡ st.out)
    unfolding append_on
    append_on-IsHolding st seen x s h e =
        let (buffered, held) = append-Held s seen (some x) (subst (λ o. Held o seen) e h.held) in
        (
          buffered,
          record {
            live = h.live;
            early = h.early;
            held = held;
            pool = h.pool;
            pool_at = h.pool_at;
            pool_of = h.pool_of;
            pool_fits = h.pool_fits;
          },
          refl,
        )

    -- An entry given to the scope of a live carrier that has not tripped is withheld, after
    -- those that the carrier held, and nothing is put out.
    pub append-IsHolding :
        (st : Store E O sync) (seen : List (Option E)) (x : E) (s : Scope (Option E))
        → IsHolding st seen
        → st.carrier.scope ≡ some s
        → let (st', a) = append st x in
          (a ≡ Action.buffered) × IsHolding st' (seen ++ (some x ∷ [])) × (st'.out ≡ st.out)
    unfolding append
    append-IsHolding st seen x s h e =
        subst
          (λ o.
            let (st', a) = append_on st x o in
            (a ≡ Action.buffered) × IsHolding st' (seen ++ (some x ∷ [])) × (st'.out ≡ st.out))
          (sym e) (append_on-IsHolding st seen x s h e)

-- ===== src/Core/Carrier/Kept.antt =====
-- internal/core/carrier.go and internal/core/pool.go: the pools that a call on a carrier leaves.
use dllog.Base.{
  ◌≡◌, refl, ◌∙◌, subst, sym, Int64, List, Option, some, none, inl, inr, get_elem?, At, At-set,
  At-modify, Bool-cases, length, if◌then◌else◌, Option-cases,
}
use mathlib.Core.Option.{some-injective}
use dllog.Core.Types.{Scope, Box, BoxRef, PoolRef}
use dllog.Core.SyncPool.{SyncPool}
use dllog.Core.Pool.{Pool, get, put}
use dllog.Core.Pool.Recycle.{IsMade, put-IsZeroed}
use dllog.Core.Scope as Engine
use dllog.Core.Scope.Pooled.{
  IsPoolOf, PoolFits, get-PoolFits, get-new_scope, put-PoolFits, put-sizes, cleared-replicate,
}
use dllog.Core.Carrier.Cases.{bind_cases, mark_tripped_cases}
use dllog.Core.Carrier.{
  Entry, Store, make_scope, bind, append, append_on, pass_through, pass_through_on, flush, flush_on,
  mark_and_flush, pre_trip, close, close_scope,
}

module _ {E : Type 0} (sync : SyncPool (Box (Option E))) where
  -- As `NewScopePool capacity limit` made it, up to the rings it holds, and fit for use.
  abbrev pub IsGood : Int64 → Int64 → Pool {T = Option E} none sync → Type 0
  IsGood capacity limit p = IsPoolOf none sync capacity limit p × PoolFits none sync p

  -- Every pool that is good stays so, at its address.
  abbrev pub Keeps :
      List (Pool {T = Option E} none sync) → List (Pool {T = Option E} none sync) → Type 0
  Keeps pools pools' =
      (ref : PoolRef) (capacity limit : Int64)
      → At (IsGood capacity limit) pools ref
      → At (IsGood capacity limit) pools' ref

  pub Keeps-same : (pools pools' : List (Pool none sync)) → pools' ≡ pools → Keeps pools pools'
  Keeps-same pools pools' e ref capacity limit k =
      subst (λ ps. At (IsGood capacity limit) ps ref) (sym e) k

  put-IsGood :
      (capacity limit : Int64) (held : Box (Option E)) (p : Pool none sync)
      → IsMade none sync (length held.array) held
      → IsGood capacity limit p
      → IsGood capacity limit (put none sync (some held) p)
  put-IsGood capacity limit held p clean (of, fits) =
      let (sized, bounded) = put-sizes none sync held p in
      (
        record {
          sized = sized ∙ of.sized;
          bounded = bounded ∙ of.bounded;
          zeroed = put-IsZeroed none sync held p clean of.zeroed;
        },
        put-PoolFits none sync held p clean fits,
      )

  give_back-Keeps :
      (pool : Option PoolRef) (held : Option BoxRef) (ring : List (Option E))
      (pools : List (Pool none sync))
      → Keeps pools (Engine.give_back none sync pool held (Engine.cleared none ring) pools)
  unfolding Engine.give_back
  give_back-Keeps (some p) (some held) ring pools ref capacity limit k =
      At-modify (IsGood capacity limit) pools p ref _
        (λ q. put-IsGood capacity limit _ q (cleared-replicate none sync ring)) k
  give_back-Keeps (some p) none ring pools ref capacity limit k = k
  give_back-Keeps none held ring pools ref capacity limit k = k

  close-Keeps :
      (s : Scope (Option E)) (pools : List (Pool none sync))
      → Keeps pools (Engine.close none sync s pools).1
  unfolding Engine.close Engine.clear_ring
  close-Keeps s pools = elim (Bool-cases s.closed) [
    | inl done ↦ rw done (λ ref capacity limit k. k)
    | inr live ↦ rw live (give_back-Keeps s.pool s.held s.ring pools)
  ]

  get-IsGood :
      (capacity limit : Int64) (self : PoolRef) (fresh : BoxRef) (p : Pool none sync)
      → IsGood capacity limit p
      → IsGood capacity limit (get none sync self fresh p).1
  get-IsGood capacity limit self fresh p (of, fits) = (
    (get-new_scope none sync capacity limit self fresh p of).1,
    (get-PoolFits none sync self fresh p fits).2,
  )

module _ {E O : Type 0} {sync : SyncPool (Box (Option E))} where
  make_scope-Keeps :
      (ref : PoolRef) (st : Store E O sync)
      → Keeps sync st.pools (make_scope ref st (get_elem? st.pools ref)).0.pools
  unfolding make_scope
  make_scope-Keeps ref st = elim (Option-cases (get_elem? st.pools ref)) [
    | inl e ↦ rw e (λ r capacity limit k. k)
    | inr (p, e) ↦ simp e (λ r capacity limit.
        At-set (IsGood sync capacity limit) st.pools ref r (get none sync ref st.next_box p).1
          (λ q at good.
            get-IsGood sync capacity limit ref st.next_box p
              (subst (IsGood sync capacity limit) (some-injective q p (sym at ∙ e)) good)))
  ]

  pub bind-Keeps : (ref : PoolRef) (st : Store E O sync) → Keeps sync st.pools (bind ref st).0.pools
  bind-Keeps ref st =
      bind_cases (λ r. Keeps sync st.pools r.0.pools) ref st (λ _ r capacity limit k. k)
        (λ _ _ _ r capacity limit k. k) λ _ _. make_scope-Keeps ref st

  pub append-pools : (st : Store E O sync) (x : E) → (append st x).0.pools ≡ st.pools
  unfolding append append_on
  append-pools st x = elim (Option-cases st.carrier.scope) [
    | inl e ↦ simp e refl
    | inr (s, e) ↦ simp e refl
  ]

  pub pass_through-pools : (st : Store E O sync) → (pass_through st).0.pools ≡ st.pools
  unfolding pass_through pass_through_on
  pass_through-pools st = elim (Option-cases st.carrier.scope) [
    | inl e ↦ simp e refl
    | inr (s, e) ↦ simp e refl
  ]

  flush-pools : (ops : Entry E O) (st : Store E O sync) → (flush ops st).0.pools ≡ st.pools
  unfolding flush flush_on
  flush-pools ops st = elim (Option-cases st.carrier.scope) [
    | inl e ↦ simp e refl
    | inr (s, e) ↦ elim (Bool-cases (Engine.trip none s).3) [
      | inl t ↦ simp (e, t) refl
      | inr t ↦ simp (e, t) refl
    ]
  ]

  pub mark_and_flush-pools :
      (ops : Entry E O) (st : Store E O sync) → (mark_and_flush ops st).0.pools ≡ st.pools
  unfolding mark_and_flush pre_trip
  mark_and_flush-pools ops st =
      mark_tripped_cases (λ r. (if r.1 then flush ops r.0 else (r.0, r.2)).0.pools ≡ st.pools) st
        (λ _. refl) (λ _ _ _. flush-pools ops st) (λ _ _ _. refl) λ _ _ _. refl

  pub close-Kept : (st : Store E O sync) → Keeps sync st.pools (close st).pools
  unfolding close close_scope
  close-Kept st = elim (Option-cases st.carrier.scope) [
    | inl e ↦ simp e (λ r capacity limit k. k)
    | inr (s, e) ↦ simp e (close-Keeps sync s st.pools)
  ]

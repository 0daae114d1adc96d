-- ===== src/Core/Carrier/Stable.antt =====
-- internal/core/carrier.go: what every call of an adapter on a carrier leaves as it was, `Close` aside.
use dllog.Base.{
  ◌≡◌, refl, ◌∙◌, List, Option, none, inl, inr, get_elem?, Bool-cases, Option-cases, if◌then◌else◌,
}
use dllog.Core.Types.{Box, PoolRef}
use dllog.Core.SyncPool.{SyncPool}
use dllog.Core.Scope as Engine
use dllog.Core.Carrier.Cases.{bind_cases, mark_tripped_cases}
use dllog.Core.Carrier.Kept.{
  Keeps, Keeps-same, bind-Keeps, append-pools, pass_through-pools, mark_and_flush-pools,
}
use dllog.Core.Carrier.{
  Entry, Store, make_scope, bind, append, append_on, pass_through, pass_through_on, flush, flush_on,
  mark_and_flush, pre_trip,
}

module _ {E O : Type 0} {sync : SyncPool (Box (Option E))} (ops : Entry E O) where
  -- A relation between the carrier before and after that holds across any such calls and outputs.
  pub record IsStable (R : Store E O sync → Store E O sync → Type 0) : Type 0 where
    pub same : (st : Store E O sync) → R st st
    pub both : {a b c : Store E O sync} → R a b → R b c → R a c
    pub binds : (ref : PoolRef) (st : Store E O sync) → R st (bind ref st).0
    pub appends : (st : Store E O sync) (x : E) → R st (append st x).0
    pub passes : (st : Store E O sync) → R st (pass_through st).0
    pub trips : (st : Store E O sync) → R st (mark_and_flush ops st).0
    pub puts : (st : Store E O sync) (out : List O) → R st (record st { out = out })

  -- Pools that are good stay so.
  pub Keeps-IsStable : IsStable (λ a b. Keeps sync a.pools b.pools)
  Keeps-IsStable = record {
    same = λ st r c l k. k;
    both = λ f g r c l k. g r c l (f r c l k);
    binds = bind-Keeps;
    appends = λ st x. Keeps-same sync _ _ (append-pools st x);
    passes = λ st. Keeps-same sync _ _ (pass_through-pools st);
    trips = λ st. Keeps-same sync _ _ (mark_and_flush-pools ops st);
    puts = λ st out r c l k. k;
  }

  abbrev pub StaysLive : Store E O sync → Store E O sync → Type 0
  StaysLive a b = b.carrier.closed ≡ a.carrier.closed

  make_scope-StaysLive :
      (ref : PoolRef) (st : Store E O sync)
      → StaysLive st (make_scope ref st (get_elem? st.pools ref)).0
  unfolding make_scope
  make_scope-StaysLive ref st = elim (Option-cases (get_elem? st.pools ref)) [
    | inl e ↦ rw e refl
    | inr (p, e) ↦ rw e refl
  ]

  bind-StaysLive : (ref : PoolRef) (st : Store E O sync) → StaysLive st (bind ref st).0
  bind-StaysLive ref st =
      bind_cases (λ r. StaysLive st r.0) ref st (λ _. refl) (λ _ _ _. refl)
        λ _ _. make_scope-StaysLive ref st

  append-StaysLive : (st : Store E O sync) (x : E) → StaysLive st (append st x).0
  unfolding append append_on
  append-StaysLive st x = elim (Option-cases st.carrier.scope) [
    | inl e ↦ simp e refl
    | inr (s, e) ↦ simp e refl
  ]

  pass_through-StaysLive : (st : Store E O sync) → StaysLive st (pass_through st).0
  unfolding pass_through pass_through_on
  pass_through-StaysLive st = elim (Option-cases st.carrier.scope) [
    | inl e ↦ simp e refl
    | inr (s, e) ↦ simp e refl
  ]

  flush-StaysLive : (st : Store E O sync) → StaysLive st (flush ops st).0
  unfolding flush flush_on
  flush-StaysLive st = elim (Option-cases st.carrier.scope) [
    | inl e ↦ simp e refl
    | inr (s, e) ↦ elim (Bool-cases (Engine.trip none s).3) [
      | inl t ↦ simp (e, t) refl
      | inr t ↦ simp (e, t) refl
    ]
  ]

  mark_and_flush-StaysLive : (st : Store E O sync) → StaysLive st (mark_and_flush ops st).0
  unfolding mark_and_flush pre_trip
  mark_and_flush-StaysLive st =
      mark_tripped_cases (λ r. StaysLive st (if r.1 then flush ops r.0 else (r.0, r.2)).0) st
        (λ _. refl) (λ _ _ _. flush-StaysLive st) (λ _ _ _. refl) λ _ _ _. refl

  -- Only `Close` closes a carrier.
  pub StaysLive-IsStable : IsStable StaysLive
  StaysLive-IsStable = record {
    same = λ st. refl;
    both = λ f g. g ∙ f;
    binds = bind-StaysLive;
    appends = append-StaysLive;
    passes = pass_through-StaysLive;
    trips = mark_and_flush-StaysLive;
    puts = λ st out. refl;
  }

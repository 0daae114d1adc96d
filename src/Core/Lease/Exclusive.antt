-- ===== src/Core/Lease/Exclusive.antt =====
-- internal/core/pool.go and scope.go together: who holds a ring.
use dllog.Base.{
  Int64, eq_of_==, ℕ, ◌≤◌, ◌≡◌, ◌≢◌, ◌⊎◌, subst, none, All-get_elem?, refl, List, [], ◌∷◌, some,
  inl, inr, ◌==◌, Bool-cases, Option-cases, get_elem?, arith, total, total-set, total-one,
}
use dllog.Core.Types.{Scope, Box, BoxRef, PoolRef}
use dllog.Core.SyncPool.{SyncPool}
use dllog.Core.Pool.{Pool, new_scope_pool}
use dllog.Core.Scope.Run.{Call}
use dllog.Core.Lease.{Leases, Op, borrow, use_scope, call, borrow_from, call_at, step, run}
use dllog.Core.Lease.Rings.{Backed, IsBacked, run-IsBacked}
use dllog.Core.Lease.Boxes.{same, one, holds, boxed, stored, uses, call-uses, borrow-uses}

-- The first scope has no ring, or the box of its ring is not the second's.
abbrev pub WritesApart : {T : Type 0} → Scope T → Scope T → Type 0
WritesApart s s' =
    ((s.held ≡ none) × (s.ring ≡ [])) ⊎ ((b : BoxRef) × (s.held ≡ some b) × (s'.held ≢ some b))

module _ {T : Type 0} (zero_value : T) (sync : SyncPool (Box T)) where
  abbrev pub new_pools : List (Int64 × Int64) → List (Pool zero_value sync)
  new_pools [] = []
  new_pools ((size, limit) ∷ sizes) = new_scope_pool zero_value sync size limit ∷ new_pools sizes

  -- No box is in two places, and those that are not allocated are in none.
  record Inv (st : Leases zero_value sync) : Type 0 where
    at_most : (b : BoxRef) → uses zero_value sync b st.scopes st.pools ≤ 1
    fresh : (b : BoxRef) → st.next_box ≤ b → uses zero_value sync b st.scopes st.pools ≡ 0

  borrow-Inv :
      (ref : PoolRef) (p : Pool zero_value sync) (st : Leases zero_value sync)
      → get_elem? st.pools ref ≡ some p
      → Inv st
      → Inv (borrow_from zero_value sync ref (some p) st)
  unfolding borrow_from
  borrow-Inv ref p st at v = record {
    at_most = λ b. elim (Bool-cases (st.next_box == b)) [
      | inl e ↦
          let same_b : same st.next_box b ≡ 1 = rw e refl in
          omega (
            arith,
            borrow-uses zero_value sync b ref p st at,
            same_b,
            v.fresh b (omega (arith, eq_of_== _ _ e)),
          )
      | inr e ↦
          let other : same st.next_box b ≡ 0 = rw e refl in
          omega (arith, borrow-uses zero_value sync b ref p st at, other, v.at_most b)
    ];
    fresh = λ b h. elim (Bool-cases (st.next_box == b)) [
      | inl e ↦ absurd (omega (arith, eq_of_== _ _ e, h))
      | inr e ↦
          let other : same st.next_box b ≡ 0 = rw e refl in
          omega
            (arith, borrow-uses zero_value sync b ref p st at, other, v.fresh b (omega (arith, h)))
    ];
  }

  call-Inv :
      (k : ℕ) (c : Call T) (s : Scope T) (st : Leases zero_value sync)
      → get_elem? st.scopes k ≡ some s
      → Inv st
      → Inv (call_at zero_value sync k c (some s) st)
  unfolding call_at
  call-Inv k c s st at v = record {
    at_most = λ b. omega (
      arith,
      v.at_most b,
      call-uses zero_value sync b c s st.pools,
      total-set (holds zero_value sync b) st.scopes k (call zero_value sync c s st.pools).0 s at,
    );
    fresh = λ b h. omega (
      arith,
      v.fresh b h,
      call-uses zero_value sync b c s st.pools,
      total-set (holds zero_value sync b) st.scopes k (call zero_value sync c s st.pools).0 s at,
    );
  }

  step-Inv : (o : Op T) (st : Leases zero_value sync) → Inv st → Inv (step zero_value sync o st)
  unfolding step borrow_from call_at
  step-Inv (borrow ref) st v = elim (Option-cases (get_elem? st.pools ref)) [
    | inl e ↦ rw e v
    | inr (p, e) ↦ rw e (borrow-Inv ref p st e v)
  ]
  step-Inv (use_scope k c) st v = elim (Option-cases (get_elem? st.scopes k)) [
    | inl e ↦ rw e v
    | inr (s, e) ↦ rw e (call-Inv k c s st e v)
  ]

  run-Inv :
      (os : List (Op T)) (st : Leases zero_value sync) → Inv st → Inv (run zero_value sync os st)
  unfolding run
  run-Inv [] st v = v
  run-Inv (o ∷ os) st v = run-Inv os (step zero_value sync o st) (step-Inv o st v)

  -- Pools as `NewScopePool` makes them, and no scope yet.
  abbrev pub unused : List (Int64 × Int64) → Leases zero_value sync
  unused sizes = record { scopes = []; pools = new_pools sizes; next_box = 0 }

  unused-stored :
      (b : BoxRef) (sizes : List (Int64 × Int64))
      → total (stored zero_value sync b) (new_pools sizes) ≡ 0
  unfolding new_scope_pool
  unused-stored b [] = refl
  unused-stored b ((size, limit) ∷ sizes) =
      let none_in : total (boxed zero_value sync b) (sync.items sync.empty) ≡ 0 =
        rw sync.items-empty refl in
      omega (arith, none_in, unused-stored b sizes)

  -- No box is held by two scopes.
  held_once :
      (sizes : List (Int64 × Int64)) (os : List (Op T)) (i j : ℕ) (s s' : Scope T) (b : BoxRef)
      → get_elem? (run zero_value sync os (unused sizes)).scopes i ≡ some s
      → get_elem? (run zero_value sync os (unused sizes)).scopes j ≡ some s'
      → s.held ≡ some b
      → s'.held ≡ some b
      → i ≡ j
  held_once sizes os i j s s' b at at' e e' =
      let start : Inv (unused sizes) = record {
        at_most = λ b. omega (arith, unused-stored b sizes);
        fresh = λ b _. omega (arith, unused-stored b sizes);
      } in
      let v = run-Inv os (unused sizes) start in
      total-one (holds zero_value sync b) (run zero_value sync os (unused sizes)).scopes i j s s' at
        at' (rw e (one b)) (rw e' (one b)) (omega (arith, v.at_most b))

  -- Scopes are made from pools, used by any methods and closed, in any order, and each pool
  -- hands out what it was given, or makes a new ring, as `sync.Pool` may: at any time, of two
  -- different scopes, the one has neither a box nor a ring, or it holds a box that the other
  -- does not hold, so that no scope writes into a ring that another owns.
  pub exclusive :
      (sizes : List (Int64 × Int64)) (os : List (Op T)) (i j : ℕ) (s s' : Scope T)
      → get_elem? (run zero_value sync os (unused sizes)).scopes i ≡ some s
      → get_elem? (run zero_value sync os (unused sizes)).scopes j ≡ some s'
      → i ≢ j
      → WritesApart s s'
  exclusive sizes os i j s s' at at' apart =
      let kept =
        All-get_elem? IsBacked (run zero_value sync os (unused sizes)).scopes i s at
          (run-IsBacked zero_value sync os (unused sizes) tt) in
      elim (Option-cases s.held) [
        | inl e ↦ inl (e, subst (λ o. Backed o s.ring) e kept)
        | inr (b, e) ↦ inr (b, e, λ e'. apart (held_once sizes os i j s s' b at at' e e'))
      ]

-- ===== src/Core/Lease/Rings.antt =====
-- internal/core/scope.go and pool.go together: which scopes still have a ring.
use dllog.Base.{
  ℕ, ◌≡◌, ◌||◌, not, refl, List, [], ◌∷◌, Option, some, none, inl, inr, ◌==◌, Bool-cases,
  Option-cases, get_elem?, set, All, All-set, All-get_elem?, All-append,
}
use dllog.Core.Types.{Scope, Box, BoxRef}
use dllog.Core.SyncPool.{SyncPool}
use dllog.Core.Pool.{Pool, get}
use dllog.Core.Scope as Engine
use dllog.Core.Scope.Run.{Call}
use dllog.Core.Lease.{Leases, Op, borrow, use_scope, call, borrow_from, call_at, step, run}

-- A ring that no box backs is no ring.
abbrev pub Backed : {T : Type 0} → Option BoxRef → List T → Type 0
Backed none ring = ring ≡ []
Backed (some b) ring = Unit

abbrev pub IsBacked : {T : Type 0} → Scope T → Type 0
IsBacked s = Backed s.held s.ring

set-Backed :
    {T : Type 0} (o : Option BoxRef) (ring : List T) (i : ℕ) (x : T)
    → Backed o ring
    → Backed o (set ring i x)
set-Backed none ring i x k = rw k refl
set-Backed (some b) ring i x k = tt

cleared-Backed :
    {T : Type 0} (z : T) (o : Option BoxRef) (ring : List T)
    → Backed o ring
    → Backed o (Engine.cleared z ring)
unfolding Engine.cleared
cleared-Backed z none ring k = rw k refl
cleared-Backed z (some b) ring k = tt

append-IsBacked : {T : Type 0} (s : Scope T) (x : T) → IsBacked s → IsBacked (Engine.append s x).0
unfolding Engine.append
append-IsBacked s x k = elim (Bool-cases s.closed) [
  | inl e ↦ simp e k
  | inr e ↦ elim (Bool-cases s.trip_state) [
    | inl t ↦ elim (Bool-cases (Engine.budget_spent s)) [
      | inl d ↦ simp (e, t, d) k
      | inr d ↦ simp (e, t, d) k
    ]
    | inr t ↦ elim (Bool-cases (s.length == s.capacity)) [
      | inl d ↦ simp (e, t, d) (set-Backed s.held s.ring _ x k)
      | inr d ↦ simp (e, t, d) (set-Backed s.held s.ring _ x k)
    ]
  ]
]

pass_through-IsBacked : {T : Type 0} (s : Scope T) → IsBacked s → IsBacked (Engine.pass_through s).0
unfolding Engine.pass_through
pass_through-IsBacked s k = elim (Bool-cases s.tripped) [
  | inl e ↦ elim (Bool-cases (s.closed || not s.trip_state)) [
    | inl o ↦ simp (e, o) k
    | inr o ↦ elim (Bool-cases (Engine.budget_spent s)) [
      | inl d ↦ simp (e, o, d) k
      | inr d ↦ simp (e, o, d) k
    ]
  ]
  | inr e ↦ simp e k
]

trip-IsBacked : {T : Type 0} (z : T) (s : Scope T) → IsBacked s → IsBacked (Engine.trip z s).0
unfolding Engine.trip Engine.clear_ring
trip-IsBacked z s k = elim (Bool-cases (s.closed || s.trip_state)) [
  | inl e ↦ simp e k
  | inr e ↦ rw e (cleared-Backed z s.held s.ring k)
]

module _ {T : Type 0} (zero_value : T) (sync : SyncPool (Box T)) where
  close-IsBacked :
      (s : Scope T) (pools : List (Pool zero_value sync))
      → IsBacked s
      → IsBacked (Engine.close zero_value sync s pools).0
  unfolding Engine.close Engine.clear_ring
  close-IsBacked s pools k = elim (Bool-cases s.closed) [ inl e ↦ simp e k | inr e ↦ simp e refl ]

  call-IsBacked :
      (c : Call T) (s : Scope T) (pools : List (Pool zero_value sync))
      → IsBacked s
      → IsBacked (call zero_value sync c s pools).0
  unfolding call
  call-IsBacked (Call.append x) s pools k = append-IsBacked s x k
  call-IsBacked Call.pass_through s pools k = pass_through-IsBacked s k
  call-IsBacked Call.trip s pools k = trip-IsBacked zero_value s k
  call-IsBacked Call.close s pools k = close-IsBacked s pools k
  call-IsBacked Call.len s pools k = k
  call-IsBacked Call.dropped s pools k = k
  call-IsBacked Call.tripped s pools k = k
  call-IsBacked Call.capacity s pools k = k

  step-IsBacked :
      (o : Op T) (st : Leases zero_value sync)
      → All IsBacked st.scopes
      → All IsBacked (step zero_value sync o st).scopes
  unfolding step borrow_from call_at get
  step-IsBacked (borrow ref) st k = elim (Option-cases (get_elem? st.pools ref)) [
    | inl e ↦ rw e k
    | inr (p, e) ↦ rw e (All-append IsBacked st.scopes _ k (tt, tt))
  ]
  step-IsBacked (use_scope i c) st k = elim (Option-cases (get_elem? st.scopes i)) [
    | inl e ↦ rw e k
    | inr (s, e) ↦ rw e (
        All-set IsBacked st.scopes i (call zero_value sync c s st.pools).0
          (call-IsBacked c s st.pools (All-get_elem? IsBacked st.scopes i s e k)) k)
  ]

  -- Whatever is done, a scope without a box has no ring left.
  pub run-IsBacked :
      (os : List (Op T)) (st : Leases zero_value sync)
      → All IsBacked st.scopes
      → All IsBacked (run zero_value sync os st).scopes
  unfolding run
  run-IsBacked [] st k = k
  run-IsBacked (o ∷ os) st k = run-IsBacked os (step zero_value sync o st) (step-IsBacked o st k)

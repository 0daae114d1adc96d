-- ===== src/Core/Carrier/Cases.antt =====
-- The cases of `Bind`, `MarkTripped` and `Flush`, for proofs about them.
use dllog.Base.{
  ◌≡◌, Bool, true, false, inl, inr, Option, some, none, get_elem?, Bool-cases, Option-cases,
}
use dllog.Core.Types.{Scope, Box, PoolRef}
use dllog.Core.SyncPool.{SyncPool}
use dllog.Core.Carrier.{
  Store, make_scope, bind_locked, bind, mark_tripped_locked, pre_trip, mark_tripped,
}

module _ {E O : Type 0} {sync : SyncPool (Box (Option E))} where
  pub bind_cases {κ} :
      (P : Store E O sync × Bool → Type κ) (ref : PoolRef) (st : Store E O sync)
      → (st.carrier.closed ≡ true → P (st, false))
      → ((s : Scope (Option E))
          → st.carrier.closed ≡ false
          → st.carrier.scope ≡ some s
          → P (st, true))
      → (st.carrier.closed ≡ false
          → st.carrier.scope ≡ none
          → P (make_scope ref st (get_elem? st.pools ref)))
      → P (bind ref st)
  unfolding bind bind_locked
  bind_cases P ref st done there fresh = elim (Bool-cases st.carrier.closed) [
    | inl c ↦ simp c (done c)
    | inr c ↦ elim (Option-cases st.carrier.scope) [
      | inl e ↦ simp (c, e) (fresh c e)
      | inr (s, e) ↦ simp (c, e) (there s c e)
    ]
  ]

  pub mark_tripped_cases {κ} :
      (P : Store E O sync × Bool × Bool → Type κ) (st : Store E O sync)
      → (st.carrier.closed ≡ true → P (st, false, false))
      → ((s : Scope (Option E))
          → st.carrier.closed ≡ false
          → st.carrier.scope ≡ some s
          → P (st, true, false))
      → (st.carrier.closed ≡ false
          → st.carrier.scope ≡ none
          → st.carrier.pre_tripped ≡ true
          → P (st, false, false))
      → (st.carrier.closed ≡ false
          → st.carrier.scope ≡ none
          → st.carrier.pre_tripped ≡ false
          → P (pre_trip st, false, true))
      → P (mark_tripped st)
  unfolding mark_tripped mark_tripped_locked
  mark_tripped_cases P st done there again first = elim (Bool-cases st.carrier.closed) [
    | inl c ↦ simp c (done c)
    | inr c ↦ elim (Option-cases st.carrier.scope) [
      | inr (s, e) ↦ simp (c, e) (there s c e)
      | inl e ↦ elim (Bool-cases st.carrier.pre_tripped) [
        | inl t ↦ simp (c, e, t) (again c e t)
        | inr t ↦ simp (c, e, t) (first c e t)
      ]
    ]
  ]

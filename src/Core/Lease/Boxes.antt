-- ===== src/Core/Lease/Boxes.antt =====
-- internal/core/pool.go and scope.go together: where the box of a ring is, counted.
use dllog.Base.{
  ℕ, ◌+◌, ◌≤◌, ◌≡◌, List, [], ◌∷◌, Option, some, none, inl, inr, ◌==◌, if◌then◌else◌, Bool-cases,
  Option-cases, get_elem?, length, arith, total, total-append, total-perm, total-set, total-modify,
}
use dllog.Core.Types.{Scope, Box, BoxRef, PoolRef}
use dllog.Core.SyncPool.{SyncPool}
use dllog.Core.Pool.{Pool, get, get_ring, put}
use dllog.Core.Scope as Engine
use dllog.Core.Scope.Run.{Call}
use dllog.Core.Lease.{Leases, call, borrow_from}

abbrev pub same : BoxRef → BoxRef → ℕ
same a b = if a == b then 1 else 0

abbrev pub held_is : BoxRef → Option BoxRef → ℕ
held_is b none = 0
held_is b (some h) = same h b

pub one : (b : BoxRef) → 1 ≤ same b b
one b = ground arith

append-held : {T : Type 0} (s : Scope T) (x : T) → (Engine.append s x).0.held ≡ s.held
unfolding Engine.append
append-held s x = ground arith

pass_through-held : {T : Type 0} (s : Scope T) → (Engine.pass_through s).0.held ≡ s.held
unfolding Engine.pass_through
pass_through-held s = ground arith

trip-held : {T : Type 0} (z : T) (s : Scope T) → (Engine.trip z s).0.held ≡ s.held
unfolding Engine.trip Engine.clear_ring
trip-held z s = ground arith

module _ {T : Type 0} (zero_value : T) (sync : SyncPool (Box T)) where
  -- How often the box `b` is held by a scope, and how often it lies in a pool.
  abbrev pub holds : BoxRef → Scope T → ℕ
  holds b s = held_is b s.held

  abbrev pub boxed : BoxRef → Box T → ℕ
  boxed b x = same x.ref b

  abbrev pub stored : BoxRef → Pool zero_value sync → ℕ
  stored b p = total (boxed b) (sync.items p.pool)

  get_ring-stored :
      (b fresh : BoxRef) (p : Pool zero_value sync)
      → let (x, p') = get_ring zero_value sync fresh p in
        boxed b x + stored b p' ≤ stored b p + same fresh b
  unfolding get_ring
  get_ring-stored b fresh p = elim (Option-cases (sync.get p.pool).0) [
    | inl e ↦
        let (lost, q) = sync.get-none p.pool e in
        rw e (
          omega (
            arith,
            total-perm (boxed b) q,
            total-append (boxed b) lost (sync.items (sync.get p.pool).1),
          ))
    | inr (x, e) ↦
        let (lost, q) = sync.get-some p.pool x e in
        rw e (
          omega (
            arith,
            total-perm (boxed b) q,
            total-append (boxed b) lost (sync.items (sync.get p.pool).1),
          ))
  ]

  put-stored :
      (b : BoxRef) (x : Box T) (p : Pool zero_value sync)
      → stored b (put zero_value sync (some x) p) ≤ stored b p + boxed b x
  unfolding put
  put-stored b x p = elim (Bool-cases (length x.array == p.capacity)) [
    | inl e ↦
        let (lost, q) = sync.put-items x p.pool in
        rw e (
          omega (
            arith,
            total-perm (boxed b) q,
            total-append (boxed b) lost (sync.items (sync.put x p.pool)),
          ))
    | inr e ↦ rw e (omega arith)
  ]

  -- How often it is held or lies in a pool.
  abbrev pub uses : BoxRef → List (Scope T) → List (Pool zero_value sync) → ℕ
  uses b scopes pools = total (holds b) scopes + total (stored b) pools

  give_back-stored :
      (b : BoxRef) (pool : Option PoolRef) (held : Option BoxRef) (ring : List T)
      (pools : List (Pool zero_value sync))
      → total (stored b) (Engine.give_back zero_value sync pool held ring pools)
        ≤ total (stored b) pools + held_is b held
  unfolding Engine.give_back
  give_back-stored b (some p) (some h) ring pools =
      total-modify (stored b) pools p _ (same h b) (put-stored b (record { ref = h; array = ring }))
  give_back-stored b (some p) none ring pools = omega arith
  give_back-stored b none held ring pools = omega arith

  close-uses :
      (b : BoxRef) (s : Scope T) (pools : List (Pool zero_value sync))
      → let (s', pools') = Engine.close zero_value sync s pools in
        holds b s' + total (stored b) pools' ≤ holds b s + total (stored b) pools
  unfolding Engine.close Engine.clear_ring
  close-uses b s pools = elim (Bool-cases s.closed) [
    | inl e ↦ simp e (omega arith)
    | inr e ↦
        simp e
          (omega (arith, give_back-stored b s.pool s.held (Engine.cleared zero_value s.ring) pools))
  ]

  pub call-uses :
      (b : BoxRef) (c : Call T) (s : Scope T) (pools : List (Pool zero_value sync))
      → let (s', pools') = call zero_value sync c s pools in
        holds b s' + total (stored b) pools' ≤ holds b s + total (stored b) pools
  unfolding call
  call-uses b (Call.append x) s pools = rw (append-held s x) (omega arith)
  call-uses b Call.pass_through s pools = rw (pass_through-held s) (omega arith)
  call-uses b Call.trip s pools = rw (trip-held zero_value s) (omega arith)
  call-uses b Call.close s pools = close-uses b s pools
  call-uses b Call.len s pools = omega arith
  call-uses b Call.dropped s pools = omega arith
  call-uses b Call.tripped s pools = omega arith
  call-uses b Call.capacity s pools = omega arith

  pub borrow-uses :
      (b : BoxRef) (ref : PoolRef) (p : Pool zero_value sync) (st : Leases zero_value sync)
      → get_elem? st.pools ref ≡ some p
      → let st' = borrow_from zero_value sync ref (some p) st in
        uses b st'.scopes st'.pools ≤ uses b st.scopes st.pools + same st.next_box b
  unfolding borrow_from get
  borrow-uses b ref p st at =
      let (x, p') = get_ring zero_value sync st.next_box p in
      omega (
        arith,
        total-append (holds b) st.scopes ((get zero_value sync ref st.next_box p).0 ∷ []),
        total-set (stored b) st.pools ref p' p at,
        get_ring-stored b st.next_box p,
      )

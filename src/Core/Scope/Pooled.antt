-- ===== src/Core/Scope/Pooled.antt =====
-- A scope made from a pool against one made by `NewScope`, and the pools after `Close`.
use dllog.Base.{
  ◌==◌, int_half, length-replicate, arith, ◌≤◌, false, ◌<◌, ◌≡◌, refl, ap, ◌∙◌, Int64, Bool-cases,
  inl, inr, Option, List, [], ◌∷◌, some, none, length, replicate, All, All-modify,
}
use dllog.Core.Types.{Scope, Box, BoxRef, PoolRef, norm_capacity, norm_limit}
use dllog.Core.SyncPool.{SyncPool}
use dllog.Core.Pool.{put, Pool, new_scope_pool, get}
use dllog.Core.Pool.Recycle.{IsMade, IsZeroed, get_ring-IsZeroed, put-IsZeroed}
use dllog.Core.Scope.Index.{max_capacity}
use dllog.Core.Scope.Inv.{IsValid}
use dllog.Core.Scope.{new_scope, cleared, clear_ring, close, give_back}

module _ {ℓ} {T : Type ℓ} (zero_value : T) (sync : SyncPool (Box T)) where
  -- What `NewScopePool capacity limit` leaves for good.
  pub record IsPoolOf (capacity limit : Int64) (p : Pool zero_value sync) : Type ℓ where
    pub sized : p.capacity ≡ norm_capacity capacity
    pub bounded : p.post_trip_limit ≡ norm_limit limit
    pub zeroed : IsZeroed zero_value sync p

  pub new_scope_pool-IsPoolOf :
      (capacity limit : Int64)
      → IsPoolOf capacity limit (new_scope_pool zero_value sync capacity limit)
  unfolding new_scope_pool
  new_scope_pool-IsPoolOf capacity limit = record {
    sized = refl;
    bounded = refl;
    zeroed = rw sync.items-empty tt;
  }

  -- A scope from a pool that `NewScopePool` made is the one that `NewScope` makes of the same
  -- arguments, but for the pool and the box that it goes back to, whether its ring is new or
  -- recycled; the pool keeps what makes this so.
  pub get-new_scope :
      (capacity limit : Int64) (self : PoolRef) (fresh : BoxRef) (p : Pool zero_value sync)
      → IsPoolOf capacity limit p
      → let (s, p') = get zero_value sync self fresh p in
        (s ≡ record (new_scope zero_value capacity limit) { pool = some self; held = s.held })
        × IsPoolOf capacity limit p'
  unfolding get new_scope
  get-new_scope capacity limit self fresh p good =
      let (made, zeroed, sized, bounded) = get_ring-IsZeroed zero_value sync fresh p good.zeroed in
      (
        cc (good.sized, good.bounded, made),
        record { sized = sized ∙ good.sized; bounded = bounded ∙ good.bounded; zeroed = zeroed },
      )

  pub cleared-replicate :
      (ring : List T)
      → cleared zero_value ring ≡ replicate (length (cleared zero_value ring)) zero_value
  unfolding cleared
  cleared-replicate [] = refl
  cleared-replicate (x ∷ xs) = ap (◌∷◌ zero_value) (cleared-replicate xs)

  -- What a scope made from the pool needs of it.
  pub record PoolFits (p : Pool zero_value sync) : Type ℓ where
    pub positive : 0 < p.capacity
    pub small : p.capacity ≤ max_capacity
    pub bounded : p.post_trip_limit < int_half
    pub zeroed : IsZeroed zero_value sync p

  -- `Get` makes a valid, open, untripped scope, and the pool stays fit.
  pub get-PoolFits :
      (self : PoolRef) (fresh : BoxRef) (p : Pool zero_value sync)
      → PoolFits p
      → let (s, p') = get zero_value sync self fresh p in
        IsValid s × (s.closed ≡ false) × PoolFits p'
  unfolding get
  get-PoolFits self fresh p fit =
      let (made, zeroed, sized, bounded) = get_ring-IsZeroed zero_value sync fresh p fit.zeroed in
      (
        record {
          positive = fit.positive;
          small = fit.small;
          start_in = fit.positive;
          len_in = omega arith;
          whole = λ _. ap length made ∙ length-replicate p.capacity zero_value;
          detached = λ e. cc;
          mirrored = refl;
          emptied = λ _. refl;
          limit_in = fit.bounded;
          within = λ _. omega arith;
          unspent = λ _. refl;
        },
        refl,
        record {
          positive = rw sized fit.positive;
          small = rw sized fit.small;
          bounded = rw bounded fit.bounded;
          zeroed = zeroed;
        },
      )

  pub put-sizes :
      (held : Box T) (p : Pool zero_value sync)
      → let q = put zero_value sync (some held) p in
        (q.capacity ≡ p.capacity) × (q.post_trip_limit ≡ p.post_trip_limit)
  unfolding put
  put-sizes held p = elim (Bool-cases (length held.array == p.capacity)) [
    | inl fits ↦ rw fits (refl, refl)
    | inr odd ↦ rw odd (refl, refl)
  ]

  pub put-PoolFits :
      (held : Box T) (p : Pool zero_value sync)
      → IsMade zero_value sync (length held.array) held
      → PoolFits p
      → PoolFits (put zero_value sync (some held) p)
  put-PoolFits held p clean fit =
      let (sized, bounded) = put-sizes held p in
      record {
        positive = rw sized fit.positive;
        small = rw sized fit.small;
        bounded = rw bounded fit.bounded;
        zeroed = put-IsZeroed zero_value sync held p clean fit.zeroed;
      }

  give_back-PoolFits :
      (pool : Option PoolRef) (held : Option BoxRef) (ring : List T)
      (pools : List (Pool zero_value sync))
      → All PoolFits pools
      → All PoolFits (give_back zero_value sync pool held (cleared zero_value ring) pools)
  unfolding give_back
  give_back-PoolFits (some p) (some held) ring pools good =
      All-modify PoolFits pools p _ (λ q fit. put-PoolFits _ q (cleared-replicate ring) fit) good
  give_back-PoolFits (some p) none ring pools good = good
  give_back-PoolFits none held ring pools good = good

  -- If every pool is fit, its sizes in bounds and all its rings zeroed and of its size, then
  -- every pool is so after a scope is closed, whatever the scope held.
  pub close-PoolFits :
      (s : Scope T) (pools : List (Pool zero_value sync))
      → All PoolFits pools
      → All PoolFits (close zero_value sync s pools).1
  unfolding close clear_ring
  close-PoolFits s pools good = elim (Bool-cases s.closed) [
    | inl done ↦ rw done good
    | inr live ↦ rw live (give_back-PoolFits s.pool s.held s.ring pools good)
  ]

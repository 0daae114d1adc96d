-- ===== src/Core/Pool/Recycle.antt =====
-- internal/core/pool.go: the rings that a pool holds, against those that `make` builds.
use dllog.Base.{
  ◌≡◌, refl, ap, ◌∙◌, Int64, some, inl, inr, ◌==◌, length, replicate, eq_of_==, Option-cases,
  Bool-cases, All,
}
use dllog.Core.Types.{Box, BoxRef}
use dllog.Core.SyncPool.{SyncPool, All-get_some, All-get_none, All-put}
use dllog.Core.Pool.{Pool, get_ring, put}

module _ {ℓ} {T : Type ℓ} (zero_value : T) (sync : SyncPool (Box T)) where
  abbrev pub IsMade : Int64 → Box T → Type ℓ
  IsMade capacity b = b.array ≡ replicate capacity zero_value

  -- Every ring that the pool may hand out is as `make` would build it.
  abbrev pub IsZeroed : Pool zero_value sync → Type ℓ
  IsZeroed p = All (IsMade p.capacity) (sync.items p.pool)

  pub get_ring-IsZeroed :
      (fresh : BoxRef) (p : Pool zero_value sync)
      → IsZeroed p
      → let (held, p') = get_ring zero_value sync fresh p in
        IsMade p.capacity held
        × IsZeroed p'
        × (p'.capacity ≡ p.capacity)
        × (p'.post_trip_limit ≡ p.post_trip_limit)
  unfolding get_ring
  get_ring-IsZeroed fresh p z = elim (Option-cases (sync.get p.pool).0) [
    | inl e ↦ rw e (refl, All-get_none sync (IsMade p.capacity) p.pool e z, refl, refl)
    | inr (b, e) ↦
        let (made, rest) = All-get_some sync (IsMade p.capacity) p.pool b e z in
        rw e (made, rest, refl, refl)
  ]

  -- `put` keeps the pool so, if what it is given has been cleared.
  pub put-IsZeroed :
      (held : Box T) (p : Pool zero_value sync)
      → IsMade (length held.array) held
      → IsZeroed p
      → IsZeroed (put zero_value sync (some held) p)
  unfolding put
  put-IsZeroed held p clean z = elim (Bool-cases (length held.array == p.capacity)) [
    | inl fits ↦ rw fits (
        All-put sync (IsMade p.capacity) p.pool held
          (clean ∙ ap (λ n. replicate n zero_value) (eq_of_== _ _ fits)) z)
    | inr odd ↦ rw odd z
  ]

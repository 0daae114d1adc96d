-- ===== src/Core/Scope/Budget.antt =====
-- How many entries a tripped scope lets through, and what a closed one does.
use dllog.Base.{
  sym, ◌∙◌, ap, ℕ, suc, ◌-◌, ◌≡◌, min, true, false, List, [], ◌∷◌, ◌++◌, ◌==◌, if◌then◌else◌,
  length, replicate, arith,
}
use dllog.Core.Types.{Action, Scope, Box}
use dllog.Core.SyncPool.{SyncPool}
use dllog.Core.Pool.{Pool}
use dllog.Core.Scope.{append, pass_through, trip, close, clear_ring}
use dllog.Core.Scope.Inv.{IsValid, append-IsValid, pass_through-IsValid}

-- An entry offered to a scope: below the level, by `Append`, or above it, by `PassThrough`.
pub data Offer (T : Type 0) : Type 0 where
  below : T → Offer T
  above : Offer T

abbrev pub passes_first : ℕ → ℕ → List Action
passes_first k n = replicate k Action.pass_through ++ replicate (n - k) Action.suppressed

passes_first-pass :
    (k k' n : ℕ) → k ≡ suc k' → passes_first k (suc n) ≡ Action.pass_through ∷ passes_first k' n
passes_first-pass k k' n e =
    ap (λ j. passes_first j (suc n)) e
    ∙ ap
        (λ j.
          Action.pass_through ∷ (replicate k' Action.pass_through ++ replicate j Action.suppressed))
        (omega arith)

passes_first-suppress :
    (k k' n : ℕ) → k ≡ 0 → k' ≡ 0 → passes_first k (suc n) ≡ Action.suppressed ∷ passes_first k' n
passes_first-suppress k k' n e e' =
    ap (λ j. passes_first j (suc n)) e
    ∙ ap (λ j. replicate j Action.suppressed) all_left
    ∙ ap (λ j. Action.suppressed ∷ passes_first j n) (sym e')
  where
    all_left : suc n - 0 ≡ suc (n - 0)
    all_left = omega arith

module _ {T : Type 0} where
  pub offer : Scope T → Offer T → Scope T × Action
  offer s (below x) = append s x
  offer s above = pass_through s

  unfoldable pub run_offers : List (Offer T) → Scope T → List Action
  unfolding offer
  run_offers [] s = []
  run_offers (o ∷ os) s = (offer s o).1 ∷ run_offers os (offer s o).0

  -- The entries of `n` that still pass.
  abbrev pub passing_of : Scope T → ℕ → ℕ
  passing_of s n = if s.limit == 0 then n else min n (s.limit - s.post_trip)

  -- On a valid scope that has tripped and is open, the first offers pass, up to what is left of
  -- the limit, and all that follow are dropped, in whatever order entries below and above the
  -- level arrive; with no limit all pass.
  pub run_offers-passes :
      (os : List (Offer T)) (s : Scope T)
      → IsValid s
      → s.trip_state ≡ true
      → s.closed ≡ false
      → run_offers os s ≡ passes_first (passing_of s (length os)) (length os)
  unfolding run_offers offer append pass_through
  run_offers-passes [] s v t c = ground arith
  run_offers-passes (below x ∷ os) s v t c =
      let s' = (append s x).0 in
      ground (
        arith,
        run_offers-passes os s' (append-IsValid s x v),
        passes_first-pass (passing_of s (suc (length os))) (passing_of s' (length os)) (length os),
        passes_first-suppress (passing_of s (suc (length os))) (passing_of s' (length os))
            (length os),
      )
  run_offers-passes (above ∷ os) s v t c =
      let s' = (pass_through s).0 in
      ground (
        arith,
        run_offers-passes os s' (pass_through-IsValid s v),
        passes_first-pass (passing_of s (suc (length os))) (passing_of s' (length os)) (length os),
        passes_first-suppress (passing_of s (suc (length os))) (passing_of s' (length os))
            (length os),
      )

module _ {T : Type 0} (zero_value : T) (sync : SyncPool (Box T)) where
  -- After `Close` a scope drops what `Append` is given, lets through what `PassThrough` is
  -- asked, has nothing for `Trip` to flush, and none of these calls, nor a second `Close`,
  -- changes it or the pools.
  pub close_permanent :
      (s : Scope T) (pools : List (Pool zero_value sync)) (x : T)
      → let (s', pools') = close zero_value sync s pools in
        (append s' x ≡ (s', Action.suppressed))
        × (pass_through s' ≡ (s', Action.pass_through))
        × (trip zero_value s' ≡ (s', [], 0, false))
        × (close zero_value sync s' pools' ≡ (s', pools'))
  unfolding append pass_through trip close clear_ring
  close_permanent s pools x = ground arith

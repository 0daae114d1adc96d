-- ===== src/Core/Log.antt =====
-- What internal/core/scope.go promises of a scope, without the ring, the indices and the flags: a
-- bounded log of entries, flushed at most once, then a budget of entries let through.
use dllog.Base.{
  ◌≡◌, refl, ℕ, zero, suc, Int64, add_int, Bool, true, false, List, [], ◌∷◌, ◌++◌, Option, some,
  none, ◌==◌, if◌then◌else◌, length, tail,
}
use dllog.Core.Types.{Action}

pub data Phase {ℓ} (T : Type ℓ) : Type ℓ where
  -- the entries withheld, oldest first
  buffering : List T → Phase T
  -- tripped: the entries that may still pass, `none` for no bound
  passing : Option ℕ → Phase T
  -- closed; whether the scope had tripped before
  released : Bool → Phase T

pub record Log {ℓ} (T : Type ℓ) : Type ℓ where
  pub capacity : ℕ
  pub budget : Option ℕ
  pub dropped : Int64
  pub phase : Phase T

-- An entry offered under a budget.
abbrev pub spend : Option ℕ → Option ℕ × Action
spend none = (none, Action.pass_through)
spend (some zero) = (some zero, Action.suppressed)
spend (some (suc n)) = (some n, Action.pass_through)

module _ {ℓ} {T : Type ℓ} where
  abbrev spend_on : Log T → Option ℕ × Action → Log T × Action
  spend_on l (left, a) = (record l { phase = passing left }, a)

  append_at : Log T → Phase T → T → Log T × Action
  append_at l (buffering xs) x =
      if length xs == l.capacity
      then (
        record l { dropped = add_int l.dropped 1; phase = buffering (tail xs ++ (x ∷ [])) },
        Action.buffered,
      )
      else (record l { phase = buffering (xs ++ (x ∷ [])) }, Action.buffered)
  append_at l (passing left) x = spend_on l (spend left)
  append_at l (released t) x = (l, Action.suppressed)

  unfoldable pub append : Log T → T → Log T × Action
  unfolding append_at
  append l x = append_at l l.phase x

  pass_through_at : Log T → Phase T → Log T × Action
  pass_through_at l (buffering xs) = (l, Action.pass_through)
  pass_through_at l (passing left) = spend_on l (spend left)
  pass_through_at l (released t) = (l, Action.pass_through)

  -- An entry that is emitted on the spot or dropped, never withheld.
  unfoldable pub pass_through : Log T → Log T × Action
  unfolding pass_through_at
  pass_through l = pass_through_at l l.phase

  trip_at : Log T → Phase T → Log T × List T × Int64 × Bool
  trip_at l (buffering xs) = (record l { phase = passing l.budget }, xs, l.dropped, true)
  trip_at l (passing left) = (l, [], 0, false)
  trip_at l (released t) = (l, [], 0, false)

  unfoldable pub trip : Log T → Log T × List T × Int64 × Bool
  unfolding trip_at
  trip l = trip_at l l.phase

  abbrev pub phase_tripped : Phase T → Bool
  phase_tripped (buffering xs) = false
  phase_tripped (passing left) = true
  phase_tripped (released t) = t

  abbrev pub phase_len : Phase T → ℕ
  phase_len (buffering xs) = length xs
  phase_len (passing left) = 0
  phase_len (released t) = 0

  unfoldable pub close : Log T → Log T
  close l = record l { phase = released (phase_tripped l.phase) }

-- What a log does under a budget, and at its flush.
module _ {ℓ} {T : Type ℓ} (l : Log T) where
  pub append-passing :
      (b : Option ℕ) (x : T)
      → l.phase ≡ passing b
      → append l x ≡ (record l { phase = passing (spend b).0 }, (spend b).1)
  unfolding append
  append-passing b x e = simp e refl

  pub pass_through-passing :
      (b : Option ℕ)
      → l.phase ≡ passing b
      → pass_through l ≡ (record l { phase = passing (spend b).0 }, (spend b).1)
  unfolding pass_through
  pass_through-passing b e = simp e refl

  pub trip-buffering :
      (xs : List T) → l.phase ≡ buffering xs → (trip l).0 ≡ record l { phase = passing l.budget }
  unfolding trip
  trip-buffering xs e = simp e refl

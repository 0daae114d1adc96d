-- ===== src/Slog/View.antt =====
-- scope.go: the slog adapter's view of the shared ring. `R` stands for `*core.Scope`, and a `*ring`
-- is the scope that it wraps.
use dllog.Base.{◌≡◌, refl, ap, List, [], ◌∷◌, Option, some, none, All, ◌⊎◌, inl, inr}

module _ {R : Type 0} where
  -- `typed`, on what `viewOnce` has kept: the kept view, and the view that is returned.
  unfoldable pub typed : Option R → R → Option R × R
  typed none scope = (some scope, scope)
  typed (some view) scope = (some view, view)

  -- `bind` and `bound`, on what the carrier's `Bind` or `Bound` answers.
  unfoldable pub view_of : Option R → Option R → Option R × Option R
  unfolding typed
  view_of view none = (view, none)
  view_of view (some scope) = let (view', r) = typed view scope in (view', some r)

  -- The views that the calls on one carrier return, by what the core answers to each.
  unfoldable pub views : Option R → List (Option R) → List (Option R)
  views view [] = []
  views view (o ∷ os) = let (view', r) = view_of view o in r ∷ views view' os

  -- Nil, or the carrier's one scope.
  abbrev pub IsOf : R → Option R → Type 0
  IsOf scope o = (o ≡ none) ⊎ (o ≡ some scope)

  views-kept :
      (scope : R) (view : Option R) (os : List (Option R))
      → IsOf scope view
      → All (IsOf scope) os
      → views view os ≡ os
  unfolding views view_of typed
  views-kept scope view [] k h = refl
  views-kept scope view (o ∷ os) k (inl e, h) = rw e (ap (◌∷◌ none) (views-kept scope view os k h))
  views-kept scope view (o ∷ os) (inl e) (inr e', h) =
      rw (e, e') (ap (◌∷◌ (some scope)) (views-kept scope (some scope) os (inr refl) h))
  views-kept scope view (o ∷ os) (inr e) (inr e', h) =
      rw (e, e') (ap (◌∷◌ (some scope)) (views-kept scope (some scope) os (inr refl) h))

  -- If the core answers every call on the carrier with nil or with one scope, as it does, then
  -- each call of the adapter returns a view of what the core answered, and nil for nil.
  pub views-transparent :
      (scope : R) (os : List (Option R)) → All (IsOf scope) os → views none os ≡ os
  views-transparent scope os h = views-kept scope none os (inl refl) h

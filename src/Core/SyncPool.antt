-- ===== src/Core/SyncPool.antt =====
-- What internal/core/pool.go uses of `sync.Pool`, by its documentation: `Get` selects an arbitrary
-- item, removes it and returns it, or ignores the pool; any item may be dropped at any time.
use mathlib.Core.List.{Permᴰ}
use mathlib.Core.List.Permᴰ
use mathlib.Core.Option.{some-injective}
use dllog.Base.{
  ◌≡◌, refl, List, [], ◌∷◌, ◌++◌, Option, some, none, subst, All, All-perm, All-append_right,
}

pub record SyncPool {ℓ} (A : Type ℓ) : Type (ℓ + 1) where
  pub State : Type ℓ
  pub empty : State
  pub items : State → List A
  pub get : State → Option A × State
  pub put : A → State → State
  pub items-empty : items empty ≡ []
  pub get-some :
      (s : State) (a : A)
      → (get s).0 ≡ some a
      → (lost : List A) × Permᴰ (items s) (a ∷ (lost ++ items (get s).1))
  pub get-none :
      (s : State) → (get s).0 ≡ none → (lost : List A) × Permᴰ (items s) (lost ++ items (get s).1)
  pub put-items :
      (a : A) (s : State) → (lost : List A) × Permᴰ (a ∷ items s) (lost ++ items (put a s))

-- What holds of all items of a pool holds of what `Get` returns, and of those that stay.
module _ {ℓ κ} {A : Type ℓ} (sync : SyncPool A) (P : A → Type κ) (s : sync.State) where
  pub All-get_some :
      (a : A)
      → (sync.get s).0 ≡ some a
      → All P (sync.items s)
      → P a × All P (sync.items (sync.get s).1)
  All-get_some a e h =
      let (lost, p) = sync.get-some s a e in
      let all = All-perm P p h in (all.0, All-append_right P lost _ all.1)

  pub All-get_none :
      (sync.get s).0 ≡ none → All P (sync.items s) → All P (sync.items (sync.get s).1)
  All-get_none e h = let (lost, p) = sync.get-none s e in All-append_right P lost _ (All-perm P p h)

  pub All-put : (a : A) → P a → All P (sync.items s) → All P (sync.items (sync.put a s))
  All-put a pa h =
      let (lost, p) = sync.put-items a s in All-append_right P lost _ (All-perm P p (pa, h))

-- A stack that drops no item meets the interface.
module _ {ℓ} {A : Type ℓ} where
  abbrev pub pop : List A → Option A × List A
  pop [] = (none, [])
  pop (x ∷ xs) = (some x, xs)

  pub pop-some :
      (s : List A) (a : A)
      → (pop s).0 ≡ some a
      → (lost : List A) × Permᴰ s (a ∷ (lost ++ (pop s).1))
  pop-some [] a e = cc
  pop-some (x ∷ xs) a e =
      ([], subst (λ y. Permᴰ (x ∷ xs) (y ∷ xs)) (some-injective x a e) (Permᴰ.refl (x ∷ xs)))

  pub pop-none : (s : List A) → (pop s).0 ≡ none → (lost : List A) × Permᴰ s (lost ++ (pop s).1)
  pop-none [] e = ([], Permᴰ.refl _)
  pop-none (x ∷ xs) e = cc

abbrev pub stack_pool {ℓ} : (A : Type ℓ) → SyncPool A
stack_pool A = record {
  State = List A;
  empty = [];
  items = λ s. s;
  get = pop;
  put = ◌∷◌;
  items-empty = refl;
  get-some = pop-some;
  get-none = pop-none;
  put-items = λ a s. ([], Permᴰ.refl _);
}

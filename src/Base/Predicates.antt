-- ===== src/Base/Predicates.antt =====
-- A predicate at every item of a list.
use mathlib.Core.Path.{◌≡◌, subst, refl, sym}
use mathlib.Core.List.{List, [], ◌∷◌, ◌++◌, Permᴰ}
use Prim.Native.Nat.{ℕ, zero, suc}
use mathlib.Core.Option.{some, some-injective}
use dllog.Base.Lists.{modify, set, get_elem?}

abbrev pub All {ℓ κ} : {A : Type ℓ} → (A → Type κ) → List A → Type κ
All P [] = Unit
All P (x ∷ xs) = P x × All P xs

module _ {ℓ κ} {A : Type ℓ} (P : A → Type κ) where
  pub All-perm : {xs ys : List A} → Permᴰ xs ys → All P xs → All P ys
  All-perm Permᴰ.nil h = h
  All-perm (Permᴰ.cons e p) h = (subst P e h.0, All-perm p h.1)
  All-perm (Permᴰ.swap e f) h = (subst P f h.1.0, (subst P e h.0, h.1.1))
  All-perm (Permᴰ.trans p q) h = All-perm q (All-perm p h)

  pub All-append_left : (xs ys : List A) → All P (xs ++ ys) → All P xs
  All-append_left [] ys h = tt
  All-append_left (x ∷ xs) ys h = (h.0, All-append_left xs ys h.1)

  pub All-append_right : (xs ys : List A) → All P (xs ++ ys) → All P ys
  All-append_right [] ys h = h
  All-append_right (x ∷ xs) ys h = All-append_right xs ys h.1

  pub All-append : (xs ys : List A) → All P xs → All P ys → All P (xs ++ ys)
  All-append [] ys hx hy = hy
  All-append (x ∷ xs) ys hx hy = (hx.0, All-append xs ys hx.1 hy)

  pub All-modify :
      (xs : List A) (i : ℕ) (f : A → A)
      → ((x : A) → P x → P (f x))
      → All P xs
      → All P (modify xs i f)
  All-modify [] i f keep h = h
  All-modify (x ∷ xs) zero f keep h = (keep x h.0, h.1)
  All-modify (x ∷ xs) (suc i) f keep h = (h.0, All-modify xs i f keep h.1)

  pub All-set : (xs : List A) (i : ℕ) (x : A) → P x → All P xs → All P (set xs i x)
  All-set [] i x px h = h
  All-set (y ∷ xs) zero x px h = (px, h.1)
  All-set (y ∷ xs) (suc i) x px h = (h.0, All-set xs i x px h.1)

  pub All-get_elem? : (xs : List A) (i : ℕ) (x : A) → get_elem? xs i ≡ some x → All P xs → P x
  All-get_elem? [] i x e h = cc
  All-get_elem? (y ∷ xs) zero x e h = subst P (some-injective y x e) h.0
  All-get_elem? (y ∷ xs) (suc i) x e h = All-get_elem? xs i x e h.1

pub All-imp {ℓ κ κ'} :
    {A : Type ℓ} {P : A → Type κ} {Q : A → Type κ'} (xs : List A)
    → ((x : A) → P x → Q x)
    → All P xs
    → All Q xs
All-imp [] f h = tt
All-imp (x ∷ xs) f h = (f x h.0, All-imp xs f h.1)

-- The cell at an index is there, and satisfies a predicate.
module _ {ℓ κ} {A : Type ℓ} (P : A → Type κ) where
  abbrev pub At : List A → ℕ → Type (ℓ ⊔ κ)
  At xs i = (x : A) × (get_elem? xs i ≡ some x) × P x

  pub At-set :
      (xs : List A) (i j : ℕ) (v : A)
      → ((x : A) → get_elem? xs i ≡ some x → P x → P v)
      → At xs j
      → At (set xs i v) j
  At-set [] i j v keep (x, e, px) = cc
  At-set (y ∷ xs) zero zero v keep (x, e, px) = (v, refl, keep x e px)
  At-set (y ∷ xs) zero (suc j) v keep h = h
  At-set (y ∷ xs) (suc i) zero v keep h = h
  At-set (y ∷ xs) (suc i) (suc j) v keep h = At-set xs i j v keep h

  pub At-modify :
      (xs : List A) (i j : ℕ) (f : A → A)
      → ((x : A) → P x → P (f x))
      → At xs j
      → At (modify xs i f) j
  At-modify [] i j f keep h = h
  At-modify (y ∷ xs) zero zero f keep (x, e, px) =
      (f y, refl, keep y (subst P (sym (some-injective y x e)) px))
  At-modify (y ∷ xs) zero (suc j) f keep h = h
  At-modify (y ∷ xs) (suc i) zero f keep h = h
  At-modify (y ∷ xs) (suc i) (suc j) f keep h = At-modify xs i j f keep h

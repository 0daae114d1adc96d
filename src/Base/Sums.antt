-- ===== src/Base/Sums.antt =====
-- Sums over lists, for counting.
use Prim.Native.Nat.{ℕ, zero, suc, ◌+◌, ◌≤◌}
use mathlib.Core.Path.{◌≡◌, refl, ap, ◌∙◌}
use mathlib.Core.Option.{some, some-injective}
use mathlib.Core.List.{List, [], ◌∷◌, ◌++◌, Permᴰ}
use native.Mathlib.Omega.{arith}
use dllog.Base.Lists.{set, modify, get_elem?}

abbrev pub total {ℓ} : {A : Type ℓ} → (A → ℕ) → List A → ℕ
total f [] = 0
total f (x ∷ xs) = f x + total f xs

module _ {ℓ} {A : Type ℓ} (f : A → ℕ) where
  pub total-append : (xs ys : List A) → total f (xs ++ ys) ≡ total f xs + total f ys
  total-append [] ys = omega arith
  total-append (x ∷ xs) ys = omega (arith, total-append xs ys)

  pub total-perm : {xs ys : List A} → Permᴰ xs ys → total f xs ≡ total f ys
  total-perm Permᴰ.nil = refl
  total-perm (Permᴰ.cons e p) = omega (arith, ap f e, total-perm p)
  total-perm (Permᴰ.swap e g) = omega (arith, ap f e, ap f g)
  total-perm (Permᴰ.trans p q) = total-perm p ∙ total-perm q

  pub total-set :
      (xs : List A) (i : ℕ) (v y : A)
      → get_elem? xs i ≡ some y
      → total f (set xs i v) + f y ≡ total f xs + f v
  total-set [] i v y e = cc
  total-set (x ∷ xs) zero v y e = omega (arith, ap f (some-injective x y e))
  total-set (x ∷ xs) (suc i) v y e = omega (arith, total-set xs i v y e)

  pub total-modify :
      (xs : List A) (i : ℕ) (g : A → A) (c : ℕ)
      → ((x : A) → f (g x) ≤ f x + c)
      → total f (modify xs i g) ≤ total f xs + c
  total-modify [] i g c h = omega arith
  total-modify (x ∷ xs) zero g c h = omega (arith, h x)
  total-modify (x ∷ xs) (suc i) g c h = omega (arith, total-modify xs i g c h)

  pub total-get_elem? : (xs : List A) (i : ℕ) (x : A) → get_elem? xs i ≡ some x → f x ≤ total f xs
  total-get_elem? [] i x e = cc
  total-get_elem? (y ∷ xs) zero x e = omega (arith, ap f (some-injective y x e))
  total-get_elem? (y ∷ xs) (suc i) x e = omega (arith, total-get_elem? xs i x e)

  -- Two cells that count are one, if the sum is at most one.
  pub total-one :
      (xs : List A) (i j : ℕ) (x y : A)
      → get_elem? xs i ≡ some x
      → get_elem? xs j ≡ some y
      → 1 ≤ f x
      → 1 ≤ f y
      → total f xs ≤ 1
      → i ≡ j
  total-one [] i j x y e e' a b t = cc
  total-one (z ∷ xs) zero zero x y e e' a b t = refl
  total-one (z ∷ xs) zero (suc j) x y e e' a b t =
      absurd (omega (arith, ap f (some-injective z x e), total-get_elem? xs j y e', a, b, t))
  total-one (z ∷ xs) (suc i) zero x y e e' a b t =
      absurd (omega (arith, ap f (some-injective z y e'), total-get_elem? xs i x e, a, b, t))
  total-one (z ∷ xs) (suc i) (suc j) x y e e' a b t =
      ap suc (total-one xs i j x y e e' a b (omega (arith, t)))

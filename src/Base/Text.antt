-- ===== src/Base/Text.antt =====
-- Byte strings, and searching in them.
use Prim.Native.Nat.{ℕ, zero, suc, ◌+◌}
use Prim.Native.Char.{code}
use Prim.Native.String.{String}
use mathlib.Core.Path.{◌≡◌, ◌∙◌, refl, sym, ap}
use mathlib.Core.Logic.{inl, inr}
use mathlib.Core.List.{List, [], ◌∷◌, ◌++◌}
use mathlib.Core.Option.{Option, none, some}
use native.Mathlib.Omega.{arith}
use dllog.Base.Tests.{Option-cases, ◌==◌, if◌then◌else◌}
use dllog.Base.Lists.{length, drop}

abbrev pub Bytes : Type 0
Bytes = List ℕ

-- The code points of a text: its bytes, if it is ASCII.
abbrev pub codes : String → Bytes
codes String.[] = []
codes (String.◌∷◌ c s) = code c ∷ codes s

abbrev pub take {ℓ} : {A : Type ℓ} → ℕ → List A → List A
take zero xs = []
take (suc n) [] = []
take (suc n) (x ∷ xs) = x ∷ take n xs

-- What follows `t` at the head of a text that begins with it.
abbrev pub after : Bytes → Bytes → Option Bytes
after [] p = some p
after (c ∷ t) [] = none
after (c ∷ t) (d ∷ p) = if c == d then after t p else none

abbrev shift : Option ℕ → Option ℕ
shift none = none
shift (some i) = some (suc i)

abbrev index_at : Option Bytes → Option ℕ → Option ℕ
index_at none rest = shift rest
index_at (some p) rest = some 0

-- `bytes.Index`: where `t` first begins; -1 is `none`.
unfoldable pub index : Bytes → Bytes → Option ℕ
index t [] = index_at (after t []) none
index t (c ∷ p) = index_at (after t (c ∷ p)) (index t p)

after-append : (t p q : Bytes) → after t p ≡ some q → p ≡ t ++ q
after-append [] p q e = cc
after-append (c ∷ t) [] q e = cc
after-append (c ∷ t) (d ∷ p) q e = ground (arith, after-append t p q)

drop-nil : (n : ℕ) → ◌≡◌ {A = Bytes} [] (drop n [])
drop-nil zero = refl
drop-nil (suc n) = refl

drop-drop : (i n : ℕ) (p : Bytes) → drop (i + n) p ≡ drop n (drop i p)
drop-drop zero n p = let e : 0 + n ≡ n = omega arith in rw e refl
drop-drop (suc i) n [] = let e : suc i + n ≡ suc (i + n) = omega arith in rw e (drop-nil n)
drop-drop (suc i) n (c ∷ p) =
    let e : suc i + n ≡ suc (i + n) = omega arith in rw e (drop-drop i n p)

drop_length-append : (t q : Bytes) → drop (length t) (t ++ q) ≡ q
drop_length-append [] q = refl
drop_length-append (c ∷ t) q = drop_length-append t q

parts_here :
    (t p q : Bytes) (i : ℕ)
    → after t p ≡ some q
    → i ≡ 0
    → p ≡ take i p ++ (t ++ drop (length t) (drop i p))
parts_here t p q i found e =
    let whole = after-append t p q found in
    rw e (whole ∙ ap (λ r. t ++ r) (sym (ap (drop (length t)) whole ∙ drop_length-append t q)))

parts :
    (t p : Bytes) (i : ℕ) → index t p ≡ some i → p ≡ take i p ++ (t ++ drop (length t) (drop i p))
unfolding index
parts t [] i e = elim (Option-cases (after t [])) [
  | inl absent ↦ cc (absent, e)
  | inr (q, found) ↦ parts_here t [] q i found (ground (arith, found, e))
]
parts t (c ∷ p) i e = elim (Option-cases (after t (c ∷ p))) [
  | inr (q, found) ↦ parts_here t (c ∷ p) q i found (ground (arith, found, e))
  | inl absent ↦ elim (Option-cases (index t p)) [
    | inl nowhere ↦ cc (absent, nowhere, e)
    | inr (j, later) ↦
        let at : i ≡ suc j = ground (arith, absent, later, e) in
        rw at (ap (◌∷◌ c) (parts t p j later))
  ]
]

-- The parts of a text where `t` was found.
pub index-parts :
    (t p : Bytes) (i : ℕ) → index t p ≡ some i → p ≡ take i p ++ (t ++ drop (i + length t) p)
index-parts t p i e = rw (drop-drop i (length t) p) (parts t p i e)

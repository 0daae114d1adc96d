-- ===== src/Core/Scope/Window.antt =====
-- What `read_ring` reads before and after a write by `append`.
use mathlib.Core.Path.{ap₂}
use native.Mathlib.Nat.{add-zero, zero-add}
use dllog.Base.{
  ℕ, zero, suc, ◌+◌, ◌<◌, ◌≤◌, ◌≡◌, refl, ap, sym, ◌∙◌, List, [], ◌∷◌, ◌++◌, tail, length, get_or,
  set, arith, get_or-set_self, get_or-set_ne,
}
use dllog.Core.Scope.{read_ring}
use dllog.Core.Scope.Index.{
  max_capacity, slot_index, slot_index-ne, slot_index-shift, slot_index-cases,
}

next : (i n : ℕ) → i + 1 + n ≡ i + suc n
next i n = omega arith

module _ {ℓ} {T : Type ℓ} (zero_value : T) where
  pub length-read_ring :
      (ring : List T) (start capacity i n : ℕ)
      → length (read_ring zero_value ring start capacity i n) ≡ n
  unfolding read_ring
  length-read_ring ring start capacity i zero = refl
  length-read_ring ring start capacity i (suc n) =
      ap suc (length-read_ring ring start capacity (i + 1) n)

  -- The `i`-th oldest cell.
  abbrev cell : List T → ℕ → ℕ → ℕ → T
  cell ring start capacity i = get_or ring (slot_index start i capacity) zero_value

  -- Reads are equal where the cells read are.
  read_ring-ext :
      (ring ring' : List T) (start start' capacity i i' n : ℕ)
      → ((k : ℕ) → k < n → cell ring start capacity (i + k) ≡ cell ring' start' capacity (i' + k))
      → read_ring zero_value ring start capacity i n
        ≡ read_ring zero_value ring' start' capacity i' n
  unfolding read_ring
  read_ring-ext ring ring' start start' capacity i i' zero same = refl
  read_ring-ext ring ring' start start' capacity i i' (suc n) same =
      ap₂ ◌∷◌
        (ap (cell ring start capacity) (omega arith)
          ∙ same 0 (omega arith)
          ∙ ap (cell ring' start' capacity) (omega arith))
        (read_ring-ext ring ring' start start' capacity (i + 1) (i' + 1) n λ k h.
          ap (cell ring start capacity) (omega arith)
          ∙ same (suc k) (omega arith)
          ∙ ap (cell ring' start' capacity) (omega arith))

  -- One more read comes last.
  read_ring-last :
      (ring : List T) (start capacity i n : ℕ)
      → read_ring zero_value ring start capacity i (suc n)
        ≡ read_ring zero_value ring start capacity i n ++ (cell ring start capacity (i + n) ∷ [])
  unfolding read_ring
  read_ring-last ring start capacity i zero =
      ap (λ j. cell ring start capacity j ∷ []) (sym (add-zero i))
  read_ring-last ring start capacity i (suc n) = ap (◌∷◌ (cell ring start capacity i)) (
      read_ring-last ring start capacity (i + 1) n
      ∙ ap
          (λ j.
            read_ring zero_value ring start capacity (i + 1) n ++ (cell ring start capacity j ∷ []))
          (next i n))

  -- A write just past a window with room to spare extends it by the entry written.
  pub window-append :
      (ring : List T) (start capacity n : ℕ) (x : T)
      → start < capacity
      → n < capacity
      → length ring ≡ capacity
      → capacity ≤ max_capacity
      → read_ring zero_value (set ring (slot_index start n capacity) x) start capacity 0 (suc n)
        ≡ read_ring zero_value ring start capacity 0 n ++ (x ∷ [])
  window-append ring start capacity n x hs hn hl hc =
      read_ring-last (set ring (slot_index start n capacity) x) start capacity 0 n
      ∙ ap₂ (λ xs y. xs ++ (y ∷ [])) unchanged written
    where
      unchanged :
          read_ring zero_value (set ring (slot_index start n capacity) x) start capacity 0 n
          ≡ read_ring zero_value ring start capacity 0 n
      unchanged = read_ring-ext _ ring start start capacity 0 0 n λ k h.
          get_or-set_ne ring x zero_value
            (slot_index-ne start (0 + k) n capacity hs (omega arith) (omega arith) (omega arith) hc)

      written : cell (set ring (slot_index start n capacity) x) start capacity (0 + n) ≡ x
      written =
          ap (cell (set ring (slot_index start n capacity) x) start capacity) (omega arith)
          ∙ get_or-set_self ring _ x zero_value
              (grind (arith, slot_index-cases start n capacity hs (omega arith) hc))

  tail-read_ring :
      (ring : List T) (start capacity m : ℕ)
      → tail (read_ring zero_value ring start capacity 0 (suc m))
        ≡ read_ring zero_value ring start capacity 1 m
  unfolding read_ring
  tail-read_ring ring start capacity m = refl

  -- A write over the oldest entry of a full window drops it and puts the entry written last.
  pub window-evict :
      (ring : List T) (start capacity : ℕ) (x : T)
      → start < capacity
      → length ring ≡ capacity
      → capacity ≤ max_capacity
      → read_ring zero_value
          (set ring (slot_index start capacity capacity) x)
          (slot_index start 1 capacity)
          capacity
          0
          capacity
        ≡ tail (read_ring zero_value ring start capacity 0 capacity) ++ (x ∷ [])
  window-evict ring start zero x hs hl hc = absurd (omega arith)
  window-evict ring start (suc m) x hs hl hc =
      read_ring-last ring' start' (suc m) 0 m
      ∙ ap₂ (λ xs y. xs ++ (y ∷ [])) (shifted ∙ sym rest) written
    where
      ring' : List T
      ring' = set ring (slot_index start (suc m) (suc m)) x

      start' : ℕ
      start' = slot_index start 1 (suc m)

      at : (k : ℕ) → suc k ≤ suc m → slot_index start' k (suc m) ≡ slot_index start (suc k) (suc m)
      at k h = slot_index-shift start k (suc m) hs h hc

      shifted :
          read_ring zero_value ring' start' (suc m) 0 m
          ≡ read_ring zero_value ring start (suc m) 1 m
      shifted = read_ring-ext ring' ring start' start (suc m) 0 1 m λ k h.
          ap (λ j. get_or ring' j zero_value)
            (ap (λ j. slot_index start' j (suc m)) (zero-add k) ∙ at k (omega arith))
          ∙ get_or-set_ne ring x zero_value (
              slot_index-ne start (suc k) (suc m) (suc m) hs (omega arith) (omega arith)
                (omega arith) hc)
          ∙ ap (cell ring start (suc m)) (omega arith)

      rest :
          tail (read_ring zero_value ring start (suc m) 0 (suc m))
          ≡ read_ring zero_value ring start (suc m) 1 m
      rest = tail-read_ring ring start (suc m) m

      written : cell ring' start' (suc m) (0 + m) ≡ x
      written =
          ap (λ j. get_or ring' j zero_value)
            (ap (λ j. slot_index start' j (suc m)) (zero-add m) ∙ at m (omega arith))
          ∙ get_or-set_self ring _ x zero_value
              (grind (arith, slot_index-cases start (suc m) (suc m) hs (omega arith) hc))

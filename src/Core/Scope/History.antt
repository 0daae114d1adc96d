-- ===== src/Core/Scope/History.antt =====
-- What a trip hands back, in terms of everything that was appended.
use dllog.Base.{
  ℕ, zero, suc, ◌-◌, ◌%◌, ◌^◌, ◌<◌, ◌≤◌, ◌≡◌, refl, sym, ap, ◌∙◌, Int64, true, false, List, [], ◌∷◌,
  ◌++◌, append-nil, append_assoc, length, tail, drop, arith, length-append, length-drop, le_int,
}
use dllog.Core.Types.{Scope, norm_capacity, norm_limit}
use dllog.Core.Log
use dllog.Core.Log.{Log, buffering}
use dllog.Core.Scope as Engine
use dllog.Core.Scope.Index.{max_capacity}
use dllog.Core.Scope.Inv.{IsValid, append-IsValid, new_scope-IsValid}
use dllog.Core.Scope.Refine.{left, view, append_refines, trip_refines}

-- The last `n` items.
abbrev pub keep_last {ℓ} : {A : Type ℓ} → ℕ → List A → List A
keep_last n xs = drop (length xs - n) xs

module _ {A : Type 0} where
  tail-drop : (n : ℕ) (xs : List A) → tail (drop n xs) ≡ drop (suc n) xs
  tail-drop zero [] = refl
  tail-drop zero (x ∷ xs) = refl
  tail-drop (suc n) [] = refl
  tail-drop (suc n) (x ∷ xs) = tail-drop n xs

  drop-append : (n : ℕ) (xs ys : List A) → n ≤ length xs → drop n (xs ++ ys) ≡ drop n xs ++ ys
  drop-append zero xs ys h = refl
  drop-append (suc n) [] ys h = absurd (omega arith)
  drop-append (suc n) (x ∷ xs) ys h = drop-append n xs ys (omega arith)

  drop_all : (n : ℕ) (xs : List A) → n ≡ 0 → drop n xs ≡ xs
  drop_all zero xs h = refl
  drop_all (suc n) xs h = absurd (omega arith)

  pub keep_last-nil : (n : ℕ) → keep_last {A = A} n [] ≡ []
  keep_last-nil n = drop_all (0 - n) [] (omega arith)

  pub length-keep_last :
      (n : ℕ) (xs : List A) → length (keep_last n xs) ≡ length xs - (length xs - n)
  length-keep_last n xs = length-drop (length xs - n) xs

  keep_last_room :
      (n : ℕ) (xs : List A) (x : A)
      → length xs < n
      → keep_last n (xs ++ (x ∷ [])) ≡ keep_last n xs ++ (x ∷ [])
  keep_last_room n xs x h =
      drop_all _ (xs ++ (x ∷ [])) (omega (arith, length-append xs (x ∷ [])))
      ∙ ap (λ ys. ys ++ (x ∷ [])) (sym (drop_all _ xs (omega arith)))

  keep_last_full :
      (n : ℕ) (xs : List A) (x : A)
      → 0 < n
      → n ≤ length xs
      → keep_last n (xs ++ (x ∷ [])) ≡ tail (keep_last n xs) ++ (x ∷ [])
  keep_last_full n xs x h k =
      ap (λ j. drop j (xs ++ (x ∷ []))) next
      ∙ drop-append (suc (length xs - n)) xs (x ∷ []) (omega arith)
      ∙ ap (λ ys. ys ++ (x ∷ [])) (sym (tail-drop (length xs - n) xs))
    where
      next : length (xs ++ (x ∷ [])) - n ≡ suc (length xs - n)
      next = omega (arith, length-append xs (x ∷ []))

module _ {T : Type 0} where
  pub append_all : Scope T → List T → Scope T
  append_all s [] = s
  append_all s (x ∷ xs) = append_all (Engine.append s x).0 xs

  append_all-IsValid : (xs : List T) (s : Scope T) → IsValid s → IsValid (append_all s xs)
  unfolding append_all
  append_all-IsValid [] s v = v
  append_all-IsValid (x ∷ xs) s v =
      append_all-IsValid xs (Engine.append s x).0 (append-IsValid s x v)

  -- The log that has seen `seen`.
  abbrev pub log_of : Log T → List T → Log T
  log_of l seen = record l {
    dropped = (length seen - l.capacity) % 2 ^ 64;
    phase = buffering (keep_last l.capacity seen);
  }

  pub append-log_of :
      (l : Log T) (seen : List T) (x : T)
      → 0 < l.capacity
      → (Log.append (log_of l seen) x).0 ≡ log_of l (seen ++ (x ∷ []))
  unfolding Log.append
  append-log_of l seen x h = ground (
    arith,
    length-keep_last l.capacity seen,
    length-append seen (x ∷ []),
    keep_last_room l.capacity seen x,
    keep_last_full l.capacity seen x h,
  )

module _ {T : Type 0} (zero_value : T) where
  append_all-log_of :
      (xs : List T) (s : Scope T) (l : Log T) (seen : List T)
      → IsValid s
      → 0 < l.capacity
      → view zero_value s ≡ log_of l seen
      → view zero_value (append_all s xs) ≡ log_of l (seen ++ xs)
  unfolding append_all
  append_all-log_of [] s l seen v h e = e ∙ ap (log_of l) (sym (append-nil seen))
  append_all-log_of (x ∷ xs) s l seen v h e =
      append_all-log_of xs (Engine.append s x).0 l (seen ++ (x ∷ [])) (append-IsValid s x v) h (
        ap (λ r. r.0) (append_refines zero_value s x v)
        ∙ ap (λ k. (Log.append k x).0) e
        ∙ append-log_of l seen x h)
      ∙ ap (log_of l) (append_assoc seen (x ∷ []) xs)

  abbrev pub empty_log : Int64 → Int64 → Log T
  empty_log capacity limit = record {
    capacity = norm_capacity capacity;
    budget = left (norm_limit limit) 0;
    dropped = 0;
    phase = buffering [];
  }

  -- A new scope holds the empty log.
  pub new_scope-view :
      (capacity limit : Int64)
      → view zero_value (Engine.new_scope zero_value capacity limit) ≡ empty_log capacity limit
  unfolding Engine.new_scope Engine.read_ring
  new_scope-view capacity limit = refl

  pub log_of-nil :
      (capacity limit : Int64) → empty_log capacity limit ≡ log_of (empty_log capacity limit) []
  log_of-nil capacity limit = ground (arith, keep_last-nil (norm_capacity capacity))

  -- A scope that has tripped does not trip again.
  pub trip_twice :
      (s : Scope T)
      → let s' = (Engine.trip zero_value s).0 in Engine.trip zero_value s' ≡ (s', [], 0, false)
  unfolding Engine.trip Engine.clear_ring
  trip_twice s = ground arith

  -- Whatever is appended to a new scope of at most `max_capacity` cells, the first trip returns
  -- the last entries that fit, oldest first, with the number of those that did not (as an
  -- `int`), and the next trip returns none.
  pub trip-append_all :
      (capacity limit : Int64) (xs : List T)
      → capacity < 2 ^ 64
      → limit < 2 ^ 64
      → le_int capacity max_capacity ≡ true
      → let kept = norm_capacity capacity in
        let (s, entries, dropped, tripped) =
          Engine.trip zero_value (append_all (Engine.new_scope zero_value capacity limit) xs) in
        (entries ≡ keep_last kept xs)
        × (dropped ≡ (length xs - kept) % 2 ^ 64)
        × (tripped ≡ true)
        × (Engine.trip zero_value s ≡ (s, [], 0, false))
  unfolding Log.trip
  trip-append_all capacity limit xs hc hl fits =
      (ap (λ r. r.1) answer, ap (λ r. r.2) answer, ap (λ r. r.3) answer, trip_twice _)
    where
      fresh : Scope T
      fresh = Engine.new_scope zero_value capacity limit

      valid : IsValid fresh
      valid = new_scope-IsValid zero_value capacity limit hc hl fits

      seen : view zero_value (append_all fresh xs) ≡ log_of (empty_log capacity limit) xs
      seen =
          append_all-log_of xs fresh (empty_log capacity limit) [] valid (ground arith)
            (new_scope-view capacity limit ∙ log_of-nil capacity limit)

      answer :
          (let (s, entries, dropped, tripped) = Engine.trip zero_value (append_all fresh xs) in
            (view zero_value s, entries, dropped, tripped))
          ≡ Log.trip (log_of (empty_log capacity limit) xs)
      answer =
          trip_refines zero_value (append_all fresh xs) (append_all-IsValid xs fresh valid)
          ∙ ap Log.trip seen

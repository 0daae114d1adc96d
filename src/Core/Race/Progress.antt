-- ===== src/Core/Race/Progress.antt =====
-- internal/core/carrier.go under interleaving: from any reachable state, some goroutine
-- in a call can come closer to the end of its call.
use dllog.Base.{
  none, subst, ◌==◌, eq_of_==, Bool-cases, Option-cases, refl, ◌≢◌, List, some, inl, inr, ℕ, ◌<◌,
  ◌≡◌, ◌⊎◌, Bool, true, false, ◌&&◌, Option, arith, [], ◌∷◌, length, is_some,
}
use dllog.Core.Types.{Box}
use dllog.Core.SyncPool.{SyncPool}
use dllog.Core.Carrier.{Entry}
use dllog.Core.Race.{
  Shared, Use, Pc, advance, take, flush_step, close_step, idle, bind_load_closed, bind_load_scope,
  bind_acquire, bind_check_closed, bind_check_scope, bind_get, bind_check_pre, bind_trip,
  bind_store, bind_release, append_to, pass_load, pass_locked, mark_load_closed, mark_load_scope,
  mark_acquire, mark_check_closed, mark_check_scope, mark_check_pre, mark_store, mark_release,
  flush_trip, emitting, close_acquire, close_load, close_store, close_release, close_scope, System,
  Step, Reach, begin, move, here, next, start,
}
use dllog.Core.Race.Safety.{critical}
use dllog.Core.Race.Inv.{ne_of_==}
use dllog.Core.Pool.{Pool}

module _ {E O : Type 0} where
  -- How far the call is from its end; the calls of the entries are counted by `remaining`.
  unfoldable pub stage : Pc E O → ℕ
  stage idle = 0
  stage (bind_load_closed ref k) = 12
  stage (bind_load_scope ref k) = 11
  stage (bind_acquire ref k) = 10
  stage (bind_check_closed ref k) = 9
  stage (bind_check_scope ref k) = 8
  stage (bind_get ref k) = 7
  stage (bind_check_pre k r) = 6
  stage (bind_trip k r) = 5
  stage (bind_store k r) = 4
  stage (bind_release k o) = 3
  stage (append_to e r) = 1
  stage (pass_load r) = 2
  stage (pass_locked r) = 1
  stage mark_load_closed = 10
  stage mark_load_scope = 9
  stage mark_acquire = 8
  stage mark_check_closed = 7
  stage mark_check_scope = 6
  stage mark_check_pre = 5
  stage mark_store = 4
  stage (mark_release o) = 3
  stage (flush_trip r) = 2
  stage (emitting os) = 1
  stage close_acquire = 5
  stage close_load = 4
  stage (close_store o) = 3
  stage (close_release o) = 2
  stage (close_scope r) = 1

  unfoldable pub remaining : Pc E O → ℕ
  remaining (emitting os) = length os
  remaining _ = 0

  -- A well-founded order: the stage falls, or stays while fewer calls remain.
  abbrev pub Descends : Pc E O → Pc E O → Type 0
  Descends p p' = (stage p' < stage p) ⊎ ((stage p' ≡ stage p) × (remaining p' < remaining p))

  -- At `mu.Lock()`.
  unfoldable pub waits : Pc E O → Bool
  waits (bind_acquire ref k) = true
  waits mark_acquire = true
  waits close_acquire = true
  waits _ = false

  unfoldable pub is_idle : Pc E O → Bool
  is_idle idle = true
  is_idle _ = false

  is_emitting : Pc E O → Bool
  is_emitting (emitting (o ∷ os)) = true
  is_emitting _ = false

  pub critical-runs : (p : Pc E O) → critical p ≡ true → (is_idle p ≡ false) × (waits p ≡ false)
  unfolding critical is_idle waits
  critical-runs idle c = cc
  critical-runs p c = ground arith

module _ {E O : Type 0} {sync : SyncPool (Box (Option E))} (ops : Entry E O) where
  stage-advance :
      (me : ℕ) (p : Pc E O) (m : Shared E O sync)
      → is_idle p ≡ false
      → is_emitting p ≡ false
      → (waits p && is_some m.lock) ≡ false
      → stage (advance ops me p m).1 < stage p
  unfolding advance take flush_step close_step stage is_idle is_emitting waits
  stage-advance me idle m i e w = cc
  stage-advance me (emitting []) m i e w = omega arith
  stage-advance me (emitting (o ∷ os)) m i e w = cc
  stage-advance me (bind_load_scope ref (Use.append_entry x)) m i e w = ground arith
  stage-advance me (bind_load_scope ref Use.offer_through) m i e w = ground arith
  stage-advance me (bind_release (Use.append_entry x) o) m i e w = ground arith
  stage-advance me (bind_release Use.offer_through o) m i e w = ground arith
  stage-advance me p m i e w = ground arith

  pub Descends-advance :
      (me : ℕ) (p : Pc E O) (m : Shared E O sync)
      → is_idle p ≡ false
      → (waits p && is_some m.lock) ≡ false
      → Descends p (advance ops me p m).1
  unfolding advance stage remaining is_emitting
  Descends-advance me (emitting (o ∷ os)) m i w = inr (refl, omega arith)
  Descends-advance me p m i w = inl (stage-advance me p m i refl w)

  holder-own :
      (i : ℕ) (p : Pc E O) (m : Shared E O sync)
      → (m.lock ≡ some i → critical p ≡ true)
      → (advance ops i p m).0.lock ≡ some i
      → critical (advance ops i p m).1 ≡ true
  unfolding advance take flush_step close_step critical
  holder-own i p m h e = ground arith

  pub holder-other :
      (i j : ℕ) (p : Pc E O) (m : Shared E O sync)
      → j ≢ i
      → (advance ops i p m).0.lock ≡ some j
      → m.lock ≡ some j
  unfolding advance take flush_step close_step
  holder-other i j p m ne e = ground arith

  abbrev pub Holds : System E O sync → Type 0
  Holds s = (j : ℕ) → s.mem.lock ≡ some j → critical (s.pc j) ≡ true

  Step-Holds : {s t : System E O sync} → Step ops s t → Holds s → Holds t
  unfolding critical
  Step-Holds {s} (begin i c e) v j h = elim (Bool-cases (j == i)) [
    | inl same ↦ cc (eq_of_== j i same, v j h, e)
    | inr other ↦ rw other (v j h)
  ]
  Step-Holds {s} (move i) v j h = elim (Bool-cases (j == i)) [
    | inl same ↦ rw same (
        holder-own i (s.pc i) s.mem (v i)
          (subst (λ k. (advance ops i (s.pc i) s.mem).0.lock ≡ some k) (eq_of_== j i same) h))
    | inr other ↦ rw other (v j (holder-other i j (s.pc i) s.mem (ne_of_== j i other) h))
  ]

  pub Reach-Holds :
      (pools : List (Pool {T = Option E} none sync)) {s : System E O sync}
      → Reach ops (start pools) s
      → Holds s
  Reach-Holds pools here = λ j e. cc
  Reach-Holds pools (next r st) = Step-Holds st (Reach-Holds pools r)

  -- In every reachable state, a goroutine in a call comes closer to its end by its next step,
  -- or it waits for the mutex and the goroutine that holds it comes closer to the end of its
  -- own.
  pub some_progress :
      (pools : List (Pool {T = Option E} none sync)) {s : System E O sync} (i : ℕ)
      → Reach ops (start pools) s
      → is_idle (s.pc i) ≡ false
      → Descends (s.pc i) (advance ops i (s.pc i) s.mem).1
        ⊎ ((waits (s.pc i) ≡ true)
            × ((j : ℕ) × (s.mem.lock ≡ some j)
                × Descends (s.pc j) (advance ops j (s.pc j) s.mem).1))
  some_progress pools {s} i r busy = elim (Bool-cases (waits (s.pc i))) [
    | inr free ↦ inl (Descends-advance i (s.pc i) s.mem busy (rw free refl))
    | inl waiting ↦ elim (Option-cases s.mem.lock) [
      | inl unlocked ↦ inl (Descends-advance i (s.pc i) s.mem busy (rw (waiting, unlocked) refl))
      | inr (j, held) ↦
          let (runs, free) = critical-runs (s.pc j) (Reach-Holds pools r j held) in
          inr (waiting, (j, held, Descends-advance j (s.pc j) s.mem runs (rw free refl)))
    ]
  ]

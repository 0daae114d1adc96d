-- ===== src/Core/Race/Termination.antt =====
-- internal/core/carrier.go under interleaving: a goroutine that runs alone, while no
-- other holds the mutex, ends its call.
use dllog.Base.{
  suc, zero, update_self, ◌<◌, ◌∙◌, ap, ◌&&◌, ◌≡◌, inl, inr, Bool-cases, Option-cases, ℕ, refl,
  Bool, true, false, ◌==◌, eq_of_==, List, Option, some, none, update, arith, is_some,
}
use dllog.Core.Types.{Box}
use dllog.Core.SyncPool.{SyncPool}
use dllog.Core.Pool.{Pool}
use dllog.Core.Carrier.{Entry}
use dllog.Core.Race.{System, Reach, advance, start, move, next}
use dllog.Core.Race.Inv.{ne_of_==}
use dllog.Core.Race.Progress.{
  stage, remaining, waits, is_idle, Descends-advance, Reach-Holds, critical-runs, holder-other,
}

and-false : (b : Bool) → (b && false) ≡ false
and-false true = refl
and-false false = refl

module _ {E O : Type 0} {sync : SyncPool (Box (Option E))} (ops : Entry E O) where
  -- `n` steps of goroutine `i`, the others standing.
  abbrev pub step_of : ℕ → System E O sync → System E O sync
  step_of i s = record {
    mem = (advance ops i (s.pc i) s.mem).0;
    pc = update s.pc i (advance ops i (s.pc i) s.mem).1;
  }

  unfoldable pub solo : ℕ → ℕ → System E O sync → System E O sync
  solo i zero s = s
  solo i (suc n) s = solo i n (step_of i s)

  module _ (pools : List (Pool {T = Option E} none sync)) (i : ℕ) where
    -- Nobody else holds the mutex.
    abbrev Alone : System E O sync → Type 0
    Alone s = (j : ℕ) → s.mem.lock ≡ some j → j ≡ i

    Alone-step : (s : System E O sync) → Alone s → Alone (step_of i s)
    Alone-step s a j h = elim (Bool-cases (j == i)) [
      | inl same ↦ eq_of_== j i same
      | inr other ↦ a j (holder-other ops i j (s.pc i) s.mem (ne_of_== j i other) h)
    ]

    unblocked :
        (s : System E O sync)
        → Reach ops (start pools) s
        → Alone s
        → (waits (s.pc i) && is_some s.mem.lock) ≡ false
    unblocked s r a = elim (Option-cases s.mem.lock) [
      | inl e ↦ rw e (and-false (waits (s.pc i)))
      | inr (j, e) ↦
          let mine : s.mem.lock ≡ some i = e ∙ ap some (a j e) in
          rw ((critical-runs (s.pc i) (Reach-Holds ops pools r i mine)).1) refl
    ]

    solo_within :
        (a b : ℕ) (s : System E O sync)
        → Reach ops (start pools) s
        → Alone s
        → stage (s.pc i) < a
        → remaining (s.pc i) < b
        → (n : ℕ) × (is_idle ((solo i n s).pc i) ≡ true)
    unfolding solo
    solo_within zero b s r al ha hb = absurd (omega arith)
    solo_within (suc a) zero s r al ha hb = absurd (omega arith)
    solo_within (suc a) (suc b) s r al ha hb = elim (Bool-cases (is_idle (s.pc i))) [
      | inl done ↦ (0, done)
      | inr busy ↦
          let down = Descends-advance ops i (s.pc i) s.mem busy (unblocked s r al) in
          elim down [
            | inl nearer ↦ further (
                solo_within a (suc (remaining ((step_of i s).pc i))) (step_of i s) (next r (move i))
                  (Alone-step s al) (rw arrived (omega arith)) (omega arith))
            | inr same ↦ further (
                solo_within (suc a) b (step_of i s) (next r (move i)) (Alone-step s al)
                  (rw arrived (omega arith)) (rw arrived (omega arith)))
          ]
    ]
      where
        arrived : (step_of i s).pc i ≡ (advance ops i (s.pc i) s.mem).1
        arrived = update_self s.pc i (advance ops i (s.pc i) s.mem).1

        further :
            ((n : ℕ) × (is_idle ((solo i n (step_of i s)).pc i) ≡ true))
            → (n : ℕ) × (is_idle ((solo i n s).pc i) ≡ true)
        further (n, e) = (suc n, e)

    -- From every reachable state where no other goroutine holds the mutex, a goroutine ends
    -- its call by its own steps, whatever the call and wherever it stands.
    pub call_ends :
        (s : System E O sync)
        → Reach ops (start pools) s
        → ((j : ℕ) → s.mem.lock ≡ some j → j ≡ i)
        → (n : ℕ) × (is_idle ((solo i n s).pc i) ≡ true)
    call_ends s r al =
        solo_within (suc (stage (s.pc i))) (suc (remaining (s.pc i))) s r al (omega arith)
          (omega arith)

-- ===== src/Core/Race/Tests.antt =====
-- Schedules of two goroutines on one carrier, run, and the theorems at the states they reach.
use dllog.Base.{
  sym, suc, zero, ℕ, ◌+◌, ◌≡◌, ◌≤◌, ◌⊎◌, refl, List, [], ◌∷◌, ◌++◌, true, false, arith, some, none,
  Option, All,
}
use mathlib.Core.Option.{some-injective}
use dllog.Core.Types.{Box}
use dllog.Core.SyncPool.{SyncPool, stack_pool}
use dllog.Core.Pool.{Pool, new_scope_pool}
use dllog.Core.Scope.Pooled.{PoolFits}
use dllog.Core.Carrier.{Entry}
use dllog.Core.Race.{Use, Call, advance}
use dllog.Core.Race.Schedule.{Turn, Run, run}
use dllog.Core.Race.Safety.{critical, handed_one, one_trigger, mutual_exclusion, born_tripped}
use dllog.Core.Race.Closing.{closing, no_leak}
use dllog.Core.Race.Sound.{Reach-IsValid, HasValid, AllMade}
use dllog.Core.Race.Progress.{waits, is_idle, Descends, some_progress}
use dllog.Core.Race.Termination.{solo, call_ends}

abbrev sync : SyncPool (Box (Option ℕ))
sync = stack_pool (Box (Option ℕ))

abbrev ops : Entry ℕ ℕ
ops = record { emit = λ e. e ∷ []; notify = λ e n. (1000 + n) ∷ [] }

abbrev pools : List (Pool none sync)
pools = new_scope_pool none sync 2 0 ∷ []

-- `n` steps of one goroutine.
abbrev steps : ℕ → ℕ → List (Turn ℕ)
steps i zero = []
steps i (suc n) = (i, none) ∷ steps i n

abbrev log : ℕ → ℕ → Turn ℕ
log i e = (i, some (Call.use_scope 0 (Use.append_entry e)))

-- Two goroutines race to bind: each has found no scope, then 0 makes it, while 1 waits.
abbrev racing : Run sync ops pools
racing = run sync ops pools (
    log 0 7 ∷ log 1 8 ∷ (0, none) ∷ (1, none) ∷ (0, none) ∷ (1, none) ∷ steps 0 3
    ++ ((1, none) ∷ []))

-- Goroutine 0 is about to append to the scope that goroutine 1 is about to close.
abbrev append_and_close : Run sync ops pools
append_and_close =
    run sync ops pools (log 0 7 ∷ steps 0 9 ++ ((1, some Call.close_carrier) ∷ steps 1 4))

handed_one_example :
    ◌≡◌ {A = ℕ} 0 0
    × ((advance ops 1 (append_and_close.last.pc 1) append_and_close.last.mem).0.heap 1
        ≡ append_and_close.last.mem.heap 1)
unfolding run advance
handed_one_example =
    handed_one ops pools 1 0 0 0 1 append_and_close.reach refl refl λ e. omega (arith, e)

mutual_exclusion_example : ◌≡◌ {A = ℕ} 0 0
unfolding run advance critical
mutual_exclusion_example = mutual_exclusion ops pools 0 0 racing.reach refl refl

-- Two goroutines trip before any record is withheld, the second between the steps of the first.
abbrev both_trip : Run sync ops pools
both_trip = run sync ops pools (
    (0, some Call.trip_scope) ∷ (1, some Call.trip_scope) ∷ steps 0 3
    ++ steps 1 3
    ++ steps 0 4
    ++ steps 1 6)

one_trigger_example : both_trip.last.mem.triggers ≤ 1
one_trigger_example = one_trigger ops pools both_trip.reach

-- A trip, and then a record.
abbrev trip_first : Run sync ops pools
trip_first = run sync ops pools ((0, some Call.trip_scope) ∷ steps 0 8 ++ (log 1 8 ∷ steps 1 10))

born_tripped_example : (trip_first.last.mem.heap 0).trip_state ≡ true
unfolding run advance
born_tripped_example = born_tripped ops pools 0 trip_first.reach refl refl

-- A record, while another goroutine closes.
abbrev closed_late : Run sync ops pools
closed_late =
    run sync ops pools
      (log 0 7 ∷ steps 0 5 ++ ((1, some Call.close_carrier) ∷ (1, none) ∷ steps 0 6 ++ steps 1 6))

closed_late-quiet : (i : ℕ) → closing (closed_late.last.pc i) ≡ false
unfolding run advance
closed_late-quiet zero = refl
closed_late-quiet (suc zero) = refl
closed_late-quiet (suc (suc i)) = ground arith

no_leak_example : (closed_late.last.mem.heap 0).closed ≡ true
unfolding run advance
no_leak_example = no_leak ops pools 0 closed_late.reach closed_late-quiet refl refl

pools-fit : All (PoolFits none sync) pools
unfolding new_scope_pool
pools-fit =
    (record { positive = omega arith; small = omega arith; bounded = omega arith; zeroed = tt }, tt)

Reach-IsValid_example :
    All (PoolFits none sync) closed_late.last.mem.pools
    × HasValid closed_late.last.mem.heap closed_late.last.mem.scope
    × AllMade closed_late.last.mem.heap closed_late.last.mem.next_scope
unfolding run advance
Reach-IsValid_example = Reach-IsValid ops pools pools-fit closed_late.reach

-- Goroutine 1 waits for the mutex, which 0 holds.
some_progress_example :
    Descends (racing.last.pc 1) (advance ops 1 (racing.last.pc 1) racing.last.mem).1
    ⊎ ((waits (racing.last.pc 1) ≡ true)
        × ((j : ℕ) × (racing.last.mem.lock ≡ some j)
            × Descends (racing.last.pc j) (advance ops j (racing.last.pc j) racing.last.mem).1))
unfolding run advance is_idle
some_progress_example = some_progress ops pools 1 racing.reach refl

call_ends_example : (n : ℕ) × (is_idle ((solo ops 0 n racing.last).pc 0) ≡ true)
unfolding run advance
call_ends_example =
    call_ends ops pools 0 racing.last racing.reach (λ j e. sym (some-injective 0 j e))

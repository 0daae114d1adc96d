-- ===== src/Demo/Replay.antt =====
-- examples/demo/main.go: the demonstration with dllog, as operations one after the other.
use Prim.Native.String.{String}
use dllog.Base.{
  arith, At, ℕ, ◌+◌, ◌*◌, ◌≤◌, ◌≡◌, refl, ap, ◌∙◌, List, [], ◌∷◌, ◌++◌, Option, some, none, All,
  length,
}
use dllog.Core.Types.{Box}
use dllog.Core.SyncPool.{SyncPool}
use dllog.Core.Pool.{Pool, new_scope_pool}
use dllog.Core.Scope.Pooled.{new_scope_pool-IsPoolOf}
use dllog.Core.Context.{Context}
use dllog.Slots.{SlotWorld, Slot}
use dllog.Slog.Types.{level_debug}
use dllog.Slog.Options.{Leveler, fixed, new_config, resolve}
use dllog.Slog.Handler.{Handler, Setting}
use dllog.Slog.New.{new_with, new_encoded, with_pool}
use dllog.Slog.Built.{get_elem?-append_end, new_scope_pool-PoolFits}
use dllog.Joint.Offers.{offer_all}
use dllog.Joint.Operations.{
  Logged, by_handler, Operation, bind_events, run_operation, run_operations, outputs, IsStocked,
  IsApart,
}
use dllog.Joint.Apart.{operations_apart}
use dllog.Core.Carrier.Kept.{IsGood}
use dllog.Slog.Scope.{run_done, scope}
use dllog.Demo.Orders.{Call, orders, step, after}
use dllog.Demo.Run.{
  buffered, scoped, background, record_of, mode_of, perform, say, run, run_all, logger_of, main,
}

-- The calls of some orders.
abbrev calls : List (List Call) → ℕ
calls [] = 0
calls (op ∷ ops) = length op + calls ops

-- The clock after some orders.
abbrev after_all : (ℕ → ℕ) → ℕ → List (List Call) → ℕ
after_all elapse now [] = now
after_all elapse now (op ∷ ops) = after_all elapse (after elapse now op) ops

module _ (elapse : ℕ → ℕ) (slept : (t : ℕ) → t + step ≤ elapse t) where
  after-later : (now : ℕ) (cs : List Call) → now + length cs * step ≤ after elapse now cs
  after-later now [] = omega arith
  after-later now (c ∷ cs) = omega (arith, slept now, after-later (elapse now) cs)

  after_all-later :
      (now : ℕ) (ops : List (List Call)) → now + calls ops * step ≤ after_all elapse now ops
  after_all-later now [] = omega arith
  after_all-later now (op ∷ ops) =
      omega (arith, after-later now op, after_all-later (after elapse now op) ops)

module _ {V D : Type 0} (Z : Type 0) (h : Handler V D) (pc : ℕ) (elapse : ℕ → ℕ) where
  -- The records of an order whose first call is at `now`.
  abbrev pub timed : ℕ → List Call → List (Logged V D Z)
  timed now [] = []
  timed now (c ∷ cs) = by_handler h (record_of pc now c) ∷ timed (elapse now) cs

  -- The orders as operations, the first at `now`.
  abbrev pub operations_of : ℕ → List (List Call) → List (Operation V D Z)
  operations_of now [] = []
  operations_of now (op ∷ ops) =
      record { base = background; logged = timed now op } ∷ operations_of (after elapse now op) ops

module _ {V D Z Err : Type 0} (set : Setting V D Z Err) (h : Handler V D) (pc : ℕ) (elapse : ℕ → ℕ)
    {sync : SyncPool (Box (Option (Slot D Z)))} where
  perform-offer_all :
      (ctx : Context) (cs : List Call) (now : ℕ) (v w : SlotWorld D Z sync)
      → perform set pc elapse (buffered h) ctx cs (now, w)
        ≡ (after elapse now cs, offer_all set (bind_events v ctx (timed Z h pc elapse now cs)) w)
  unfolding perform say offer_all
  perform-offer_all ctx [] now v w = refl
  perform-offer_all ctx (c ∷ cs) now v w = perform-offer_all ctx cs (elapse now) v _

  run-run_operation :
      (op : List Call) (now : ℕ) (w : SlotWorld D Z sync)
      → run set pc elapse (buffered h) scoped op (now, w) ≡ (
        after elapse now op,
        run_operation set (record { base = background; logged = timed Z h pc elapse now op }) w,
      )
  unfolding run run_operation
  run-run_operation op now w =
      let (w', ctx, done) = scope w background in
      ap (λ s. (s.0, run_done done s.1)) (perform-offer_all (some ctx) op now w' w')

  run_all-run_operations :
      (ops : List (List Call)) (now : ℕ) (w : SlotWorld D Z sync)
      → run_all set pc elapse (buffered h) scoped ops (now, w)
        ≡ (after_all elapse now ops, run_operations set (operations_of Z h pc elapse now ops) w)
  unfolding run_all run_operations
  run_all-run_operations [] now w = refl
  run_all-run_operations (op ∷ ops) now w =
      ap (run_all set pc elapse (buffered h) scoped ops) (run-run_operation op now w)
      ∙ run_all-run_operations ops (after elapse now op) _

module _ {V D : Type 0} (Z : Type 0) (h : Handler V D) (pc : ℕ) (elapse : ℕ → ℕ)
    (sync : SyncPool (Box (Option (Slot D Z)))) (pools : List (Pool none sync))
    (stocked : At (IsGood sync h.cfg.capacity h.cfg.post_trip_limit) pools h.pool) where
  timed-IsStocked :
      (now : ℕ) (cs : List Call) → All (IsStocked {Z = Z} sync pools) (timed Z h pc elapse now cs)
  timed-IsStocked now [] = tt
  timed-IsStocked now (c ∷ cs) = (stocked, timed-IsStocked (elapse now) cs)

  operations_of-IsApart :
      (now : ℕ) (ops : List (List Call))
      → All (IsApart {Z = Z} sync pools) (operations_of Z h pc elapse now ops)
  operations_of-IsApart now [] = tt
  operations_of-IsApart now (op ∷ ops) =
      ((refl, timed-IsStocked now op), operations_of-IsApart (after elapse now op) ops)

module _ {V D Z Err : Type 0} (set : Setting V D Z Err) (pc : ℕ) (elapse : ℕ → ℕ)
    (text : Leveler V → D) {sync : SyncPool (Box (Option (Slot D Z)))}
    (w : SlotWorld D Z sync) where
  -- The handler of the demonstration, and the world with its pool.
  abbrev pub demo_handler : Handler V D
  unfolding new_config
  demo_handler = record {
    cfg = new_config;
    downstream = text (fixed level_debug);
    pool = length w.pools;
  }

  stocked_world : SlotWorld D Z sync
  stocked_world = record w { pools = w.pools ++ (new_scope_pool none sync 0 0 ∷ []) }

  demo_handler-IsGood : At (IsGood sync 0 0) stocked_world.pools (length w.pools)
  unfolding stocked_world
  demo_handler-IsGood = (
    new_scope_pool none sync 0 0,
    get_elem?-append_end w.pools _,
    (
      new_scope_pool-IsPoolOf none sync 0 0,
      new_scope_pool-PoolFits none sync 0 0 (omega arith) (omega arith) refl,
    ),
  )

  -- The demonstration, in its mode with dllog or without an argument, if a call and the pause
  -- after it take at least the pause's 190 milliseconds, ends without a usage error on any
  -- world, no sooner than the pauses of its 21 calls allow, and puts out its orders as
  -- operations apart, with the default configuration of the handler: each record stamped with
  -- the time at which its call is made, a replayed one too.
  pub main-outputs :
      (args : List String) (now : ℕ)
      → ((t : ℕ) → t + step ≤ elapse t)
      → mode_of args ≡ "dllog"
      → (now' : ℕ) × (w' : SlotWorld D Z sync) × (main set pc elapse text args (now, w)
          ≡ some (now', w'))
        × (now + 21 * step ≤ now')
        × (w'.out
            ≡ w.out
              ++ outputs set
                  (length w.carriers)
                  (operations_of Z demo_handler pc elapse now orders))
  unfolding main logger_of new_with new_encoded with_pool resolve new_config stocked_world
  main-outputs args now slept mode =
      let h = demo_handler in
      let s = run_all set pc elapse (buffered h) scoped orders (now, stocked_world) in
      (
        s.0,
        s.1,
        rw (mode, main) refl,
        rw (run_all-run_operations set h pc elapse orders now stocked_world)
            (after_all-later elapse slept now orders),
        ap (λ v. v.1.out) (run_all-run_operations set h pc elapse orders now stocked_world)
            ∙ operations_apart set stocked_world (operations_of Z h pc elapse now orders) (
                operations_of-IsApart Z h pc elapse sync stocked_world.pools demo_handler-IsGood now
                  orders),
      )

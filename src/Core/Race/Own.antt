-- ===== src/Core/Race/Own.antt =====
-- internal/core/carrier.go under interleaving: what a goroutine knows after its own step.
use dllog.Base.{
  Bool-cases, inl, inr, ℕ, ◌≡◌, true, ◌||◌, not, List, Option, some, none, arith, [], ◌∷◌,
}
use dllog.Core.Types.{Scope, Box}
use dllog.Core.SyncPool.{SyncPool}
use dllog.Core.Pool.{Pool, get}
use dllog.Core.Scope as Engine
use dllog.Core.Carrier.{Entry}
use dllog.Core.Carrier.Inv.{append-flags, pass_through-flags, trip-flags}
use dllog.Core.Race.{
  Shared, Use, Pc, advance, take, flush_step, close_step, bind_load_scope, bind_trip, bind_release,
  append_to, pass_locked, flush_trip, emitting, close_scope,
}
use dllog.Core.Race.Defs.{Local, Global}

module _ {E : Type 0} (sync : SyncPool (Box (Option E))) where
  close-flags :
      (s : Scope (Option E)) (pools : List (Pool none sync))
      → let s' = (Engine.close none sync s pools).0 in
        (s'.closed ≡ true) × (s'.trip_state ≡ s.trip_state)
  unfolding Engine.close Engine.clear_ring
  close-flags s pools = ground arith

trip-reports :
    {E : Type 0} (s : Scope (Option E)) → (Engine.trip none s).3 ≡ not (s.closed || s.trip_state)
unfolding Engine.trip
trip-reports s = ground arith

module _ {E O : Type 0} {sync : SyncPool (Box (Option E))} (ops : Entry E O) where
  pub advance-Local :
      (me : ℕ) (p : Pc E O) (m : Shared E O sync)
      → Global m
      → Local me p m
      → Local me (advance ops me p m).1 (advance ops me p m).0
  unfolding advance take get flush_step close_step
  advance-Local me (bind_trip k r) m g l = ground (arith, trip-flags none (m.heap r))
  advance-Local me (flush_trip r) m g l = elim (Bool-cases (Engine.trip none (m.heap r)).3) [
    | inl e ↦ rw e tt
    | inr e ↦ rw e tt
  ]
  advance-Local me (emitting []) m g l = tt
  advance-Local me (emitting (o ∷ os)) m g l = tt
  advance-Local me (bind_release (Use.append_entry e) none) m g l = tt
  advance-Local me (bind_release Use.offer_through none) m g l = tt
  advance-Local me (bind_release (Use.append_entry e) (some r)) m g l = l.1
  advance-Local me (bind_release Use.offer_through (some r)) m g l = l.1
  advance-Local me (bind_load_scope ref (Use.append_entry e)) m g l = ground arith
  advance-Local me (bind_load_scope ref Use.offer_through) m g l = ground arith
  advance-Local me p m g l = ground arith

  pub advance-Global :
      (me : ℕ) (p : Pc E O) (m : Shared E O sync)
      → Global m
      → Local me p m
      → Global (advance ops me p m).0
  unfolding advance take get flush_step close_step
  advance-Global me (bind_trip k r) m g l = ground (arith, trip-flags none (m.heap r), g.stored r)
  advance-Global me (append_to e r) m g l =
      ground (arith, append-flags (m.heap r) (some e), g.stored r, g.born r)
  advance-Global me (pass_locked r) m g l =
      ground (arith, pass_through-flags (m.heap r), g.stored r, g.born r)
  advance-Global me (flush_trip r) m g l =
      ground (arith, trip-flags none (m.heap r), trip-reports (m.heap r), g.stored r, g.born r)
  advance-Global me (close_scope r) m g l =
      ground (arith, close-flags sync (m.heap r) m.pools, g.stored r, g.born r)
  advance-Global me p m g l = ground arith

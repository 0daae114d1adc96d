-- ===== src/Core/Scope/Refine.antt =====
-- internal/core/scope.go against Core/Log: the log that a scope holds, and the methods on both.
use dllog.Base.{ℕ, ◌-◌, ◌≡◌, List, Option, some, none, ◌==◌, if◌then◌else◌, arith}
use dllog.Core.Types.{Scope, Box}
use dllog.Core.SyncPool.{SyncPool}
use dllog.Core.Pool.{Pool}
use dllog.Core.Log
use dllog.Core.Log.{Log, Phase, buffering, passing, released}
use dllog.Core.Scope.{append, pass_through, read_ring, clear_ring, trip, close}
use dllog.Core.Scope.Window.{length-read_ring, window-append, window-evict}
use dllog.Core.Scope.Inv.{IsValid}

-- What is left of a budget; a limit of 0 is no bound.
abbrev pub left : ℕ → ℕ → Option ℕ
left limit used = if limit == 0 then none else some (limit - used)

module _ {T : Type 0} (zero_value : T) where
  -- The entries withheld, oldest first.
  abbrev pub contents : Scope T → List T
  contents s = read_ring zero_value s.ring s.start s.capacity 0 s.length

  abbrev pub view : Scope T → Log T
  view s = record {
    capacity = s.capacity;
    budget = left s.limit 0;
    dropped = s.dropped;
    phase =
        if s.closed
        then released s.trip_state
        else if s.trip_state
        then passing (left s.limit s.post_trip)
        else buffering (contents s);
  }

  -- On a valid scope `Append` returns what the log that the scope holds returns, and leaves the
  -- scope holding the log that this leaves.
  pub append_refines :
      (s : Scope T) (x : T)
      → IsValid s
      → (view (append s x).0, (append s x).1) ≡ Log.append (view s) x
  unfolding append Log.append
  append_refines s x v = ground (
    arith,
    length-read_ring zero_value s.ring s.start s.capacity 0 s.length,
    window-append zero_value s.ring s.start s.capacity s.length x v.start_in,
    window-evict zero_value s.ring s.start s.capacity x v.start_in,
  )

  pub pass_through_refines :
      (s : Scope T)
      → IsValid s
      → (view (pass_through s).0, (pass_through s).1) ≡ Log.pass_through (view s)
  unfolding pass_through Log.pass_through
  pass_through_refines s v = ground arith

  -- On a valid scope `Trip` returns what the log that the scope holds returns, its entries in
  -- order, and leaves the scope holding the log that this leaves.
  pub trip_refines :
      (s : Scope T)
      → IsValid s
      → let (s', entries, dropped, tripped) = trip zero_value s in
        (view s', entries, dropped, tripped) ≡ Log.trip (view s)
  unfolding trip clear_ring Log.trip
  trip_refines s v = ground arith

  pub close_refines :
      (sync : SyncPool (Box T)) (s : Scope T) (pools : List (Pool zero_value sync))
      → view (close zero_value sync s pools).0 ≡ Log.close (view s)
  unfolding close clear_ring Log.close
  close_refines sync s pools = ground arith

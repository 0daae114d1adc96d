-- ===== src/Core/Scope/Run.antt =====
-- Any sequence of calls on one scope, with what each returns.
use dllog.Base.{◌≡◌, refl, Int64, Bool, List, [], ◌∷◌, arith}
use dllog.Core.Types.{Action, Scope, Box}
use dllog.Core.SyncPool.{SyncPool}
use dllog.Core.Pool.{Pool}
use dllog.Core.Log
use dllog.Core.Log.{Log, phase_len, phase_tripped}
use dllog.Core.Scope as Engine
use dllog.Core.Scope.Window.{length-read_ring}
use dllog.Core.Scope.Inv.{
  IsValid, append-IsValid, pass_through-IsValid, trip-IsValid, close-IsValid,
}
use dllog.Core.Scope.Refine.{
  view, append_refines, pass_through_refines, trip_refines, close_refines,
}

-- The methods of `Scope`.
pub data Call (T : Type 0) : Type 0 where
  append : T → Call T
  pass_through : Call T
  trip : Call T
  close : Call T
  len : Call T
  dropped : Call T
  tripped : Call T
  capacity : Call T

pub data Reply (T : Type 0) : Type 0 where
  act : Action → Reply T
  flushed : List T → Int64 → Bool → Reply T
  number : Int64 → Reply T
  flag : Bool → Reply T
  done : Reply T

module _ {T : Type 0} (zero_value : T) (sync : SyncPool (Box T)) where
  unfoldable pub run : Scope T → List (Pool zero_value sync) → List (Call T) → List (Reply T)
  run s pools [] = []
  run s pools (Call.append x ∷ cs) =
      let (s', a) = Engine.append s x in Reply.act a ∷ run s' pools cs
  run s pools (Call.pass_through ∷ cs) =
      let (s', a) = Engine.pass_through s in Reply.act a ∷ run s' pools cs
  run s pools (Call.trip ∷ cs) =
      let (s', xs, n, t) = Engine.trip zero_value s in Reply.flushed xs n t ∷ run s' pools cs
  run s pools (Call.close ∷ cs) =
      let (s', pools') = Engine.close zero_value sync s pools in Reply.done ∷ run s' pools' cs
  run s pools (Call.len ∷ cs) = Reply.number (Engine.len s) ∷ run s pools cs
  run s pools (Call.dropped ∷ cs) = Reply.number (Engine.dropped s) ∷ run s pools cs
  run s pools (Call.tripped ∷ cs) = Reply.flag (Engine.tripped s) ∷ run s pools cs
  run s pools (Call.capacity ∷ cs) = Reply.number (Engine.capacity s) ∷ run s pools cs

-- The same calls on a log.
unfoldable pub run_log : {T : Type 0} → Log T → List (Call T) → List (Reply T)
run_log l [] = []
run_log l (Call.append x ∷ cs) = let (l', a) = Log.append l x in Reply.act a ∷ run_log l' cs
run_log l (Call.pass_through ∷ cs) = let (l', a) = Log.pass_through l in Reply.act a ∷ run_log l' cs
run_log l (Call.trip ∷ cs) = let (l', xs, n, t) = Log.trip l in Reply.flushed xs n t ∷ run_log l' cs
run_log l (Call.close ∷ cs) = Reply.done ∷ run_log (Log.close l) cs
run_log l (Call.len ∷ cs) = Reply.number (phase_len l.phase) ∷ run_log l cs
run_log l (Call.dropped ∷ cs) = Reply.number l.dropped ∷ run_log l cs
run_log l (Call.tripped ∷ cs) = Reply.flag (phase_tripped l.phase) ∷ run_log l cs
run_log l (Call.capacity ∷ cs) = Reply.number l.capacity ∷ run_log l cs

module _ {T : Type 0} (zero_value : T) where
  len_refines : (s : Scope T) → IsValid s → Engine.len s ≡ phase_len (view zero_value s).phase
  unfolding Engine.len
  len_refines s v = ground (arith, length-read_ring zero_value s.ring s.start s.capacity 0 s.length)

  tripped_refines :
      (s : Scope T) → IsValid s → Engine.tripped s ≡ phase_tripped (view zero_value s).phase
  unfolding Engine.tripped
  tripped_refines s v = ground arith

  -- Whatever methods are called on a valid scope, in whatever order, each returns what the same
  -- call on the abstract log that the scope holds returns.
  pub run_refines :
      (sync : SyncPool (Box T)) (cs : List (Call T)) (s : Scope T)
      (pools : List (Pool zero_value sync))
      → IsValid s
      → run zero_value sync s pools cs ≡ run_log (view zero_value s) cs
  unfolding run run_log Engine.capacity Engine.dropped
  run_refines sync [] s pools v = refl
  run_refines sync (Call.append x ∷ cs) s pools v =
      rw (run_refines sync cs _ pools (append-IsValid s x v), ← append_refines zero_value s x v)
  run_refines sync (Call.pass_through ∷ cs) s pools v = rw (
    run_refines sync cs _ pools (pass_through-IsValid s v),
    ← pass_through_refines zero_value s v,
  )
  run_refines sync (Call.trip ∷ cs) s pools v =
      rw (run_refines sync cs _ pools (trip-IsValid zero_value s v), ← trip_refines zero_value s v)
  run_refines sync (Call.close ∷ cs) s pools v = rw (
    run_refines sync cs _ _ (close-IsValid zero_value sync s pools v),
    close_refines zero_value sync s pools,
  )
  run_refines sync (Call.len ∷ cs) s pools v = rw (run_refines sync cs s pools v, len_refines s v)
  run_refines sync (Call.dropped ∷ cs) s pools v = rw (run_refines sync cs s pools v)
  run_refines sync (Call.tripped ∷ cs) s pools v =
      rw (run_refines sync cs s pools v, tripped_refines s v)
  run_refines sync (Call.capacity ∷ cs) s pools v = rw (run_refines sync cs s pools v)

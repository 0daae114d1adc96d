-- ===== src/Core/Carrier.antt =====
-- internal/core/carrier.go: the scope that the adapters on one context share, and the flush.
--
-- `E` is the adapters' implementations of `Entry`, and a cell of the ring is an `Option E`: `none`
-- is the nil interface. What an entry does when it is emitted is a list of outputs `O`.
-- A `*Scope[Entry]` that `Bind`, `MarkTripped` and `Bound` return is nil or the carrier's one scope,
-- so the model returns whether there is one, and the scope's methods act on the carrier's.
pub mod Cases
pub mod Inv
pub mod Hold
pub mod Bound
pub mod Kept
pub mod Stable
pub mod Passing
pub mod Opening
pub mod FirstTrip
pub mod Calls
pub mod Spent
pub mod Tripped
pub mod Passes
pub mod Once
mod Tests
use dllog.Base.{
  ℕ, ◌+◌, Int64, lt_int, Bool, true, false, ◌&&◌, ◌||◌, List, [], ◌∷◌, ◌++◌, Option, some, none,
  if◌then◌else◌, get_elem?, set, is_some,
}
use dllog.Core.Types.{Action, Scope, Box, BoxRef, PoolRef}
use dllog.Core.SyncPool.{SyncPool}
use dllog.Core.Pool.{Pool, get}
use dllog.Core.Scope as Engine

-- `Entry`: what the core asks of an adapter's slot.
pub record Entry (E O : Type 0) : Type 0 where
  pub emit : E → List O
  pub notify : E → Int64 → List O

pub record Carrier (E : Type 0) : Type 0 where
  pub scope : Option (Scope (Option E))
  pub pre_tripped : Bool
  pub closed : Bool

abbrev pub new_carrier : {E : Type 0} → Carrier E
new_carrier = record { scope = none; pre_tripped = false; closed = false }

-- One carrier, the pools of the program, the next free address, and the output so far.
pub record Store (E O : Type 0) (sync : SyncPool (Box (Option E))) : Type 0 where
  pub carrier : Carrier E
  pub pools : List (Pool {T = Option E} none sync)
  pub next_box : BoxRef
  pub out : List O

pub scope_tripped : {E : Type 0} → Option (Scope (Option E)) → Bool
unfolding Engine.tripped
scope_tripped none = false
scope_tripped (some s) = Engine.tripped s

module _ {E O : Type 0} {sync : SyncPool (Box (Option E))} where
  abbrev with_scope : Store E O sync → Scope (Option E) → Store E O sync
  with_scope st s = record st { carrier = record (st.carrier) { scope = some s } }

  -- A pool that is not there is a nil pointer, which no handler has.
  pub make_scope : PoolRef → Store E O sync → Option (Pool none sync) → Store E O sync × Bool
  make_scope ref st none = (st, false)
  make_scope ref st (some pool) =
      let (s, pool') = get none sync ref st.next_box pool in
      let s' = if st.carrier.pre_tripped then (Engine.trip none s).0 else s in
      (
        record (with_scope st s') { pools = set st.pools ref pool'; next_box = st.next_box + 1 },
        true,
      )

  -- What `Bind` does under the mutex.
  unfoldable pub bind_locked : PoolRef → Store E O sync → Store E O sync × Bool
  unfolding make_scope
  bind_locked ref st =
      if st.carrier.closed
      then (st, false)
      else if is_some st.carrier.scope
      then (st, true)
      else make_scope ref st (get_elem? st.pools ref)

  unfoldable pub bind : PoolRef → Store E O sync → Store E O sync × Bool
  unfolding bind_locked
  bind ref st =
      if st.carrier.closed
      then (st, false)
      else if is_some st.carrier.scope
      then (st, true)
      else bind_locked ref st

  -- `c.preTripped.Store(true)`
  unfoldable pub pre_trip : Store E O sync → Store E O sync
  pre_trip st = record st { carrier = record (st.carrier) { pre_tripped = true } }

  -- What `MarkTripped` does under the mutex.
  unfoldable pub mark_tripped_locked : Store E O sync → Store E O sync × Bool × Bool
  mark_tripped_locked st =
      if st.carrier.closed
      then (st, false, false)
      else if is_some st.carrier.scope
      then (st, true, false)
      else if st.carrier.pre_tripped
      then (st, false, false)
      else (pre_trip st, false, true)

  -- Whether there is a scope, and whether this call tripped the carrier.
  unfoldable pub mark_tripped : Store E O sync → Store E O sync × Bool × Bool
  unfolding mark_tripped_locked
  mark_tripped st =
      if st.carrier.closed
      then (st, false, false)
      else if is_some st.carrier.scope
      then (st, true, false)
      else mark_tripped_locked st

  unfoldable pub bound : Store E O sync → Bool
  bound st = if st.carrier.closed then false else is_some st.carrier.scope

  unfoldable pub tripped : Store E O sync → Bool
  unfolding scope_tripped
  tripped st =
      if st.carrier.closed
      then false
      else if st.carrier.pre_tripped
      then true
      else scope_tripped st.carrier.scope

  unfoldable pub closed : Store E O sync → Bool
  closed st = st.carrier.closed

  close_scope : Store E O sync → Option (Scope (Option E)) → Store E O sync
  close_scope st none = st
  close_scope st (some s) =
      let (s', pools') = Engine.close none sync s st.pools in
      record (with_scope st s') { pools = pools' }

  unfoldable pub close : Store E O sync → Store E O sync
  unfolding close_scope
  close st =
      close_scope (record st { carrier = record (st.carrier) { closed = true } }) st.carrier.scope

  -- The methods that an adapter calls on the scope it was handed; on nil they would fault.
  append_on : Store E O sync → E → Option (Scope (Option E)) → Store E O sync × Action
  append_on st e none = (st, Action.suppressed)
  append_on st e (some s) = let (s', a) = Engine.append s (some e) in (with_scope st s', a)

  unfoldable pub append : Store E O sync → E → Store E O sync × Action
  unfolding append_on
  append st e = append_on st e st.carrier.scope

  pass_through_on : Store E O sync → Option (Scope (Option E)) → Store E O sync × Action
  pass_through_on st none = (st, Action.pass_through)
  pass_through_on st (some s) = let (s', a) = Engine.pass_through s in (with_scope st s', a)

  unfoldable pub pass_through : Store E O sync → Store E O sync × Action
  unfolding pass_through_on
  pass_through st = pass_through_on st st.carrier.scope

module _ {E O : Type 0} (ops : Entry E O) where
  -- `dropped > 0 && len(entries) > 0 && entries[0] != nil`
  unfoldable pub notice : Int64 → List (Option E) → List O
  notice dropped [] = []
  notice dropped (none ∷ es) = []
  notice dropped (some e ∷ es) = if lt_int 0 dropped then ops.notify e dropped else []

  unfoldable pub emit_all : List (Option E) → List O
  emit_all [] = []
  emit_all (none ∷ es) = emit_all es
  emit_all (some e ∷ es) = ops.emit e ++ emit_all es

  module _ {sync : SyncPool (Box (Option E))} where
    pub flush_on : Store E O sync → Option (Scope (Option E)) → Store E O sync × Bool
    flush_on st none = (st, false)
    flush_on st (some s) =
        let (s', entries, dropped, tripped) = Engine.trip none s in
        let st' = with_scope st s' in
        if tripped
        then (record st' { out = st.out ++ (notice dropped entries ++ emit_all entries) }, true)
        else (st', false)

    -- `Flush`, on the carrier's scope.
    unfoldable pub flush : Store E O sync → Store E O sync × Bool
    unfolding flush_on
    flush st = flush_on st st.carrier.scope

    -- What both adapters make of a trip: `MarkTripped`, then `Flush` of the scope if there is one;
    -- whether this call is the one that tripped.
    unfoldable pub mark_and_flush : Store E O sync → Store E O sync × Bool
    mark_and_flush st =
        let (st', there, first) = mark_tripped st in if there then flush st' else (st', first)

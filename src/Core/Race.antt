-- ===== src/Core/Race.antt =====
-- internal/core/carrier.go under interleaving: several goroutines on one carrier, each load and
-- store of an atomic, each lock and unlock of the carrier's mutex, and each method of a scope
-- (whose body runs under the scope's own mutex) as a step.
--
-- Scopes stand on a heap, so that two of them can be told apart: a `*Scope` is its address.
pub mod Defs
pub mod Guarantee
pub mod Own
pub mod Inv
pub mod Safety
pub mod Closing
pub mod Progress
pub mod Sound
pub mod Schedule
mod Tests
pub mod Termination
use dllog.Base.{
  ◌≡◌, ℕ, ◌+◌, Bool, true, false, List, [], ◌∷◌, ◌++◌, Option, some, none, if◌then◌else◌, get_elem?,
  set, update,
}
use dllog.Core.Types.{Scope, Box, BoxRef, PoolRef}
use dllog.Core.SyncPool.{SyncPool}
use dllog.Core.Pool.{Pool, get}
use dllog.Core.Scope as Engine
use dllog.Core.Carrier.{Entry, notice, emit_all}

abbrev pub ScopeRef : Type 0
ScopeRef = ℕ

-- What the goroutines share. `triggers` counts the calls that learned that they tripped the scope;
-- no code reads it.
pub record Shared (E O : Type 0) (sync : SyncPool (Box (Option E))) : Type 0 where
  pub lock : Option ℕ
  pub scope : Option ScopeRef
  pub pre_tripped : Bool
  pub closed : Bool
  pub heap : ScopeRef → Scope (Option E)
  pub next_scope : ScopeRef
  pub pools : List (Pool {T = Option E} none sync)
  pub next_box : BoxRef
  pub out : List O
  pub triggers : ℕ

-- What an adapter binds a scope for: `Append`, or `PassThrough`.
pub data Use (E : Type 0) : Type 0 where
  append_entry : E → Use E
  offer_through : Use E

-- Where a goroutine stands: before the step that is named, with its live locals.
pub data Pc (E O : Type 0) : Type 0 where
  idle : Pc E O
  -- `Bind`
  bind_load_closed : PoolRef → Use E → Pc E O
  bind_load_scope : PoolRef → Use E → Pc E O
  bind_acquire : PoolRef → Use E → Pc E O
  bind_check_closed : PoolRef → Use E → Pc E O
  bind_check_scope : PoolRef → Use E → Pc E O
  bind_get : PoolRef → Use E → Pc E O
  bind_check_pre : Use E → ScopeRef → Pc E O
  bind_trip : Use E → ScopeRef → Pc E O
  bind_store : Use E → ScopeRef → Pc E O
  bind_release : Use E → Option ScopeRef → Pc E O
  -- `Append`, and `PassThrough` with its load outside the mutex
  append_to : E → ScopeRef → Pc E O
  pass_load : ScopeRef → Pc E O
  pass_locked : ScopeRef → Pc E O
  -- `MarkTripped`
  mark_load_closed : Pc E O
  mark_load_scope : Pc E O
  mark_acquire : Pc E O
  mark_check_closed : Pc E O
  mark_check_scope : Pc E O
  mark_check_pre : Pc E O
  mark_store : Pc E O
  mark_release : Option ScopeRef → Pc E O
  -- `Flush`: `Trip`, then the calls of the entries
  flush_trip : ScopeRef → Pc E O
  emitting : List O → Pc E O
  -- `Close`
  close_acquire : Pc E O
  close_load : Pc E O
  close_store : Option ScopeRef → Pc E O
  close_release : Option ScopeRef → Pc E O
  close_scope : ScopeRef → Pc E O

module _ {E O : Type 0} where
  abbrev pub used : Use E → ScopeRef → Pc E O
  used (append_entry e) r = append_to e r
  used offer_through r = pass_load r

  abbrev pub after_bind : Use E → Option ScopeRef → Pc E O
  after_bind k none = idle
  after_bind k (some r) = used k r

  abbrev pub after_mark : Option ScopeRef → Pc E O
  after_mark none = idle
  after_mark (some r) = flush_trip r

  abbrev pub after_close : Option ScopeRef → Pc E O
  after_close none = idle
  after_close (some r) = close_scope r

  -- A load of `c.scope`, and where to go on.
  abbrev pub branch : Option ScopeRef → Pc E O → (ScopeRef → Pc E O) → Pc E O
  branch none absent there = absent
  branch (some r) absent there = there r

module _ {E O : Type 0} {sync : SyncPool (Box (Option E))} where
  abbrev pub write : Shared E O sync → ScopeRef → Scope (Option E) → Shared E O sync
  write m r s = record m { heap = update m.heap r s }

  -- `mu.Lock()`: while another holds it, the goroutine stays where it is.
  abbrev pub acquire : ℕ → Option ℕ → Pc E O → Pc E O → Shared E O sync → Shared E O sync × Pc E O
  acquire me none here next m = (record m { lock = some me }, next)
  acquire me (some other) here next m = (m, here)

  -- `pool.Get()`. A pool that is not there is a nil pointer, which no handler has.
  take : Use E → PoolRef → Option (Pool none sync) → Shared E O sync → Shared E O sync × Pc E O
  take k ref none m = (m, bind_release k none)
  take k ref (some pool) m =
      let (s, pool') = get none sync ref m.next_box pool in
      (
        record m {
          heap = update m.heap m.next_scope s;
          next_scope = m.next_scope + 1;
          pools = set m.pools ref pool';
          next_box = m.next_box + 1;
        },
        bind_check_pre k m.next_scope,
      )

  module _ (ops : Entry E O) where
    -- `Flush`, up to the calls of the entries.
    flush_step : ScopeRef → Shared E O sync → Shared E O sync × Pc E O
    flush_step r m =
        let (s, entries, dropped, tripped) = Engine.trip none (m.heap r) in
        if tripped
        then (
          record m { heap = update m.heap r s; triggers = m.triggers + 1 },
          emitting (notice ops dropped entries ++ emit_all ops entries),
        )
        else (write m r s, idle)

    close_step : ScopeRef → Shared E O sync → Shared E O sync × Pc E O
    close_step r m =
        let (s, pools) = Engine.close none sync (m.heap r) m.pools in
        (record m { heap = update m.heap r s; pools = pools }, idle)

    -- The next step of goroutine `me`.
    unfoldable pub advance : ℕ → Pc E O → Shared E O sync → Shared E O sync × Pc E O
    unfolding take flush_step close_step
    advance me idle m = (m, idle)
    advance me (bind_load_closed ref k) m = (m, if m.closed then idle else bind_load_scope ref k)
    advance me (bind_load_scope ref k) m = (m, branch m.scope (bind_acquire ref k) (used k))
    advance me (bind_acquire ref k) m =
        acquire me m.lock (bind_acquire ref k) (bind_check_closed ref k) m
    advance me (bind_check_closed ref k) m =
        (m, if m.closed then bind_release k none else bind_check_scope ref k)
    advance me (bind_check_scope ref k) m =
        (m, branch m.scope (bind_get ref k) (λ r. bind_release k (some r)))
    advance me (bind_get ref k) m = take k ref (get_elem? m.pools ref) m
    advance me (bind_check_pre k r) m = (m, if m.pre_tripped then bind_trip k r else bind_store k r)
    advance me (bind_trip k r) m = (write m r (Engine.trip none (m.heap r)).0, bind_store k r)
    advance me (bind_store k r) m = (record m { scope = some r }, bind_release k (some r))
    advance me (bind_release k o) m = (record m { lock = none }, after_bind k o)
    advance me (append_to e r) m = (write m r (Engine.append (m.heap r) (some e)).0, idle)
    advance me (pass_load r) m = (m, if (m.heap r).tripped then pass_locked r else idle)
    advance me (pass_locked r) m = (write m r (Engine.pass_through (m.heap r)).0, idle)
    advance me mark_load_closed m = (m, if m.closed then idle else mark_load_scope)
    advance me mark_load_scope m = (m, branch m.scope mark_acquire flush_trip)
    advance me mark_acquire m = acquire me m.lock mark_acquire mark_check_closed m
    advance me mark_check_closed m = (m, if m.closed then mark_release none else mark_check_scope)
    advance me mark_check_scope m = (m, branch m.scope mark_check_pre (λ r. mark_release (some r)))
    advance me mark_check_pre m = (m, if m.pre_tripped then mark_release none else mark_store)
    advance me mark_store m =
        (record m { pre_tripped = true; triggers = m.triggers + 1 }, mark_release none)
    advance me (mark_release o) m = (record m { lock = none }, after_mark o)
    advance me (flush_trip r) m = flush_step r m
    advance me (emitting []) m = (m, idle)
    advance me (emitting (o ∷ os)) m = (record m { out = m.out ++ (o ∷ []) }, emitting os)
    advance me close_acquire m = acquire me m.lock close_acquire close_load m
    advance me close_load m = (m, close_store m.scope)
    advance me (close_store o) m = (record m { closed = true }, close_release o)
    advance me (close_release o) m = (record m { lock = none }, after_close o)
    advance me (close_scope r) m = close_step r m

-- What an adapter begins: a record that is withheld or offered, a trip, the end of the scope.
pub data Call (E : Type 0) : Type 0 where
  use_scope : PoolRef → Use E → Call E
  trip_scope : Call E
  close_carrier : Call E

abbrev pub entry : {E O : Type 0} → Call E → Pc E O
entry (use_scope ref k) = bind_load_closed ref k
entry trip_scope = mark_load_closed
entry close_carrier = close_acquire

pub record System (E O : Type 0) (sync : SyncPool (Box (Option E))) : Type 0 where
  pub mem : Shared E O sync
  pub pc : ℕ → Pc E O

module _ {E O : Type 0} {sync : SyncPool (Box (Option E))} (ops : Entry E O) where
  -- Goroutine `i` begins a call or takes its next step.
  pub data Step (s : System E O sync) : System E O sync → Type 0 where
    begin :
        (i : ℕ) (c : Call E) → s.pc i ≡ idle → Step s (record s { pc = update s.pc i (entry c) })
    move :
        (i : ℕ)
        → Step s (record {
          mem = (advance ops i (s.pc i) s.mem).0;
          pc = update s.pc i (advance ops i (s.pc i) s.mem).1;
        })

  pub data Reach (s : System E O sync) : System E O sync → Type 0 where
    here : Reach s s
    next : {t u : System E O sync} → Reach s t → Step t u → Reach s u

-- A new carrier, over given pools, and idle goroutines.
abbrev pub start :
    {E O : Type 0} {sync : SyncPool (Box (Option E))}
    → List (Pool {T = Option E} none sync)
    → System E O sync
start pools = record {
  mem = record {
    lock = none;
    scope = none;
    pre_tripped = false;
    closed = false;
    heap = λ _. Engine.new_scope none 0 0;
    next_scope = 0;
    pools = pools;
    next_box = 0;
    out = [];
    triggers = 0;
  };
  pc = λ _. idle;
}

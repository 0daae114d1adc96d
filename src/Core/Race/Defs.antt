-- ===== src/Core/Race/Defs.antt =====
-- internal/core/carrier.go under interleaving: what holds of the shared state, and what a goroutine
-- knows of it where it stands.
use dllog.Base.{ℕ, ◌≤◌, ◌≡◌, ◌≢◌, Bool, true, false, ◌||◌, Option, some, none, if◌then◌else◌}
use dllog.Core.Types.{Scope, Box}
use dllog.Core.SyncPool.{SyncPool}
use dllog.Core.Race.{
  ScopeRef, Shared, Pc, System, idle, bind_load_closed, bind_load_scope, bind_acquire,
  bind_check_closed, bind_check_scope, bind_get, bind_check_pre, bind_trip, bind_store,
  bind_release, append_to, pass_load, pass_locked, mark_load_closed, mark_load_scope, mark_acquire,
  mark_check_closed, mark_check_scope, mark_check_pre, mark_store, mark_release, flush_trip,
  emitting, close_acquire, close_load, close_store, close_release, close_scope,
}

abbrev pub tripped_of : {E : Type 0} → (ScopeRef → Scope (Option E)) → Option ScopeRef → Bool
tripped_of heap none = false
tripped_of heap (some r) = (heap r).trip_state

module _ {E O : Type 0} {sync : SyncPool (Box (Option E))} where
  -- No call can trip the carrier any more.
  abbrev pub spent : Shared E O sync → Bool
  spent m = m.pre_tripped || tripped_of m.heap m.scope

  abbrev pub Known : Shared E O sync → Option ScopeRef → Type 0
  Known m none = Unit
  Known m (some r) = m.scope ≡ some r

  -- The goroutine that holds the mutex.
  abbrev pub Owner : ℕ → Shared E O sync → Type 0
  Owner me m = (m.lock ≡ some me) × (m.scope ≡ none → m.next_scope ≡ 0)

  -- A scope that is made and not yet stored, by the goroutine that holds the mutex.
  pub record Fresh (me : ℕ) (m : Shared E O sync) (r : ScopeRef) : Type 0 where
    pub owned : m.lock ≡ some me
    pub unset : m.scope ≡ none
    pub live : m.closed ≡ false
    pub first : r ≡ 0
    pub only : m.next_scope ≡ 1
    pub opened : (m.heap 0).closed ≡ false

  abbrev pub Local : ℕ → Pc E O → Shared E O sync → Type 0
  Local me idle m = Unit
  Local me (bind_load_closed ref k) m = Unit
  Local me (bind_load_scope ref k) m = Unit
  Local me (bind_acquire ref k) m = Unit
  Local me (bind_check_closed ref k) m = Owner me m
  Local me (bind_check_scope ref k) m = Owner me m × (m.closed ≡ false)
  Local me (bind_get ref k) m = Owner me m × (m.closed ≡ false) × (m.scope ≡ none)
  Local me (bind_check_pre k r) m = Fresh me m r × ((m.heap 0).trip_state ≡ false)
  Local me (bind_trip k r) m =
      Fresh me m r × ((m.heap 0).trip_state ≡ false) × (m.pre_tripped ≡ true)
  Local me (bind_store k r) m = Fresh me m r × ((m.heap 0).trip_state ≡ m.pre_tripped)
  Local me (bind_release k o) m = Owner me m × Known m o
  Local me (append_to e r) m = m.scope ≡ some r
  Local me (pass_load r) m = m.scope ≡ some r
  Local me (pass_locked r) m = m.scope ≡ some r
  Local me mark_load_closed m = Unit
  Local me mark_load_scope m = Unit
  Local me mark_acquire m = Unit
  Local me mark_check_closed m = Owner me m
  Local me mark_check_scope m = Owner me m
  Local me mark_check_pre m = Owner me m × (m.scope ≡ none)
  Local me mark_store m = Owner me m × (m.scope ≡ none) × (m.pre_tripped ≡ false)
  Local me (mark_release o) m = Owner me m × Known m o
  Local me (flush_trip r) m = m.scope ≡ some r
  Local me (emitting os) m = Unit
  Local me close_acquire m = Unit
  Local me close_load m = Owner me m
  Local me (close_store o) m = Owner me m × (m.scope ≡ o)
  Local me (close_release o) m = Owner me m × Known m o
  Local me (close_scope r) m = m.scope ≡ some r

  pub record Global (m : Shared E O sync) : Type 0 where
    -- at most one scope is ever made
    pub few : m.next_scope ≤ 1
    pub stored : (r : ScopeRef) → m.scope ≡ some r → (r ≡ 0) × (m.next_scope ≡ 1)
    pub unmade : m.lock ≡ none → m.scope ≡ none → m.next_scope ≡ 0
    -- a trip that came first is in the scope
    pub born :
        (r : ScopeRef) → m.scope ≡ some r → m.pre_tripped ≡ true → (m.heap 0).trip_state ≡ true
    pub counted : m.triggers ≡ (if spent m then 1 else 0)

  -- What a step of goroutine `j` leaves to the others.
  pub record Guarantee (j : ℕ) (m m' : Shared E O sync) : Type 0 where
    pub keeps_scope : (r : ScopeRef) → m.scope ≡ some r → m'.scope ≡ some r
    pub keeps_lock : (i : ℕ) → i ≢ j → m.lock ≡ some i → m'.lock ≡ some i
    pub keeps_unset : (i : ℕ) → i ≢ j → m.lock ≡ some i → m'.scope ≡ m.scope
    pub keeps_closed : (i : ℕ) → i ≢ j → m.lock ≡ some i → m'.closed ≡ m.closed
    pub keeps_pre : (i : ℕ) → i ≢ j → m.lock ≡ some i → m'.pre_tripped ≡ m.pre_tripped
    pub keeps_made : (i : ℕ) → i ≢ j → m.lock ≡ some i → m'.next_scope ≡ m.next_scope
    pub keeps_fresh : (i : ℕ) → i ≢ j → m.lock ≡ some i → m.scope ≡ none → m'.heap 0 ≡ m.heap 0

  pub record Inv (s : System E O sync) : Type 0 where
    pub global : Global s.mem
    pub local : (i : ℕ) → Local i (s.pc i) s.mem

-- ===== src/Core/Race/Closing.antt =====
-- internal/core/carrier.go under interleaving: the scope of a carrier on which no call
-- of `Close` is under way any more.
use dllog.Base.{
  update_self, ◌==◌, eq_of_==, ◌⊎◌, inl, inr, Bool-cases, ℕ, ◌≡◌, refl, subst, sym, Bool, true,
  false, ◌||◌, List, Option, some, none, arith, is_some,
}
use dllog.Core.Types.{Scope, Box}
use dllog.Core.SyncPool.{SyncPool}
use dllog.Core.Pool.{Pool, get}
use dllog.Core.Scope as Engine
use dllog.Core.Carrier.{Entry}
use dllog.Core.Carrier.Inv.{append-flags, pass_through-flags, trip-flags}
use dllog.Core.Race.{
  ScopeRef, Shared, Use, Pc, System, Step, Reach, advance, take, flush_step, close_step, start,
  begin, move, here, next, bind_get, bind_trip, bind_release, append_to, pass_locked, flush_trip,
  close_release, close_scope,
}
use dllog.Core.Race.Defs.{Local, Global, Inv}
use dllog.Core.Race.Inv.{Reach-Inv}

append-closed : {T : Type 0} (s : Scope T) (x : T) → (Engine.append s x).0.closed ≡ s.closed
append-closed s x = (append-flags s x).0

pass_through-closed : {T : Type 0} (s : Scope T) → (Engine.pass_through s).0.closed ≡ s.closed
pass_through-closed s = (pass_through-flags s).0

trip-closed : {T : Type 0} (z : T) (s : Scope T) → (Engine.trip z s).0.closed ≡ s.closed
trip-closed z s = (trip-flags z s).0

close-closed :
    {T : Type 0} (z : T) (sync : SyncPool (Box T)) (s : Scope T) (pools : List (Pool z sync))
    → (Engine.close z sync s pools).0.closed ≡ true
unfolding Engine.close Engine.clear_ring
close-closed z sync s pools = ground arith

or-cases : (a b : Bool) → (a || b) ≡ true → (a ≡ true) ⊎ (b ≡ true)
or-cases true b e = inl refl
or-cases false b e = inr e

or-right : (a : Bool) → (a || true) ≡ true
or-right true = refl
or-right false = refl

module _ {E O : Type 0} where
  -- Past the store of the closed flag, with a scope to close.
  abbrev pub closing : Pc E O → Bool
  closing (close_release (some r)) = true
  closing (close_scope r) = true
  closing _ = false

module _ {E O : Type 0} {sync : SyncPool (Box (Option E))} where
  -- A closed carrier's scope is closed, or `b`.
  abbrev Ended : Shared E O sync → Bool → Type 0
  Ended m b = m.closed ≡ true → is_some m.scope ≡ true → ((m.heap 0).closed || b) ≡ true

  module _ (ops : Entry E O) where
    advance-Ended :
        (i : ℕ) (p : Pc E O) (m : Shared E O sync)
        → Global m
        → Local i p m
        → Ended m (closing p)
        → Ended (advance ops i p m).0 (closing (advance ops i p m).1)
    unfolding advance take get flush_step close_step
    advance-Ended i (append_to x r) m g l e c t =
        ground (arith, append-closed (m.heap r) (some x), g.stored r)
    advance-Ended i (pass_locked r) m g l e c t =
        ground (arith, pass_through-closed (m.heap r), g.stored r)
    advance-Ended i (bind_trip k r) m g l e c t = cc
    advance-Ended i (flush_trip r) m g l e c t =
        ground (arith, trip-closed none (m.heap r), g.stored r)
    advance-Ended i (close_scope r) m g l e c t =
        ground (arith, close-closed none sync (m.heap r) m.pools, g.stored r)
    advance-Ended i (bind_get ref k) m g l e c t = ground arith
    advance-Ended i (bind_release (Use.append_entry x) none) m g l e c t = ground arith
    advance-Ended i p m g l e c t = ground arith

    -- The goroutine that will close the scope, if it is not closed yet.
    abbrev Closes : System E O sync → Type 0
    Closes s =
        s.mem.closed ≡ true
        → is_some s.mem.scope ≡ true
        → ((s.mem.heap 0).closed ≡ true) ⊎ ((i : ℕ) × (closing (s.pc i) ≡ true))

    -- Goroutine `i` alone answers for the scope, or another does.
    Closes-cases :
        (s : System E O sync) (i : ℕ)
        → Closes s
        → Ended s.mem (closing (s.pc i))
          ⊎ ((k : ℕ) × ((k == i) ≡ false) × (closing (s.pc k) ≡ true))
    Closes-cases s i old = elim (Bool-cases s.mem.closed) [
      | inr open_yet ↦ inl (λ c t. cc)
      | inl c ↦ elim (Bool-cases (is_some s.mem.scope)) [
        | inr unset ↦ inl (λ _ t. cc)
        | inl t ↦ elim (old c t) [
          | inl h ↦ inl (λ _ _. rw h refl)
          | inr (k, h) ↦ elim (Bool-cases (k == i)) [
            | inl same ↦
                inl (λ _ _. rw (← eq_of_== k i same) (rw h (or-right (s.mem.heap 0).closed)))
            | inr other ↦ inr (k, other, h)
          ]
        ]
      ]
    ]

    Step-Closes : {s t : System E O sync} → Step ops s t → Inv s → Closes s → Closes t
    Step-Closes {s} (begin i call e) v old c t = elim (old c t) [
      | inl h ↦ inl h
      | inr (k, h) ↦ elim (Bool-cases (k == i)) [
        | inl same ↦ cc (eq_of_== k i same, e, h)
        | inr other ↦ inr (k, rw other h)
      ]
    ]
    Step-Closes {s} (move i) v old c t = elim (Closes-cases s i old) [
      | inr (k, other, h) ↦ inr (k, rw other h)
      | inl e ↦ elim (or-cases _ _ (advance-Ended i (s.pc i) s.mem v.global (v.local i) e c t)) [
        | inl h ↦ inl h
        | inr h ↦ inr (i, rw (update_self s.pc i (advance ops i (s.pc i) s.mem).1) h)
      ]
    ]

    Reach-Closes :
        (pools : List (Pool {T = Option E} none sync)) {s : System E O sync}
        → Reach ops (start pools) s
        → Closes s
    Reach-Closes pools here = λ c t. cc
    Reach-Closes pools (next r st) = Step-Closes st (Reach-Inv ops pools r) (Reach-Closes pools r)

    -- Whatever the interleaving, when the carrier is closed and no call of `Close` is between
    -- its store of the flag and its close of the scope, the carrier's scope, if it has one,
    -- is closed: no goroutine that binds late leaves an open one.
    pub no_leak :
        (pools : List (Pool {T = Option E} none sync)) {s : System E O sync} (q : ScopeRef)
        → Reach ops (start pools) s
        → ((i : ℕ) → closing (s.pc i) ≡ false)
        → s.mem.closed ≡ true
        → s.mem.scope ≡ some q
        → (s.mem.heap q).closed ≡ true
    no_leak pools {s} q r quiet c e = elim (Reach-Closes pools r c (rw e refl)) [
      | inl h ↦
          subst (λ k. (s.mem.heap k).closed ≡ true)
            (sym ((Reach-Inv ops pools r).global.stored q e).0) h
      | inr (i, h) ↦ cc (quiet i, h)
    ]

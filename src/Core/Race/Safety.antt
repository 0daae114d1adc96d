-- ===== src/Core/Race/Safety.antt =====
-- internal/core/carrier.go under interleaving: what no schedule can break.
use dllog.Base.{
  ℕ, ◌≤◌, ◌≡◌, ◌≢◌, refl, update, update_ne, inl, inr, Bool-cases, subst, sym, ◌∙◌, Bool, true,
  false, List, Option, some, none, arith,
}
use mathlib.Core.Option.{some-injective}
use dllog.Core.Types.{Box, Scope}
use dllog.Core.SyncPool.{SyncPool}
use dllog.Core.Pool.{Pool}
use dllog.Core.Scope as Engine
use dllog.Core.Carrier.{Entry}
use dllog.Core.Race.{
  ScopeRef, Shared, Pc, System, Reach, start, idle, bind_check_closed, bind_check_scope, bind_get,
  bind_check_pre, bind_trip, bind_store, bind_release, append_to, pass_load, pass_locked,
  mark_check_closed, mark_check_scope, mark_check_pre, mark_store, mark_release, flush_trip,
  close_load, close_store, close_release, close_scope, advance, flush_step, close_step,
}
use dllog.Core.Race.Defs.{Local, Global}
use dllog.Core.Race.Inv.{Reach-Inv}

module _ {E O : Type 0} where
  -- The scope that a goroutine made, was handed, or found, and acts on.
  abbrev pub handed : Pc E O → Option ScopeRef
  handed (bind_check_pre k r) = some r
  handed (bind_trip k r) = some r
  handed (bind_store k r) = some r
  handed (bind_release k o) = o
  handed (append_to e r) = some r
  handed (pass_load r) = some r
  handed (pass_locked r) = some r
  handed (mark_release o) = o
  handed (flush_trip r) = some r
  handed (close_store o) = o
  handed (close_release o) = o
  handed (close_scope r) = some r
  handed _ = none

  -- Between `mu.Lock()` and `mu.Unlock()`.
  unfoldable pub critical : Pc E O → Bool
  critical (bind_check_closed ref k) = true
  critical (bind_check_scope ref k) = true
  critical (bind_get ref k) = true
  critical (bind_check_pre k r) = true
  critical (bind_trip k r) = true
  critical (bind_store k r) = true
  critical (bind_release k o) = true
  critical mark_check_closed = true
  critical mark_check_scope = true
  critical mark_check_pre = true
  critical mark_store = true
  critical (mark_release o) = true
  critical close_load = true
  critical (close_store o) = true
  critical (close_release o) = true
  critical _ = false

module _ {E O : Type 0} {sync : SyncPool (Box (Option E))} where
  -- The carrier's first scope is the only one that is handed.
  handed-Local :
      (i : ℕ) (p : Pc E O) (m : Shared E O sync) (r : ScopeRef)
      → Global m
      → Local i p m
      → handed p ≡ some r
      → r ≡ 0
  handed-Local i (bind_check_pre k q) m r g l e = cc (l.0.first, some-injective q r e)
  handed-Local i (bind_trip k q) m r g l e = cc (l.0.first, some-injective q r e)
  handed-Local i (bind_store k q) m r g l e = cc (l.0.first, some-injective q r e)
  handed-Local i (bind_release k (some q)) m r g l e = (g.stored r (l.1 ∙ e)).0
  handed-Local i (append_to x q) m r g l e = (g.stored r (l ∙ e)).0
  handed-Local i (pass_load q) m r g l e = (g.stored r (l ∙ e)).0
  handed-Local i (pass_locked q) m r g l e = (g.stored r (l ∙ e)).0
  handed-Local i (mark_release (some q)) m r g l e = (g.stored r (l.1 ∙ e)).0
  handed-Local i (flush_trip q) m r g l e = (g.stored r (l ∙ e)).0
  handed-Local i (close_store o) m r g l e = (g.stored r (l.1 ∙ e)).0
  handed-Local i (close_release (some q)) m r g l e = (g.stored r (l.1 ∙ e)).0
  handed-Local i (close_scope q) m r g l e = (g.stored r (l ∙ e)).0
  handed-Local i p m r g l e = cc

  untouched :
      (m : Shared E O sync) (q x r : ScopeRef) (v : Scope (Option E))
      → some r ≡ some q
      → x ≢ q
      → update m.heap r v x ≡ m.heap x
  untouched m q x r v e apart = update_ne m.heap r x v λ same. apart (same ∙ some-injective r q e)

  module _ (ops : Entry E O) where
    -- A step touches no scope but the one that its goroutine is handed.
    advance-apart :
        (i : ℕ) (p : Pc E O) (m : Shared E O sync) (q x : ScopeRef)
        → handed p ≡ some q
        → x ≢ q
        → (advance ops i p m).0.heap x ≡ m.heap x
    unfolding advance flush_step close_step
    advance-apart i (bind_check_pre k r) m q x e apart = refl
    advance-apart i (bind_trip k r) m q x e apart = untouched m q x r _ e apart
    advance-apart i (bind_store k r) m q x e apart = refl
    advance-apart i (bind_release k o) m q x e apart = refl
    advance-apart i (append_to y r) m q x e apart = untouched m q x r _ e apart
    advance-apart i (pass_load r) m q x e apart = refl
    advance-apart i (pass_locked r) m q x e apart = untouched m q x r _ e apart
    advance-apart i (mark_release o) m q x e apart = refl
    advance-apart i (flush_trip r) m q x e apart =
        elim (Bool-cases (Engine.trip none (m.heap r)).3) [
          | inl t ↦ rw t (untouched m q x r _ e apart)
          | inr t ↦ rw t (untouched m q x r _ e apart)
        ]
    advance-apart i (close_store o) m q x e apart = refl
    advance-apart i (close_release o) m q x e apart = refl
    advance-apart i (close_scope r) m q x e apart = untouched m q x r _ e apart
    advance-apart i p m q x e apart = cc

  critical-Local :
      (i : ℕ) (p : Pc E O) (m : Shared E O sync) → Local i p m → critical p ≡ true → m.lock ≡ some i
  unfolding critical
  critical-Local i idle m l c = cc
  critical-Local i p m l c = ground arith

  module _ (ops : Entry E O) (pools : List (Pool {T = Option E} none sync))
      {s : System E O sync} where
    -- At most one scope is ever made for a carrier.
    pub one_scope : Reach ops (start pools) s → s.mem.next_scope ≤ 1
    one_scope r = (Reach-Inv ops pools r).global.few

    -- Goroutines that bind, trip, append, offer, flush and close on one carrier, interleaved
    -- in any way at the granularity of its atomic loads, stores and locks: any two of them
    -- that stand before a step on a scope, which each made, was handed or found, stand before
    -- a step on the same one, and the step leaves every other scope as it is.
    pub handed_one :
        (i j : ℕ) (q q' x : ScopeRef)
        → Reach ops (start pools) s
        → handed (s.pc i) ≡ some q
        → handed (s.pc j) ≡ some q'
        → x ≢ q'
        → (q ≡ q') × ((advance ops i (s.pc i) s.mem).0.heap x ≡ s.mem.heap x)
    handed_one i j q q' x r e e' apart =
        let v = Reach-Inv ops pools r in
        let first = handed-Local i (s.pc i) s.mem q v.global (v.local i) e in
        let same = first ∙ sym (handed-Local j (s.pc j) s.mem q' v.global (v.local j) e') in
        (same, advance-apart ops i (s.pc i) s.mem q x e λ at. apart (at ∙ same))

    -- Whatever the interleaving, at most one call learns that it tripped the carrier, whether
    -- before its scope was made or by a flush.
    pub one_trigger : Reach ops (start pools) s → s.mem.triggers ≤ 1
    one_trigger r = let counted = (Reach-Inv ops pools r).global.counted in ground arith

    -- Whatever the interleaving, two goroutines between the lock and the unlock of the
    -- carrier's mutex are one.
    pub mutual_exclusion :
        (i j : ℕ)
        → Reach ops (start pools) s
        → critical (s.pc i) ≡ true
        → critical (s.pc j) ≡ true
        → i ≡ j
    mutual_exclusion i j r c c' =
        let v = Reach-Inv ops pools r in
        some-injective i j (
          sym (critical-Local i (s.pc i) s.mem (v.local i) c)
          ∙ critical-Local j (s.pc j) s.mem (v.local j) c')

    -- Whatever the interleaving, if a trip was remembered and the carrier has a scope, that
    -- scope is tripped: a trip before the scope is not lost.
    pub born_tripped :
        (q : ScopeRef)
        → Reach ops (start pools) s
        → s.mem.scope ≡ some q
        → s.mem.pre_tripped ≡ true
        → (s.mem.heap q).trip_state ≡ true
    born_tripped q r e t =
        let v = Reach-Inv ops pools r in
        subst (λ k. (s.mem.heap k).trip_state ≡ true) (sym (v.global.stored q e).0)
          (v.global.born q e t)

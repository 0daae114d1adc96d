-- ===== src/Core/Race/Inv.antt =====
-- internal/core/carrier.go under interleaving: the invariant of every reachable state.
use dllog.Base.{
  ℕ, ◌≡◌, ◌≢◌, refl, subst, sym, false, ◌==◌, eq_of_==, List, Option, none, update, arith,
  Bool-cases, inl, inr,
}
use dllog.Core.Types.{Box}
use dllog.Core.SyncPool.{SyncPool}
use dllog.Core.Pool.{Pool}
use dllog.Core.Carrier.{Entry}
use dllog.Core.Race.{Shared, Pc, Call, System, Step, Reach, entry, start, begin, move, here, next}
use dllog.Core.Race.Defs.{Local, Inv}
use dllog.Core.Race.Guarantee.{advance-Guarantee, Guarantee-Local}
use dllog.Core.Race.Own.{advance-Local, advance-Global}

pub ne_of_== : (i j : ℕ) → (i == j) ≡ false → i ≢ j
ne_of_== i j e = ground arith

module _ {E O : Type 0} {sync : SyncPool (Box (Option E))} where
  update-Local :
      (pc : ℕ → Pc E O) (i : ℕ) (p : Pc E O) (m : Shared E O sync)
      → Local i p m
      → ((j : ℕ) → j ≢ i → Local j (pc j) m)
      → (j : ℕ) → Local j (update pc i p j) m
  update-Local pc i p m own others j = elim (Bool-cases (j == i)) [
    | inl e ↦ rw e (subst (λ k. Local k p m) (sym (eq_of_== j i e)) own)
    | inr e ↦ rw e (others j (ne_of_== j i e))
  ]

  entry-Local : (i : ℕ) (c : Call E) (m : Shared E O sync) → Local i (entry c) m
  entry-Local i (Call.use_scope ref k) m = tt
  entry-Local i Call.trip_scope m = tt
  entry-Local i Call.close_carrier m = tt

  pub start-Inv :
      (pools : List (Pool {T = Option E} none sync))
      → Inv {E = E} {O = O} {sync = sync} (start pools)
  start-Inv pools = record {
    global = record {
      few = omega arith;
      stored = λ r e. cc;
      unmade = λ _ _. refl;
      born = λ r e. cc;
      counted = refl;
    };
    local = λ i. tt;
  }

  module _ (ops : Entry E O) where
    pub Step-Inv : {s t : System E O sync} → Step ops s t → Inv s → Inv t
    Step-Inv {s} (begin i c e) v = record {
      global = v.global;
      local = update-Local s.pc i (entry c) s.mem (entry-Local i c s.mem) (λ j ne. v.local j);
    }
    Step-Inv {s} (move i) v = record {
      global = advance-Global ops i (s.pc i) s.mem v.global (v.local i);
      local =
          update-Local s.pc i _ _ (advance-Local ops i (s.pc i) s.mem v.global (v.local i)) λ j ne.
            Guarantee-Local j i (s.pc j) s.mem _ ne
              (advance-Guarantee ops i (s.pc i) s.mem v.global (v.local i)) (v.local j);
    }

    pub Reach-Inv :
        (pools : List (Pool {T = Option E} none sync)) {s : System E O sync}
        → Reach ops (start pools) s
        → Inv s
    Reach-Inv pools here = start-Inv pools
    Reach-Inv pools (next r st) = Step-Inv st (Reach-Inv pools r)

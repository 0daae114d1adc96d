-- ===== src/Core/Race/Sound.antt =====
-- internal/core/carrier.go under interleaving: the scopes and the pools.
use dllog.Base.{
  Bool-cases, inl, inr, ℕ, zero, suc, ◌≤◌, arith, ◌≡◌, refl, List, Option, some, none, get_elem?,
  [], ◌∷◌, All, All-set, All-get_elem?,
}
use dllog.Core.Types.{Scope, Box}
use dllog.Core.SyncPool.{SyncPool}
use dllog.Core.Pool.{Pool}
use dllog.Core.Scope as Engine
use dllog.Core.Carrier.{Entry}
use dllog.Core.Race.{
  Step, Reach, begin, move, here, next, start, acquire, System, bind_acquire, mark_acquire,
  close_acquire, PoolRef, ScopeRef, Shared, Use, Pc, advance, take, flush_step, close_step, write,
  bind_get, bind_trip, append_to, pass_locked, flush_trip, emitting, close_scope,
}
use dllog.Core.Race.Defs.{Local, Global, Inv}
use dllog.Core.Race.Inv.{Reach-Inv}
use dllog.Core.Scope.Inv.{
  IsValid, append-IsValid, pass_through-IsValid, trip-IsValid, close-IsValid,
}
use dllog.Core.Scope.Pooled.{PoolFits, get-PoolFits, close-PoolFits}

-- The scope that is stored, if one is.
abbrev pub HasValid : {E : Type 0} → (ScopeRef → Scope (Option E)) → Option ScopeRef → Type 0
HasValid heap none = Unit
HasValid heap (some q) = IsValid (heap q)

-- The scopes before `n`.
abbrev pub AllMade : {E : Type 0} → (ScopeRef → Scope (Option E)) → ℕ → Type 0
AllMade heap zero = Unit
AllMade heap (suc n) = IsValid (heap n) × AllMade heap n

module _ {E O : Type 0} {sync : SyncPool (Box (Option E))} where
  -- Every scope that was made is valid, every pool is fit.
  record Sound (m : Shared E O sync) : Type 0 where
    valid : m.next_scope ≡ 1 → IsValid (m.heap 0)
    fit : All (PoolFits none sync) m.pools

  -- A method of the one scope that keeps it valid.
  write-Sound :
      (m : Shared E O sync) (r : ScopeRef) (s : Scope (Option E))
      → r ≡ 0
      → (IsValid (m.heap 0) → IsValid s)
      → Sound m
      → Sound (write m r s)
  write-Sound m r s e keep v = rw e (record { valid = λ made. keep (v.valid made); fit = v.fit })

  acquire-Sound :
      (me : ℕ) (o : Option ℕ) (stays goes : Pc E O) (m : Shared E O sync)
      → Sound m
      → Sound (acquire me o stays goes m).0
  acquire-Sound me none stays goes m v = record { valid = v.valid; fit = v.fit }
  acquire-Sound me (some other) stays goes m v = v

  module _ (ops : Entry E O) where
    take-Sound :
        (k : Use E) (ref : PoolRef) (p : Option (Pool none sync)) (m : Shared E O sync)
        → get_elem? m.pools ref ≡ p
        → m.next_scope ≡ 0
        → Sound m
        → Sound (take k ref p m).0
    unfolding take
    take-Sound k ref none m at made v = v
    take-Sound k ref (some p) m at made v =
        let (good, _, fit) =
          get-PoolFits none sync ref m.next_box p
            (All-get_elem? (PoolFits none sync) m.pools ref p at v.fit) in
        record {
          valid = λ _. rw made good;
          fit = All-set (PoolFits none sync) m.pools ref _ fit v.fit;
        }

    advance-Sound :
        (me : ℕ) (p : Pc E O) (m : Shared E O sync)
        → Global m
        → Local me p m
        → Sound m
        → Sound (advance ops me p m).0
    unfolding advance flush_step close_step
    advance-Sound me (bind_get ref k) m g l v = take-Sound k ref _ m refl (l.0.1 l.2) v
    advance-Sound me (bind_trip k r) m g l v =
        write-Sound m r _ l.0.first (rw l.0.first (trip-IsValid none (m.heap 0))) v
    advance-Sound me (append_to x r) m g l v =
        write-Sound m r _ (g.stored r l).0
          (rw (g.stored r l).0 (append-IsValid (m.heap 0) (some x))) v
    advance-Sound me (pass_locked r) m g l v =
        write-Sound m r _ (g.stored r l).0 (rw (g.stored r l).0 (pass_through-IsValid (m.heap 0))) v
    advance-Sound me (flush_trip r) m g l v =
        let w =
          write-Sound m r (Engine.trip none (m.heap r)).0 (g.stored r l).0
            (rw (g.stored r l).0 (trip-IsValid none (m.heap 0))) v in
        elim (Bool-cases (Engine.trip none (m.heap r)).3) [
          | inl e ↦ rw e (record { valid = w.valid; fit = w.fit })
          | inr e ↦ rw e w
        ]
    advance-Sound me (close_scope r) m g l v =
        let w =
          write-Sound m r (Engine.close none sync (m.heap r) m.pools).0 (g.stored r l).0
            (rw (g.stored r l).0 (close-IsValid none sync (m.heap 0) m.pools)) v in
        record { valid = w.valid; fit = close-PoolFits none sync (m.heap r) m.pools v.fit }
    advance-Sound me (emitting []) m g l v = v
    advance-Sound me (emitting (o ∷ os)) m g l v = record { valid = v.valid; fit = v.fit }
    advance-Sound me (bind_acquire ref k) m g l v = acquire-Sound me m.lock _ _ m v
    advance-Sound me mark_acquire m g l v = acquire-Sound me m.lock _ _ m v
    advance-Sound me close_acquire m g l v = acquire-Sound me m.lock _ _ m v
    advance-Sound me p m g l v = record { valid = v.valid; fit = v.fit }

    Step-Sound : {s t : System E O sync} → Step ops s t → Inv s → Sound s.mem → Sound t.mem
    Step-Sound (begin i c e) w v = v
    Step-Sound {s} (move i) w v = advance-Sound i (s.pc i) s.mem w.global (w.local i) v

    Reach-Sound :
        (pools : List (Pool {T = Option E} none sync)) {s : System E O sync}
        → All (PoolFits none sync) pools
        → Reach ops (start pools) s
        → Sound s.mem
    Reach-Sound pools fit here = record { valid = λ e. cc; fit = fit }
    Reach-Sound pools fit (next r st) =
        Step-Sound st (Reach-Inv ops pools r) (Reach-Sound pools fit r)

    Sound-Made :
        (n : ℕ) (m : Shared E O sync) → m.next_scope ≡ n → n ≤ 1 → Sound m → AllMade m.heap n
    Sound-Made zero m e few v = tt
    Sound-Made (suc zero) m e few v = (v.valid e, tt)
    Sound-Made (suc (suc n)) m e few v = absurd (omega (arith, few))

    Sound-Stored :
        (o : Option ScopeRef) (m : Shared E O sync)
        → m.scope ≡ o
        → Global m
        → Sound m
        → HasValid m.heap o
    Sound-Stored none m e g v = tt
    Sound-Stored (some q) m e g v = let (first, made) = g.stored q e in rw first (v.valid made)

    -- If every pool is fit at the start, then in every reachable state, whether the carrier
    -- has a scope or not, every pool is fit: its sizes in bounds, its rings zeroed and of its
    -- size; the carrier's scope is valid, if it has one; and so is every scope that was made,
    -- stored or not.
    pub Reach-IsValid :
        (pools : List (Pool {T = Option E} none sync)) {s : System E O sync}
        → All (PoolFits none sync) pools
        → Reach ops (start pools) s
        → All (PoolFits none sync) s.mem.pools
          × HasValid s.mem.heap s.mem.scope
          × AllMade s.mem.heap s.mem.next_scope
    Reach-IsValid pools {s} fit r =
        let v = Reach-Sound pools fit r in
        let g = (Reach-Inv ops pools r).global in
        (v.fit, Sound-Stored _ s.mem refl g v, Sound-Made _ s.mem refl g.few v)

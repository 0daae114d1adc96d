-- ===== src/Slog/Replay.antt =====
-- handler.go and scope.go together: what one operation puts out, quiet or failed.
use dllog.Base.{
  true, get_elem?, get_or-append_end, length-append, ◌≡◌, refl, sym, ap, ◌∙◌, subst, le_int, false,
  List, [], ◌∷◌, ◌++◌, Option, some, none, append-nil, append_assoc, arith, length, All, length-set,
  ◌<◌,
}
use dllog.Core.Types.{Box}
use dllog.Core.Pool.{Pool}
use dllog.Core.Scope.Pooled.{IsPoolOf, PoolFits}
use dllog.Core.SyncPool.{SyncPool}
use dllog.Slots.Replay.{replay}
use dllog.Core.Carrier.{new_carrier}
use dllog.Core.Context.{Ctx, Context, CarrierRef, from_context, store_at, on}
use dllog.Slots.{handled, SlotStore, SlotWorld, Slot}
use dllog.Slog.Types.{Record}
use dllog.Slog.Scope.{scope, run_done, live_carrier}
use dllog.Slog.Handler.{Handler, Setting, trip_level, handle, handle_scoped}
use dllog.Slog.Session.{handle_trip-Holding, shown, withheld, Holding, handle_scoped-Holding}
use dllog.Slog.Calls.{handle-on}
use dllog.Slog.Live.{run_done-out, store_at-put_back}

module _ {V D Z Err : Type 0} (set : Setting V D Z Err) (h : Handler V D) (ctx : Context) where
  abbrev pub IsQuiet : Record → Type 0
  IsQuiet r = le_int (trip_level set h) r.level ≡ false

  shown-cons :
      (r : Record) (rs : List Record)
      → shown set h ctx (r ∷ rs) ≡ shown set h ctx (r ∷ []) ++ shown set h ctx rs
  unfolding shown
  shown-cons r rs = ap (λ xs. xs ++ shown set h ctx rs) (sym (append-nil _))

  withheld-cons :
      (r : Record) (rs : List Record)
      → withheld {Z = Z} set h ctx (r ∷ rs) ≡ withheld set h ctx (r ∷ []) ++ withheld set h ctx rs
  unfolding withheld
  withheld-cons r rs = ap (λ xs. xs ++ withheld set h ctx rs) (sym (append-nil _))

  module _ {sync : SyncPool (Box (Option (Slot D Z)))} where
    -- The records of an operation, logged one after the other.
    unfoldable pub log_all : List Record → SlotWorld D Z sync → SlotWorld D Z sync
    log_all [] w = w
    log_all (r ∷ rs) w = log_all rs (handle set h ctx r w).0

    -- The handler's pool is there, as its constructor made it, up to the rings it holds.
    pub record HasPool (w : SlotWorld D Z sync) : Type 0 where
      pub pool : Pool none sync
      pub pool_at : get_elem? w.pools h.pool ≡ some pool
      pub pool_of : IsPoolOf none sync h.cfg.capacity h.cfg.post_trip_limit pool
      pub pool_fits : PoolFits none sync pool

    -- The carrier `c` of the context is live, and it was given `seen`.
    pub record IsOpen (w : SlotWorld D Z sync) (c : CarrierRef) (seen : List (Option (Slot D Z)))
        : Type 0 where
      pub inside : c < length w.carriers
      pub holding : Holding set h ctx (store_at w c) seen

    handle-IsOpen :
        (w : SlotWorld D Z sync) (c : CarrierRef) (seen : List (Option (Slot D Z))) (r : Record)
        → from_context ctx ≡ some c
        → IsOpen w c seen
        → IsQuiet r
        → let w' = (handle set h ctx r w).0 in
          IsOpen w' c (seen ++ withheld set h ctx (r ∷ []))
          × (w'.out ≡ w.out ++ shown set h ctx (r ∷ []))
    unfolding on
    handle-IsOpen w c seen r at k quiet =
        let (kept, out) = handle_scoped-Holding set h ctx (store_at w c) seen r k.holding quiet in
        rw (handle-on set h ctx r w c at k.holding.live) (
          record {
            inside = omega (arith, length-set w.carriers c after.carrier, k.inside);
            holding =
                subst (λ st. Holding set h ctx st (seen ++ withheld set h ctx (r ∷ [])))
                  (sym (store_at-put_back w c after k.inside)) kept;
          },
          out,
        )
      where
        after : SlotStore D Z sync
        after = (handle_scoped set h ctx r (store_at w c)).0

    -- Records below the trip level go out as far as the level lets them, and the others are held.
    log_all-IsOpen :
        (w : SlotWorld D Z sync) (c : CarrierRef) (seen : List (Option (Slot D Z)))
        (rs : List Record)
        → from_context ctx ≡ some c
        → IsOpen w c seen
        → All IsQuiet rs
        → let w' = log_all rs w in
          IsOpen w' c (seen ++ withheld set h ctx rs) × (w'.out ≡ w.out ++ shown set h ctx rs)
    unfolding log_all shown withheld
    log_all-IsOpen w c seen [] at k quiet = rw (append-nil seen) (k, sym (append-nil w.out))
    log_all-IsOpen w c seen (r ∷ rs) at k (q, quiet) =
        let (k', out) = handle-IsOpen w c seen r at k q in
        let (k'', out') =
          log_all-IsOpen after c (seen ++ withheld set h ctx (r ∷ [])) rs at k' quiet in
        (
          subst (IsOpen (log_all rs after) c)
              (append_assoc seen _ _ ∙ ap (λ xs. seen ++ xs) (sym (withheld-cons r rs))) k'',
          out'
              ∙ ap (λ xs. xs ++ shown set h ctx rs) out
              ∙ append_assoc w.out _ _
              ∙ ap (λ xs. w.out ++ xs) (sym (shown-cons r rs)),
        )
      where
        after : SlotWorld D Z sync
        after = (handle set h ctx r w).0

    -- The scope that is opened where there was none is live, and holds nothing.
    pub scope-IsOpen :
        (w : SlotWorld D Z sync) (base : Ctx)
        → live_carrier w (some base) ≡ none
        → HasPool w
        → let (w', ctx', done) = scope w base in
          (done ≡ some (length w.carriers))
          × (from_context (some ctx') ≡ some (length w.carriers))
          × IsOpen w' (length w.carriers) []
          × (w'.out ≡ w.out)
    unfolding scope from_context
    scope-IsOpen w base free pool = rw free (
      refl,
      refl,
      record {
        inside = omega (arith, length-append w.carriers (new_carrier ∷ []));
        holding = record {
          live = ap (λ c. c.closed) (get_or-append_end w.carriers new_carrier new_carrier);
          early = ap (λ c. c.pre_tripped) (get_or-append_end w.carriers new_carrier new_carrier);
          held = rw (get_or-append_end w.carriers (new_carrier {E = Slot D Z}) new_carrier) refl;
          pool = pool.pool;
          pool_at = pool.pool_at;
          pool_of = pool.pool_of;
          pool_fits = pool.pool_fits;
        };
      },
      refl,
    )

module _ {V D Z Err : Type 0} (set : Setting V D Z Err) (h : Handler V D) where
  module _ {sync : SyncPool (Box (Option (Slot D Z)))} (w : SlotWorld D Z sync) (base : Ctx) where
    -- The context of the scope that an operation opens, and the world after its records.
    abbrev pub scope_ctx : Context
    scope_ctx = some (scope w base).1

    abbrev pub after_records : List Record → SlotWorld D Z sync
    after_records rs = log_all set h scope_ctx rs (scope w base).0

    pub session-IsOpen :
        live_carrier w (some base) ≡ none
        → HasPool set h scope_ctx w
        → (rs : List Record) → All (IsQuiet set h scope_ctx) rs
        → IsOpen set h scope_ctx
            (after_records rs)
            (length w.carriers)
            (withheld set h scope_ctx rs)
          × ((after_records rs).out ≡ w.out ++ shown set h scope_ctx rs)
    session-IsOpen free pool rs quiet =
        let (_, at, k, out) = scope-IsOpen set h scope_ctx w base free pool in
        let (k', out') =
          log_all-IsOpen set h scope_ctx (scope w base).0 (length w.carriers) [] rs at k quiet in
        (k', out' ∙ ap (λ xs. xs ++ shown set h scope_ctx rs) out)

    -- An operation that succeeds: on a context with no live scope, and with the handler's
    -- pool in place, the scope is opened, records below the trip level are logged in it, and
    -- it is closed. What is put out is what the level alone lets through.
    pub quiet_success :
        live_carrier w (some base) ≡ none
        → HasPool set h scope_ctx w
        → (rs : List Record) → All (IsQuiet set h scope_ctx) rs
        → (run_done (scope w base).2 (after_records rs)).out ≡ w.out ++ shown set h scope_ctx rs
    quiet_success free pool rs quiet =
        run_done-out (scope w base).2 (after_records rs) ∙ (session-IsOpen free pool rs quiet).1

    -- An operation that fails: on a context with no live scope, and with the handler's pool
    -- in place, the scope is opened, records below the trip level are logged in it, and then
    -- one at or above it. Put out, in order: the records that the level alone lets through;
    -- the replay of the others, the last that fit the capacity, marked, after a notice if
    -- some did not fit; the failing record.
    pub failure_replay :
        live_carrier w (some base) ≡ none
        → HasPool set h scope_ctx w
        → (rs : List Record) → All (IsQuiet set h scope_ctx) rs
        → (failed : Record) → le_int (trip_level set h) failed.level ≡ true
        → (handle set h scope_ctx failed (after_records rs)).0.out
          ≡ w.out
            ++ (shown set h scope_ctx rs
                ++ (replay set.zap_down h.cfg.capacity (withheld set h scope_ctx rs)
                    ++ (handled h.downstream scope_ctx failed ∷ [])))
    unfolding on
    failure_replay free pool rs quiet failed loud =
        let (k, out) = session-IsOpen free pool rs quiet in
        let (_, at, _, _) = scope-IsOpen set h scope_ctx w base free pool in
        rw
          (handle-on set h scope_ctx failed (after_records rs) (length w.carriers) at
            k.holding.live)
          (handle_trip-Holding set h scope_ctx _ _ failed k.holding loud
            ∙ ap
                (λ xs.
                  xs
                  ++ (replay set.zap_down h.cfg.capacity (withheld set h scope_ctx rs)
                      ++ (handled h.downstream scope_ctx failed ∷ [])))
                out
            ∙ append_assoc w.out _ _)

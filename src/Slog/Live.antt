-- ===== src/Slog/Live.antt =====
-- scope.go: when a context's carrier is found, and what a call on it writes back.
use mathlib.Core.Option.{some-injective}
use dllog.Base.{◌≡◌, refl, ap, ◌∙◌, true, false, Option, some, none, length, get_or-set_self, ◌<◌}
use dllog.Core.Types.{Box}
use dllog.Core.SyncPool.{SyncPool}
use dllog.Core.Carrier
use dllog.Core.Carrier.Inv.{close-out, close-closed}
use dllog.Core.Carrier.{Store}
use dllog.Core.Context.{
  Context, Holder, slog_carrier, zap_carrier, CarrierRef, World, from_context, carrier_at, store_at,
  put_back, on, shared_of,
}
use dllog.Slog.Scope.{Done, run_done, live_carrier, own_or_shared, through_core}

module _ {E O : Type 0} {sync : SyncPool (Box (Option E))} where
  own_or_shared-live :
      (w : World E O sync) (ctx : Context) (c : CarrierRef) (o : Option Holder)
      → shared_of o ≡ some c
      → from_context ctx ≡ some c
      → (carrier_at w c).closed ≡ false
      → own_or_shared w ctx o ≡ some c
  unfolding own_or_shared through_core shared_of
  own_or_shared-live w ctx c none e f live = cc
  own_or_shared-live w ctx c (some (slog_carrier d)) e f live =
      let same : d ≡ c = some-injective d c e in rw (same, live) refl
  own_or_shared-live w ctx c (some (zap_carrier d)) e f live = rw (f, live) refl

  -- The carrier of a context is found, whichever adapter opened the scope, if it has not been
  -- closed.
  pub live_carrier-live :
      (w : World E O sync) (ctx : Context) (c : CarrierRef)
      → from_context ctx ≡ some c
      → (carrier_at w c).closed ≡ false
      → live_carrier w ctx ≡ some c
  unfolding live_carrier from_context
  live_carrier-live w ctx c f live = own_or_shared-live w ctx c _ f f live

  own_or_shared-closed :
      (w : World E O sync) (ctx : Context) (c : CarrierRef) (o : Option Holder)
      → shared_of o ≡ some c
      → from_context ctx ≡ some c
      → (carrier_at w c).closed ≡ true
      → own_or_shared w ctx o ≡ none
  unfolding own_or_shared through_core shared_of
  own_or_shared-closed w ctx c none e f done = cc
  own_or_shared-closed w ctx c (some (slog_carrier d)) e f done =
      let same : d ≡ c = some-injective d c e in rw (same, done) refl
  own_or_shared-closed w ctx c (some (zap_carrier d)) e f done = rw (f, done) refl

  pub live_carrier-closed :
      (w : World E O sync) (ctx : Context) (c : CarrierRef)
      → from_context ctx ≡ some c
      → (carrier_at w c).closed ≡ true
      → live_carrier w ctx ≡ none
  unfolding live_carrier from_context
  live_carrier-closed w ctx c f done = own_or_shared-closed w ctx c _ f f done

  pub run_done-closed :
      (w : World E O sync) (c : CarrierRef)
      → c < length w.carriers
      → (carrier_at (run_done (some c) w) c).closed ≡ true
  unfolding run_done on
  run_done-closed w c inside =
      ap (λ k. k.closed)
        (get_or-set_self w.carriers c (Carrier.close (store_at w c)).carrier _ inside)
      ∙ close-closed (store_at w c)

  pub run_done-out : (d : Done) (w : World E O sync) → (run_done d w).out ≡ w.out
  unfolding run_done on
  run_done-out none w = refl
  run_done-out (some c) w = close-out (store_at w c)

  pub store_at-put_back :
      (w : World E O sync) (c : CarrierRef) (st : Store E O sync)
      → c < length w.carriers
      → store_at (put_back w c st) c ≡ st
  store_at-put_back w c st h = simp (get_or-set_self w.carriers c st.carrier _ h) refl

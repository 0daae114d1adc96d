-- ===== src/Core/Carrier/Calls.antt =====
-- The calls that the adapters make on a carrier, in any order.
use dllog.Base.{ℕ, ◌+◌, Bool, false, List, [], ◌∷◌, Option, if◌then◌else◌, inl, inr, Bool-cases}
use dllog.Core.Types.{Box, PoolRef}
use dllog.Core.SyncPool.{SyncPool}
use dllog.Core.Carrier.Inv.{
  IsSound, mark_tripped-IsSound, flush_on-IsSound, bind-IsSound, append-IsSound,
  pass_through-IsSound, close-IsSound,
}
use dllog.Core.Carrier.{
  Entry, Store, bind, mark_tripped, mark_and_flush, close, append, pass_through, flush,
}

-- What the adapters call on a carrier.
pub data Call (E : Type 0) : Type 0 where
  bind_to : PoolRef → Call E
  append_entry : E → Call E
  offer_through : Call E
  trip_once : Call E
  close_down : Call E

module _ {E O : Type 0} {sync : SyncPool (Box (Option E))} (ops : Entry E O) where
  -- The call, and whether it was the one that tripped the carrier.
  unfoldable pub step : Call E → Store E O sync → Store E O sync × Bool
  step (bind_to ref) st = ((bind ref st).0, false)
  step (append_entry e) st = ((append st e).0, false)
  step offer_through st = ((pass_through st).0, false)
  step trip_once st = mark_and_flush ops st
  step close_down st = (close st, false)

  unfoldable pub triggers : List (Call E) → Store E O sync → ℕ
  triggers [] st = 0
  triggers (c ∷ cs) st =
      let rest = triggers cs (step c st).0 in if (step c st).1 then 1 + rest else rest

  flush-IsSound : (st : Store E O sync) → IsSound st → IsSound (flush ops st).0
  unfolding flush
  flush-IsSound st v = flush_on-IsSound ops st st.carrier.scope v.fits v

  mark_and_flush-IsSound : (st : Store E O sync) → IsSound st → IsSound (mark_and_flush ops st).0
  unfolding mark_and_flush
  mark_and_flush-IsSound st v = elim (Bool-cases (mark_tripped st).1) [
    | inl e ↦ rw e (flush-IsSound (mark_tripped st).0 (mark_tripped-IsSound st v))
    | inr e ↦ rw e (mark_tripped-IsSound st v)
  ]

  -- Whatever an adapter calls on a sound carrier, the carrier and the pools stay sound.
  pub step-IsSound : (c : Call E) (st : Store E O sync) → IsSound st → IsSound (step c st).0
  unfolding step
  step-IsSound (bind_to ref) st v = bind-IsSound ref st v
  step-IsSound (append_entry e) st v = append-IsSound st e v
  step-IsSound offer_through st v = pass_through-IsSound st v
  step-IsSound trip_once st v = mark_and_flush-IsSound st v
  step-IsSound close_down st v = close-IsSound st v

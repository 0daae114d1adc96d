-- ===== src/Core/Carrier/Once.antt =====
-- internal/core/carrier.go: how often a carrier trips, and which calls put something out.
use dllog.Base.{
  arith, ap, ◌∙◌, ◌≤◌, not, ◌≡◌, refl, true, false, List, [], ◌∷◌, Option, inl, inr, Bool-cases,
}
use dllog.Core.Types.{Box}
use dllog.Core.SyncPool.{SyncPool}
use dllog.Core.Carrier.Inv.{IsSound}
use dllog.Core.Carrier.{Entry, Store}
use dllog.Core.Carrier.Calls.{
  Call, step, triggers, step-IsSound, bind_to, append_entry, offer_through, trip_once, close_down,
}
use dllog.Core.Carrier.Spent.{
  spent, mark_and_flush-Trips, bind-Keeps, append-Keeps, pass_through-Keeps, close-Keeps,
}

module _ {E O : Type 0} {sync : SyncPool (Box (Option E))} (ops : Entry E O) where
  step-spent :
      (c : Call E) (st : Store E O sync)
      → IsSound st
      → spent st.carrier ≡ true
      → (spent (step ops c st).0.carrier ≡ true) × ((step ops c st).1 ≡ false)
  unfolding step
  step-spent (bind_to ref) st v h = ((bind-Keeps ref st).0 h, refl)
  step-spent (append_entry e) st v h = ((append-Keeps st e).0 h, refl)
  step-spent offer_through st v h = ((pass_through-Keeps st).0 h, refl)
  step-spent trip_once st v h =
      let (first, after, _) = mark_and_flush-Trips ops st v in (after, first ∙ ap not h)
  step-spent close_down st v h = ((close-Keeps st).0 h, refl)

  -- A call on a sound carrier that does not trip it puts nothing out.
  pub step-out :
      (c : Call E) (st : Store E O sync)
      → IsSound st
      → (step ops c st).1 ≡ false
      → (step ops c st).0.out ≡ st.out
  unfolding step
  step-out (bind_to ref) st v h = (bind-Keeps ref st).1
  step-out (append_entry e) st v h = (append-Keeps st e).1
  step-out offer_through st v h = (pass_through-Keeps st).1
  step-out trip_once st v h = (mark_and_flush-Trips ops st v).2 h
  step-out close_down st v h = (close-Keeps st).1

  step-after :
      (c : Call E) (st : Store E O sync)
      → IsSound st
      → (step ops c st).1 ≡ true
      → spent (step ops c st).0.carrier ≡ true
  unfolding step
  step-after (bind_to ref) st v h = cc
  step-after (append_entry e) st v h = cc
  step-after offer_through st v h = cc
  step-after trip_once st v h = (mark_and_flush-Trips ops st v).1
  step-after close_down st v h = cc

  triggers-spent :
      (cs : List (Call E)) (st : Store E O sync)
      → IsSound st
      → spent st.carrier ≡ true
      → triggers ops cs st ≡ 0
  unfolding triggers
  triggers-spent [] st v h = refl
  triggers-spent (c ∷ cs) st v h =
      let (after, none_now) = step-spent c st v h in
      rw none_now (triggers-spent cs (step ops c st).0 (step-IsSound ops c st v) after)

  -- Of any calls on a sound carrier, in any order, at most one trips it.
  pub triggers-le_one :
      (cs : List (Call E)) (st : Store E O sync) → IsSound st → triggers ops cs st ≤ 1
  unfolding triggers
  triggers-le_one [] st v = omega arith
  triggers-le_one (c ∷ cs) st v = elim (Bool-cases (step ops c st).1) [
    | inl e ↦
        let rest =
          triggers-spent cs (step ops c st).0 (step-IsSound ops c st v) (step-after c st v e) in
        rw (e, rest) (omega arith)
    | inr e ↦ rw e (triggers-le_one cs (step ops c st).0 (step-IsSound ops c st v))
  ]

-- ===== src/Zap/Session.antt =====
-- zapadapter/core.go: what a core that is bound to a live carrier puts out, quiet or failed.
use dllog.Base.{
  ◌≡◌, refl, sym, ap, ◌∙◌, subst, le_int, true, false, List, [], ◌∷◌, ◌++◌, Option, inl, inr, some,
  if◌then◌else◌, Bool-cases, append-nil, append_assoc, All,
}
use dllog.Core.Types.{Box}
use dllog.Core.SyncPool.{SyncPool}
use dllog.Core.Carrier.Hold.{IsHolding, bind-IsHolding, append-IsHolding}
use dllog.Core.Carrier.FirstTrip.{tripped-IsHolding}
use dllog.Slots.Replay.{offered, replay, mark_and_flush-replay}
use dllog.Slots.{SlotStore, Slot, Output, write_checked, zap}
use dllog.Zap.Types.{Entry, Field, Downstream}
use dllog.Zap.Core.{
  Core, slot_of, forward, write_trip, write_above, write_below, write_scoped, trip_and_suppress,
}

-- An entry with the fields that it is written with.
pub record Line : Type 0 where
  pub entry : Entry
  pub fields : List Field

module _ {D Z : Type 0} (c : Core Z) (down : Downstream Z) where
  -- What the level alone lets through, each line as the downstream core takes it.
  unfoldable pub shown : List Line → List (Output D Z)
  shown [] = []
  shown (l ∷ ls) =
      (if le_int c.cfg.level l.entry.level then offered down c.downstream l.entry l.fields else [])
      ++ shown ls

  -- A line that is withheld, with what its replay needs.
  abbrev pub kept_as : Line → Slot D Z
  kept_as l = zap (record {
    entry = l.entry;
    fields = l.fields;
    downstream = c.downstream;
    replay_key = c.cfg.replay_key;
  })

  -- The others, as the ring holds them.
  unfoldable pub withheld : List Line → List (Option (Slot D Z))
  withheld [] = []
  withheld (l ∷ ls) =
      (if le_int c.cfg.level l.entry.level then [] else some (kept_as l) ∷ []) ++ withheld ls

module _ {D Z : Type 0} (c : Core Z) (down : Downstream Z) where
  shown-cons :
      (l : Line) (ls : List Line)
      → shown {D = D} c down (l ∷ ls) ≡ shown c down (l ∷ []) ++ shown c down ls
  unfolding shown
  shown-cons l ls = ap (λ xs. xs ++ shown c down ls) (sym (append-nil _))

  withheld-cons :
      (l : Line) (ls : List Line)
      → withheld {D = D} c down (l ∷ ls) ≡ withheld c down (l ∷ []) ++ withheld c down ls
  unfolding withheld
  withheld-cons l ls = ap (λ xs. xs ++ withheld c down ls) (sym (append-nil _))

abbrev pub IsQuiet : {Z : Type 0} → Core Z → Line → Type 0
IsQuiet c l = le_int c.cfg.trip_level l.entry.level ≡ false

module _ {D Z : Type 0} (c : Core Z) (down : Downstream Z)
    {sync : SyncPool (Box (Option (Slot D Z)))} where
  abbrev pub Holding : SlotStore D Z sync → List (Option (Slot D Z)) → Type 0
  Holding = IsHolding c.cfg.capacity c.cfg.post_trip_limit c.pool

  -- The lines, written one after the other.
  unfoldable pub write_all : List Line → SlotStore D Z sync → SlotStore D Z sync
  write_all [] st = st
  write_all (l ∷ ls) st = write_all ls (write_scoped c down l.entry l.fields st)

  write_above-Holding :
      (st : SlotStore D Z sync) (seen : List (Option (Slot D Z))) (l : Line)
      → Holding st seen
      → let st' = write_above c down l.entry l.fields st in
        Holding st' seen × (st'.out ≡ st.out ++ offered down c.downstream l.entry l.fields)
  unfolding write_above forward write_checked
  write_above-Holding st seen l k =
      simp (tripped-IsHolding c.cfg.capacity c.cfg.post_trip_limit c.pool st seen k) (
        record {
          live = k.live;
          early = k.early;
          held = k.held;
          pool = k.pool;
          pool_at = k.pool_at;
          pool_of = k.pool_of;
          pool_fits = k.pool_fits;
        },
        refl,
      )

  write_below-Holding :
      (st : SlotStore D Z sync) (seen : List (Option (Slot D Z))) (l : Line)
      → Holding st seen
      → let st' = write_below c down l.entry l.fields st in
        Holding st' (seen ++ (some (slot_of c l.entry l.fields) ∷ [])) × (st'.out ≡ st.out)
  unfolding write_below
  write_below-Holding st seen l k =
      let (there, held, out, (s, e)) =
        bind-IsHolding c.cfg.capacity c.cfg.post_trip_limit c.pool st seen k in
      let (a, held', out') =
        append-IsHolding c.cfg.capacity c.cfg.post_trip_limit c.pool _ seen
          (slot_of c l.entry l.fields) s held e in
      rw (there, a) (held', out' ∙ out)

  write_scoped-Holding :
      (st : SlotStore D Z sync) (seen : List (Option (Slot D Z))) (l : Line)
      → Holding st seen
      → IsQuiet c l
      → let st' = write_scoped c down l.entry l.fields st in
        Holding st' (seen ++ withheld c down (l ∷ [])) × (st'.out ≡ st.out ++ shown c down (l ∷ []))
  unfolding write_scoped write_above withheld shown write_checked
  write_scoped-Holding st seen l k quiet = elim (Bool-cases (le_int c.cfg.level l.entry.level)) [
    | inl e ↦
        let (k', out) = write_above-Holding st seen l k in
        rw
          (
            quiet,
            e,
            append-nil seen,
            append-nil (offered {D = D} down c.downstream l.entry l.fields),
          )
          (k', out)
    | inr e ↦
        let (k', out) = write_below-Holding st seen l k in
        rw (quiet, e) (k', out ∙ sym (append-nil st.out))
  ]

  write_all-Holding :
      (st : SlotStore D Z sync) (seen : List (Option (Slot D Z))) (ls : List Line)
      → Holding st seen
      → All (IsQuiet c) ls
      → let st' = write_all ls st in
        Holding st' (seen ++ withheld c down ls) × (st'.out ≡ st.out ++ shown c down ls)
  unfolding write_all withheld shown
  write_all-Holding st seen [] k quiet = rw (append-nil seen) (k, sym (append-nil st.out))
  write_all-Holding st seen (l ∷ ls) k (q, quiet) =
      let (k', out) = write_scoped-Holding st seen l k q in
      let (k'', out') = write_all-Holding after (seen ++ withheld c down (l ∷ [])) ls k' quiet in
      (
        subst (Holding (write_all ls after))
            (append_assoc seen _ _ ∙ ap (λ xs. seen ++ xs) (sym (withheld-cons c down l ls))) k'',
        out'
            ∙ ap (λ xs. xs ++ shown c down ls) out
            ∙ append_assoc st.out _ _
            ∙ ap (λ xs. st.out ++ xs) (sym (shown-cons c down l ls)),
      )
    where
      after : SlotStore D Z sync
      after = write_scoped c down l.entry l.fields st

  -- A zap core on a carrier that is live, has not tripped and holds nothing, over the core's
  -- own pool: entries below the trip level are written, then one at or above it. Put out, in
  -- order: what the level alone lets through; the replay of the others, the last that fit the
  -- capacity, marked, after a notice if some did not fit; the failing entry. Each is offered to
  -- the downstream core, which may decline it.
  pub write_replay :
      (st : SlotStore D Z sync) (ls : List Line) (failed : Line)
      → Holding st []
      → All (IsQuiet c) ls
      → le_int c.cfg.trip_level failed.entry.level ≡ true
      → (write_scoped c down failed.entry failed.fields (write_all ls st)).out
        ≡ st.out
          ++ (shown c down ls
              ++ (replay down c.cfg.capacity (withheld c down ls)
                  ++ offered down c.downstream failed.entry failed.fields))
  unfolding write_scoped write_trip trip_and_suppress forward write_checked
  write_replay st ls failed k quiet loud =
      let (k', out) = write_all-Holding st [] ls k quiet in
      let (first, flushed) =
        mark_and_flush-replay down c.cfg.capacity c.cfg.post_trip_limit c.pool _ _ k' in
      rw (loud, first)
        (ap (λ xs. xs ++ last) (flushed ∙ ap (λ xs. xs ++ again) out)
          ∙ append_assoc (st.out ++ shown c down ls) again last
          ∙ append_assoc st.out (shown c down ls) (again ++ last))
    where
      last : List (Output D Z)
      last = offered down c.downstream failed.entry failed.fields

      again : List (Output D Z)
      again = replay down c.cfg.capacity (withheld c down ls)

-- ===== src/Demo/Run.antt =====
-- examples/demo/main.go: the program, over the text handlers that slog makes on its output.
use Prim.Native.String.{String}
use text.Mathlib.Text.{◌==◌ as str_eq}
use dllog.Base.{ℕ, List, [], ◌∷◌, ◌++◌, Option, some, none, if◌then◌else◌}
use dllog.Core.Types.{Box}
use dllog.Core.SyncPool.{SyncPool}
use dllog.Core.Context.{Ctx, Context}
use dllog.Slots.{SlotWorld, Slot, handled}
use dllog.Slog.Types.{Record, new_record, add_attr, level_info, level_debug}
use dllog.Slog.Options.{Leveler, fixed}
use dllog.Slog.Handler.{Handler, Setting}
use dllog.Slog.New.{new_with}
use dllog.Slog.Scope.{Done, scope, run_done}
use dllog.Joint.{slog_event}
use dllog.Joint.Offers.{offer}
use dllog.Demo.Orders.{Call, orders}

-- `*slog.Logger`, by its handler.
pub data Logger (V D : Type 0) : Type 0 where
  plain : D → Logger V D
  buffered : Handler V D → Logger V D

-- `scopeFunc`: the identity, or `dllog.Scope`.
pub data ScopeFunc : Type 0 where
  unscoped : ScopeFunc
  scoped : ScopeFunc

-- `context.Background()`
abbrev pub background : Ctx
background = record { values = 0; holder = none }

-- The record that `slog.Logger` makes of a call; `pc` stands for the program counter.
abbrev pub record_of : ℕ → ℕ → Call → Record
record_of pc now c = add_attr (new_record now c.level c.message pc) c.attr

abbrev pub mode_of : List String → String
mode_of [] = "dllog"
mode_of (mode ∷ args) = mode

module _ {V D Z Err : Type 0} (set : Setting V D Z Err) (pc : ℕ) (elapse : ℕ → ℕ)
    {sync : SyncPool (Box (Option (Slot D Z)))} where
  unfoldable pub say : Logger V D → Context → ℕ → Call → SlotWorld D Z sync → SlotWorld D Z sync
  say (plain d) ctx now c w =
      if set.down.enabled d ctx c.level
      then record w { out = w.out ++ (handled d ctx (record_of pc now c) ∷ []) }
      else w
  say (buffered h) ctx now c w = offer set (slog_event h ctx (record_of pc now c)) w

  -- An order: each call, and a pause. The clock reads `now` at the first, and `elapse t` when a
  -- call at `t` and the pause after it are over.
  unfoldable pub perform :
      Logger V D → Context → List Call → ℕ × SlotWorld D Z sync → ℕ × SlotWorld D Z sync
  perform logger ctx [] (now, w) = (now, w)
  perform logger ctx (c ∷ cs) (now, w) = perform logger ctx cs (elapse now, say logger ctx now c w)

  abbrev pub open_scope : ScopeFunc → SlotWorld D Z sync → Ctx → SlotWorld D Z sync × Ctx × Done
  open_scope unscoped w ctx = (w, ctx, none)
  open_scope scoped w ctx = scope w ctx

  -- One order inside its own scope.
  unfoldable pub run :
      Logger V D → ScopeFunc → List Call → ℕ × SlotWorld D Z sync → ℕ × SlotWorld D Z sync
  run logger f op (now, w) =
      let (w', ctx, done) = open_scope f w background in
      let (now', w'') = perform logger (some ctx) op (now, w') in (now', run_done done w'')

  unfoldable pub run_all :
      Logger V D → ScopeFunc → List (List Call) → ℕ × SlotWorld D Z sync → ℕ × SlotWorld D Z sync
  run_all logger f [] s = s
  run_all logger f (op ∷ ops) s = run_all logger f ops (run logger f op s)

  module _ (text : Leveler V → D) where
    -- The logger of a mode; `none` if it is none of the three, or a constructor panics.
    unfoldable pub logger_of :
        String → SlotWorld D Z sync → Option (Logger V D × ScopeFunc × SlotWorld D Z sync)
    logger_of mode w =
        if str_eq mode "info"
        then some (plain (text (fixed level_info)), unscoped, w)
        else if str_eq mode "debug"
        then some (plain (text (fixed level_debug)), unscoped, w)
        else if str_eq mode "dllog"
        then (elim (new_with set none text [] w) [
          | none ↦ none
          | some (h, w') ↦ some (buffered h, scoped, w')
        ])
        else none

    -- `main`, on the arguments after the program's name, from the clock's reading on; `none` is an
    -- exit with the usage.
    unfoldable pub main : List String → ℕ × SlotWorld D Z sync → Option (ℕ × SlotWorld D Z sync)
    unfolding logger_of
    main args (now, w) = elim (logger_of (mode_of args) w) [
      | none ↦ none
      | some (logger, f, w') ↦ some (run_all logger f orders (now, w'))
    ]

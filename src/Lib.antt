-- ===== src/Lib.antt =====
-- dllog: log records withheld in a ring while an operation runs, and replayed if it fails.
--
-- The program's parts, and the files that model them:
--
-- - internal/core/scope.go, the engine: `Scope` holds a ring of entries, trips once, then lets
--   entries through under a budget, and is closed for good. Core/Types has its state, Core/Scope
--   its methods (`Append` is `append`, `PassThrough` is `pass_through`, `Trip`, `Close`,
--   `clearRing`, the readers), Core/Log what it promises: a bounded log, a flush, a budget.
-- - internal/core/pool.go: Core/Pool, over the interface of `sync.Pool` in Core/SyncPool;
--   Core/Lease has many scopes that borrow from many pools, with the boxes of the rings told apart.
-- - internal/core/carrier.go: Core/Carrier has `Carrier` and `Flush`, which the adapters share;
--   Core/Context the contexts, and the whole state of the program (`World`): the carriers, each at
--   an address, the pools, the outputs so far.
--   Core/Race has the same calls under interleaving: several goroutines on one carrier, each atomic
--   load or store, each lock and unlock, and each method of the scope (which runs under the
--   scope's own mutex) as a step of a relation.
-- - scope.go and zapadapter/slot.go: Slots has the slots of the two adapters as entries of one
--   ring, and the calls of the downstream handlers and cores, in order, as the outputs;
--   Slots/Replay says, apart from the code, which of them a replay should make.
-- - options.go, handler.go and scope.go, the slog adapter: Slog/Options, Slog/Handler (`Handle` by
--   its branches), Slog/New (the constructors), Slog/Scope (`Scope`, `done`, `Trip`),
--   Slog/View (the view of the ring that `carrier` keeps).
-- - middleware.go: Slog/Middleware, with the wrapped handler and the logger as parameters;
--   Slog/Request composes it with the slog adapter.
-- - zapadapter/options.go and zapadapter/core.go, the zap adapter: Zap/Options, Zap/Core (`Write` by
--   its branches), over Zap/Types, what the adapter uses of zapcore.
-- - Joint: the two adapters together, any handlers and cores in any order: on one carrier up to a
--   failure (Joint/Session), after it (Joint/AfterTrip) and after the scope's end (Joint/Released);
--   through the loggers, which ask `Enabled` or `Check` first (Joint/Offers); operations one after
--   the other, each in its own scope (Joint/Operations, Joint/Apart); and requests through the
--   middleware (Joint/Requests).
-- - examples/demo/main.go: Demo/Orders (the workload), Demo/Run (the modes, `run`, `main`) and
--   Demo/Colour (the writer that colours the level of a line, on bytes).
--
-- Interaction: a handler finds the carrier of a context (Slog/Scope), binds the carrier's scope
-- from its pool (Core/Carrier, Core/Pool), and appends to it (Core/Scope); a trip flushes the scope
-- through the slots, which call the downstreams that they were logged through.
--
-- Conventions. A method of a pointer type takes the value and returns the new one beside its
-- result. An `int` is its 64-bit pattern, a number below 2^64, with sums modulo 2^64 and signed
-- comparisons (Base/Machine). A panic is a missing result. Loops run over lists or over the length of
-- the ring, so no fuel is used. Capacities are bounded by `max_capacity`, 2^62, where a theorem says
-- so: a ring of 16-byte cells cannot be larger.
--
-- Parameters: `sync.Pool` by its documented behaviour (it may drop any item at any time), with a
-- stack as an instance; the downstream handlers and cores, as functions of their values; level
-- variables, which hold one value during a call; for the demo, the text handlers of slog, the
-- writer under its colours, the format of its times and its clock, as what a call and the pause
-- after it take (`time.Sleep`: at least what it is given).
--
-- Not modelled: interleavings across several carriers that share a pool, and of the calls outside
-- Core/Race (each is one step there; memory is sequentially consistent, as Go's atomics are); the
-- encoders that the constructors call, which turn a record into bytes, and `Sync` of the zap core.
pub mod Base
pub mod Core
pub mod Demo
pub mod Joint
pub mod Slots
pub mod Slog
pub mod Zap

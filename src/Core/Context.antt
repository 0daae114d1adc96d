-- ===== src/Core/Context.antt =====
-- internal/core/carrier.go, the context side: which carrier a context holds. And the program's
-- whole state: its carriers, each at an address, and what they share.
--
-- A context is nil, or the values that a reader sees on it beside the holder stored under `ctxKey`.
use dllog.Base.{ℕ, List, [], ◌∷◌, ◌++◌, Option, some, none, get_or, set, length}
use dllog.Core.Types.{Box, BoxRef}
use dllog.Core.SyncPool.{SyncPool}
use dllog.Core.Pool.{Pool}
use dllog.Core.Carrier.{Carrier, Store, new_carrier}

-- `*Carrier`: an index into the carriers of the program.
abbrev pub CarrierRef : Type 0
CarrierRef = ℕ

-- `Holder`: the wrapper of the adapter that opened the scope, over the shared carrier.
pub data Holder : Type 0 where
  slog_carrier : CarrierRef → Holder
  zap_carrier : CarrierRef → Holder

-- Both wrappers embed `*Carrier` and inherit its method.
unfoldable pub shared : Holder → CarrierRef
shared (slog_carrier c) = c
shared (zap_carrier c) = c

pub record Ctx : Type 0 where
  pub values : ℕ
  pub holder : Option Holder

abbrev pub Context : Type 0
Context = Option Ctx

unfoldable pub new_context : Ctx → Holder → Ctx
new_context ctx h = record ctx { holder = some h }

unfoldable pub holder_from_context : Context → Option Holder
holder_from_context none = none
holder_from_context (some ctx) = ctx.holder

unfoldable pub shared_of : Option Holder → Option CarrierRef
unfolding shared
shared_of none = none
shared_of (some h) = some (shared h)

-- `FromContext`
unfoldable pub from_context : Context → Option CarrierRef
unfolding shared_of holder_from_context
from_context ctx = shared_of (holder_from_context ctx)

pub record World (E O : Type 0) (sync : SyncPool (Box (Option E))) : Type 0 where
  pub carriers : List (Carrier E)
  pub pools : List (Pool {T = Option E} none sync)
  pub next_box : BoxRef
  pub out : List O

module _ {E O : Type 0} {sync : SyncPool (Box (Option E))} where
  abbrev pub carrier_at : World E O sync → CarrierRef → Carrier E
  carrier_at w c = get_or w.carriers c new_carrier

  -- What a call on the carrier `c` reads and writes.
  abbrev pub store_at : World E O sync → CarrierRef → Store E O sync
  store_at w c = record {
    carrier = carrier_at w c;
    pools = w.pools;
    next_box = w.next_box;
    out = w.out;
  }

  abbrev pub put_back : World E O sync → CarrierRef → Store E O sync → World E O sync
  put_back w c st = record {
    carriers = set w.carriers c st.carrier;
    pools = st.pools;
    next_box = st.next_box;
    out = st.out;
  }

  -- A call on the carrier `c`.
  unfoldable pub on {ℓ} :
      {A : Type ℓ}
      → CarrierRef
      → (Store E O sync → Store E O sync × A)
      → World E O sync
      → World E O sync × A
  on c f w = let (st, a) = f (store_at w c) in (put_back w c st, a)

  -- `&core.Carrier{}`: the new carrier's address, and the world with it.
  unfoldable pub allocate : World E O sync → CarrierRef × World E O sync
  allocate w = (length w.carriers, record w { carriers = w.carriers ++ (new_carrier ∷ []) })

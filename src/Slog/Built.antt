-- ===== src/Slog/Built.antt =====
-- handler.go: the handlers that `New` returns.
use mathlib.Core.Option.{some-injective}
use dllog.Base.{
  Bool, ◌^◌, ◌<◌, ◌≤◌, ◌≡◌, refl, sym, ap, subst, Int64, le_int, int_half, true, false, not, List,
  [], ◌∷◌, ◌++◌, Option, some, none, length, get_elem?, if◌then◌else◌, arith,
}
use dllog.Core.Types.{Box, norm_capacity, norm_limit}
use dllog.Core.SyncPool.{SyncPool}
use dllog.Core.Pool.{new_scope_pool}
use dllog.Core.Scope.Index.{max_capacity}
use dllog.Core.Scope.Pooled.{PoolFits, new_scope_pool-IsPoolOf}
use dllog.Core.Context.{Context}
use dllog.Slots.{SlotWorld, Slot}
use dllog.Slog.Options.{apply_options, new_config, Config, level_of, out_of_order, resolve}
use dllog.Slog.Handler.{Handler, Setting, buffer_floor}
use dllog.Slog.New.{background, with_pool, wrap, new}
use dllog.Slog.Replay.{HasPool}

pub get_elem?-append_end :
    {A : Type 0} (xs : List A) (x : A) → get_elem? (xs ++ (x ∷ [])) (length xs) ≡ some x
get_elem?-append_end [] x = refl
get_elem?-append_end (y ∷ xs) x = get_elem?-append_end xs x

norm_capacity-le :
    (c : Int64) → c < 2 ^ 64 → le_int c max_capacity ≡ true → norm_capacity c ≤ max_capacity
norm_capacity-le c h fits = ground arith

norm_limit-lt : (l : Int64) → l < 2 ^ 64 → norm_limit l < int_half
norm_limit-lt l h = ground arith

norm_capacity-pos : (c : Int64) → 0 < norm_capacity c
norm_capacity-pos c = ground arith

pub new_scope_pool-PoolFits :
    {T : Type 0} (zero_value : T) (sync : SyncPool (Box T)) (capacity limit : Int64)
    → capacity < 2 ^ 64
    → limit < 2 ^ 64
    → le_int capacity max_capacity ≡ true
    → PoolFits zero_value sync (new_scope_pool zero_value sync capacity limit)
unfolding new_scope_pool
new_scope_pool-PoolFits zero_value sync capacity limit hc hl fits = record {
  positive = norm_capacity-pos capacity;
  small = norm_capacity-le capacity hc fits;
  bounded = norm_limit-lt limit hl;
  zeroed = rw sync.items-empty tt;
}

not-false : (b : Bool) → not b ≡ false → b ≡ true
not-false true e = refl
not-false false e = cc

if_none-else_some :
    {A : Type 0} (b : Bool) (x y : A)
    → (if b then none else some x) ≡ some y
    → (b ≡ false) × (x ≡ y)
if_none-else_some true x y e = cc
if_none-else_some false x y e = (refl, some-injective x y e)

resolve-ordered :
    {V : Type 0} (read : V → Int64) (opts : List (Option (Config V → Config V))) (cfg : Config V)
    → resolve read opts ≡ some cfg
    → out_of_order read cfg ≡ false
unfolding resolve
resolve-ordered {V} read opts cfg e =
    let (ordered, same) = if_none-else_some (out_of_order read resolved) resolved cfg e in
    subst (λ c. out_of_order read c ≡ false) same ordered
  where
    resolved : Config V
    resolved = apply_options opts new_config

-- A capacity and a limit that are `int`s, the capacity within bounds.
pub record InRange {V : Type 0} (cfg : Config V) : Type 0 where
  pub capacity_in : cfg.capacity < 2 ^ 64
  pub limit_in : cfg.post_trip_limit < 2 ^ 64
  pub small : le_int cfg.capacity max_capacity ≡ true

module _ {V D Z Err : Type 0} (set : Setting V D Z Err) (ctx : Context)
    {sync : SyncPool (Box (Option (Slot D Z)))} where
  -- The levels are in order, the downstream is open at the buffer floor, the pool is in place.
  pub record IsBuilt (h : Handler V D) (w : SlotWorld D Z sync) : Type 0 where
    pub ordered : out_of_order set.read h.cfg ≡ false
    pub wide_open : set.down.enabled h.downstream background (buffer_floor set h) ≡ true
    pub has_pool : HasPool set h ctx w

  with_pool-IsBuilt :
      (cfg : Config V) (downstream : D) (w : SlotWorld D Z sync)
      → InRange cfg
      → out_of_order set.read cfg ≡ false
      → set.down.enabled downstream background (level_of set.read cfg.buffer_floor) ≡ true
      → let (h, w') = with_pool set cfg downstream w in IsBuilt h w'
  unfolding with_pool
  with_pool-IsBuilt cfg downstream w r o e = record {
    ordered = o;
    wide_open = e;
    has_pool = record {
      pool = new_scope_pool none sync cfg.capacity cfg.post_trip_limit;
      pool_at = get_elem?-append_end w.pools _;
      pool_of = new_scope_pool-IsPoolOf none sync cfg.capacity cfg.post_trip_limit;
      pool_fits =
          new_scope_pool-PoolFits none sync cfg.capacity cfg.post_trip_limit r.capacity_in
            r.limit_in r.small;
    };
  }

  wrap-IsBuilt :
      (downstream : D) (o : Option (Config V)) (w w' : SlotWorld D Z sync) (h : Handler V D)
      → ((cfg : Config V) → o ≡ some cfg → out_of_order set.read cfg ≡ false)
      → wrap set downstream o w ≡ some (h, w')
      → InRange h.cfg
      → IsBuilt h w'
  unfolding wrap with_pool
  wrap-IsBuilt downstream none w w' h ok e r = cc
  wrap-IsBuilt downstream (some cfg) w w' h ok e r =
      let (shut, same) =
        if_none-else_some
          (not (set.down.enabled downstream background (level_of set.read cfg.buffer_floor)))
          (with_pool set cfg downstream w) (h, w') e in
      subst (λ q. IsBuilt q.0 q.1) same
        (with_pool-IsBuilt cfg downstream w (subst InRange (sym (ap (λ q. q.0.cfg) same)) r)
          (ok cfg refl) (not-false _ shut))

  -- Whatever options `New` is given, if it returns a handler whose capacity and limit are in
  -- range, then the handler's levels are in order, the downstream is enabled at its buffer
  -- floor, and its pool is in place, as made from its capacity and limit.
  pub new-IsBuilt :
      (downstream : Option D) (opts : List (Option (Config V → Config V)))
      (w w' : SlotWorld D Z sync) (h : Handler V D)
      → new set downstream opts w ≡ some (h, w')
      → InRange h.cfg
      → IsBuilt h w'
  unfolding new
  new-IsBuilt none opts w w' h e r = cc
  new-IsBuilt (some downstream) opts w w' h e r =
      wrap-IsBuilt downstream (resolve set.read opts) w w' h (resolve-ordered set.read opts) e r

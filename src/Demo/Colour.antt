-- ===== src/Demo/Colour.antt =====
-- examples/demo/main.go: the writer that colours the level of each line.
use dllog.Base.{
  ℕ, ◌+◌, ◌≡◌, ◌≢◌, refl, sym, ap, ◌∙◌, Bool, true, false, List, [], ◌∷◌, ◌++◌, Option, some, none,
  ◌==◌, if◌then◌else◌, Bytes, codes, take, drop, index, index-parts, length, All, All-append_right,
  subst, arith,
}

abbrev escape : ℕ
escape = 27

abbrev ansi_reset : Bytes
ansi_reset = escape ∷ codes "[0m"

abbrev ansi_blue : Bytes
ansi_blue = escape ∷ codes "[94m"

abbrev ansi_green : Bytes
ansi_green = escape ∷ codes "[92m"

abbrev ansi_orange : Bytes
ansi_orange = escape ∷ codes "[38;5;214m"

abbrev ansi_red : Bytes
ansi_red = escape ∷ codes "[91m"

pub record LevelName : Type 0 where
  pub token : Bytes
  pub colour : Bytes

abbrev pub level_names : List LevelName
level_names =
    record { token = codes "level=DEBUG"; colour = ansi_blue }
    ∷ record { token = codes "level=INFO"; colour = ansi_green }
    ∷ record { token = codes "level=WARN"; colour = ansi_orange }
    ∷ record { token = codes "level=ERROR"; colour = ansi_red }
    ∷ []

-- `out`, for a token found at `i`.
abbrev painted : LevelName → Bytes → ℕ → Bytes
painted l p i =
    take i p
    ++ (codes "level="
        ++ (l.colour
            ++ (drop (length (codes "level=")) l.token
                ++ (ansi_reset ++ drop (i + length l.token) p))))

-- `return 0, err`, or the caller's length.
abbrev counted : {S Err : Type 0} → ℕ → S × ℕ × Option Err → S × ℕ × Option Err
counted n (s, m, some err) = (s, 0, some err)
counted n (s, m, none) = (s, n, none)

-- The wrapped writer: its state, the count that it returns, and its error.
module _ {S Err : Type 0} (under : Bytes → S → S × ℕ × Option Err) where
  abbrev write_found : LevelName → Bytes → S → Option ℕ → S × ℕ × Option Err → S × ℕ × Option Err
  write_found l p s (some i) rest = counted (length p) (under (painted l p i) s)
  write_found l p s none rest = rest

  -- The loop over the names; a line without a level goes on as it is.
  unfoldable pub write_names : List LevelName → Bytes → S → S × ℕ × Option Err
  write_names [] p s = under p s
  write_names (l ∷ ls) p s = write_found l p s (index l.token p) (write_names ls p s)

  -- `Write`
  unfoldable pub write : Bytes → S → S × ℕ × Option Err
  unfolding write_names
  write = write_names level_names

-- A text without its escape sequences, each from an escape to the next `m`.
unfoldable pub stripped : Bool → Bytes → Bytes
stripped inside [] = []
stripped true (c ∷ p) = stripped (if c == b'm' then false else true) p
stripped false (c ∷ p) =
    let rest = stripped false p in
    let skipped = stripped true p in if c == escape then skipped else c ∷ rest

abbrev pub IsPlain : Bytes → Type 0
IsPlain = All (λ c. c ≢ escape)

stripped-append : (p q : Bytes) → IsPlain p → stripped false (p ++ q) ≡ p ++ stripped false q
unfolding stripped
stripped-append [] q h = refl
stripped-append (c ∷ p) q (ne, h) = ground (arith, stripped-append p q h)

stripped_plain : (p : Bytes) → IsPlain p → stripped false p ≡ p
unfolding stripped
stripped_plain [] h = refl
stripped_plain (c ∷ p) (ne, h) = ground (arith, stripped_plain p h)

-- A level name whose escapes strip away: the colour ends with its first `m`.
pub record Strips (l : LevelName) (name : Bytes) : Type 0 where
  pub spelled : l.token ≡ codes "level=" ++ name
  pub plain : IsPlain name
  pub vanishes : (q : Bytes) → stripped false (l.colour ++ q) ≡ stripped false q

abbrev name_of : LevelName → Bytes
name_of l = drop (length (codes "level=")) l.token

level_names-Strips : All (λ l. Strips l (name_of l)) level_names
unfolding stripped
level_names-Strips = (
  record { spelled = refl; plain = omega arith; vanishes = λ q. refl },
  (
    record { spelled = refl; plain = omega arith; vanishes = λ q. refl },
    (
      record { spelled = refl; plain = omega arith; vanishes = λ q. refl },
      (record { spelled = refl; plain = omega arith; vanishes = λ q. refl }, tt),
    ),
  ),
)

IsPlain-parts : (p t q : Bytes) → IsPlain (p ++ (t ++ q)) → IsPlain p × IsPlain q
IsPlain-parts [] t q h = (tt, All-append_right _ t q h)
IsPlain-parts (c ∷ p) t q (ne, h) = let (hp, hq) = IsPlain-parts p t q h in ((ne, hp), hq)

painted-Strips :
    (l : LevelName) (name p : Bytes) (i : ℕ)
    → Strips l name
    → IsPlain p
    → index l.token p ≡ some i
    → stripped false (painted l p i) ≡ p
unfolding stripped
painted-Strips l name p i s plain e =
    let rest = drop (i + length l.token) p in
    let whole = index-parts l.token p i e in
    let (before, behind) = IsPlain-parts (take i p) l.token rest (subst IsPlain whole plain) in
    let named : drop 6 l.token ≡ name = rw s.spelled refl in
    let tail : stripped false (drop 6 l.token ++ (ansi_reset ++ rest)) ≡ name ++ rest = rw named (
      stripped-append name (ansi_reset ++ rest) s.plain
      ∙ ap (λ q. name ++ q) (stripped_plain rest behind)) in
    stripped-append (take i p) _ before
    ∙ ap (λ q. take i p ++ (codes "level=" ++ q)) (s.vanishes _ ∙ tail)
    ∙ sym (whole ∙ ap (λ t. take i p ++ (t ++ rest)) s.spelled)

module _ {S Err : Type 0} (under : Bytes → S → S × ℕ × Option Err) where
  -- What a write that succeeds gave to the wrapped writer.
  abbrev pub Writes : Bytes → S → S × ℕ × Option Err → Type 0
  Writes p s (s', n, err) =
      (q : Bytes) × (stripped false q ≡ p) × (s' ≡ (under q s).0) × (n ≡ length p)

  counted-Writes :
      (p q : Bytes) (s : S) (r : S × ℕ × Option Err)
      → r ≡ under q s
      → stripped false q ≡ p
      → (counted (length p) r).2 ≡ none
      → Writes p s (counted (length p) r)
  counted-Writes p q s (s', n, some err) same e ok = cc
  counted-Writes p q s (s', n, none) same e ok = (q, e, ap (λ r. r.0) same, refl)

  write_found-Writes :
      (l : LevelName) (p : Bytes) (s : S) (o : Option ℕ) (rest : S × ℕ × Option Err)
      → Strips l (name_of l)
      → IsPlain p
      → index l.token p ≡ o
      → (rest.2 ≡ none → Writes p s rest)
      → (write_found under l p s o rest).2 ≡ none
      → Writes p s (write_found under l p s o rest)
  write_found-Writes l p s none rest g plain at k ok = k ok
  write_found-Writes l p s (some i) rest g plain at k ok =
      counted-Writes p (painted l p i) s _ refl (painted-Strips l (name_of l) p i g plain at) ok

  write_names-Writes :
      (ls : List LevelName) (p : Bytes) (s : S)
      → ((q : Bytes) → (under q s).2 ≡ none → (under q s).1 ≡ length q)
      → All (λ l. Strips l (name_of l)) ls
      → IsPlain p
      → (write_names under ls p s).2 ≡ none
      → Writes p s (write_names under ls p s)
  unfolding write_names
  write_names-Writes [] p s whole good plain ok = (p, stripped_plain p plain, refl, whole p ok)
  write_names-Writes (l ∷ ls) p s whole (g, good) plain ok =
      write_found-Writes l p s (index l.token p) (write_names under ls p s) g plain refl
        (write_names-Writes ls p s whole good plain) ok

  -- Of a line without escapes, over a writer that reports a full count whenever it does not
  -- fail: if the coloured write does not fail, the wrapped writer was given, once, a text that
  -- is the line again once its escape sequences are taken out, and the count is the length of
  -- the line.
  pub write-stripped :
      (p : Bytes) (s : S)
      → ((q : Bytes) → (under q s).2 ≡ none → (under q s).1 ≡ length q)
      → IsPlain p
      → (write under p s).2 ≡ none
      → (q : Bytes) × (stripped false q ≡ p)
        × ((write under p s).0 ≡ (under q s).0)
        × ((write under p s).1 ≡ length p)
  unfolding write
  write-stripped p s whole plain ok =
      write_names-Writes level_names p s whole level_names-Strips plain ok

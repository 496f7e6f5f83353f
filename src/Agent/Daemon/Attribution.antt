-- ===== src/Agent/Daemon/Attribution.antt =====
-- resolveAppByCwd of agent/internal/daemon/tokens.go: the app of a transcript's directory. A path is
-- the list of its bytes, and the map of apps has its entries in the order in which the loop meets them.
pub mod Longest
mod Tests
use breakerbox.Prelude.{
  ℕ, String, Bool, true, false, List, [], ◌∷◌, ◌++◌, Option, none, some, ◌==◌, ltb, ◌&&◌, ◌||◌,
  str_eq, if◌then◌else◌, length,
}
use breakerbox.Prelude.Dict.{Dict}
use breakerbox.Agent.Daemon.State.{AppState}

-- The bytes of a string, and filepath.EvalSymlinks.
pub record Paths : Type 0 where
  pub bytes : String → List ℕ
  pub eval_symlinks : List ℕ → Option (List ℕ)

abbrev pub separator : ℕ
separator = 47

unfoldable pub same_bytes : List ℕ → List ℕ → Bool
same_bytes [] [] = true
same_bytes [] (c ∷ s) = false
same_bytes (c ∷ s) [] = false
same_bytes (c ∷ s) (d ∷ t) = c == d && same_bytes s t

-- strings.HasPrefix, with the prefix first
unfoldable pub has_prefix : List ℕ → List ℕ → Bool
has_prefix [] s = true
has_prefix (c ∷ p) [] = false
has_prefix (c ∷ p) (d ∷ s) = c == d && has_prefix p s

unfoldable pub or_itself : List ℕ → Option (List ℕ) → List ℕ
or_itself path none = path
or_itself path (some r) = r

unfoldable pub resolved : Paths → List ℕ → List ℕ
unfolding or_itself
resolved p path = or_itself path (p.eval_symlinks path)

unfoldable pub is_inside : List ℕ → List ℕ → Bool
unfolding same_bytes has_prefix
is_inside cwd dir = same_bytes cwd dir || has_prefix (dir ++ separator ∷ []) cwd

-- best, bestLen
pub record Best : Type 0 where
  pub app : String
  pub size : ℕ

unfoldable pub better : List ℕ → Best → String → List ℕ → Best
unfolding is_inside
better cwd b id dir =
    if is_inside cwd dir && ltb b.size (length dir)
    then record { app = id; size = length dir }
    else b

-- The body of the loop.
unfoldable pub consider : Paths → List ℕ → Best → String → AppState → Best
unfolding better resolved
consider p cwd b id app =
    if str_eq app.definition.cwd ""
    then b
    else better cwd b id (resolved p (p.bytes app.definition.cwd))

unfoldable pub consider_all : Paths → List ℕ → Best → Dict AppState → Best
unfolding consider
consider_all p cwd b [] = b
consider_all p cwd b ((id, app) ∷ apps) = consider_all p cwd (consider p cwd b id app) apps

-- resolveAppByCwd
unfoldable pub resolve_app_by_cwd : Paths → Dict AppState → String → String
unfolding consider_all resolved
resolve_app_by_cwd p apps cwd =
    if str_eq cwd ""
    then ""
    else (consider_all p (resolved p (p.bytes cwd)) (record { app = ""; size = 0 }) apps).app

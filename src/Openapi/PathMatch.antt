-- ===== src/Openapi/PathMatch.antt =====
-- pathmatch.go: discovery patterns against OpenAPI paths. Go's `regexp` and `path.Match` come in
-- as an `Engine`, of which only compiling and matching are used.
pub mod Segments
use ops_mcp.Prelude.{
  ℕ, ◌+◌, Bool, true, false, not, ◌&&◌, ◌||◌, Option, none, some, List, [], ◌∷◌, ◌++◌, ltb, nat_beq,
  if◌then◌else◌, ◌==◌, nat_eq, length, any, Str, str, str_beq, str_eq, is_empty, has_prefix,
  has_suffix, contains_any, trim_byte, split,
}

pub record Engine : Type 0 where
  -- regexp.Compile, and MatchString of the compiled expression
  pub compile : Str → Option (Str → Bool)
  -- path.Match, with a malformed pattern as no match
  pub path_match : Str → Str → Bool

-- One byte of a glob, as a regular expression.
unfoldable pub glob_item : ℕ → Str
glob_item c =
    if nat_beq c b'*'
    then str ".*"
    else if nat_beq c b'?'
    then str "."
    else if any (nat_beq c) (str ".+()|[]{}^$\\")
    then b'\\' ∷ c ∷ []
    else c ∷ []

unfoldable pub glob_source : Str → Str
unfolding glob_item
glob_source [] = str "$"
glob_source (c ∷ pattern) = glob_item c ++ glob_source pattern

unfoldable pub match_glob : Engine → Str → Str → Bool
unfolding glob_source
match_glob e pattern s = elim (e.compile (b'^' ∷ glob_source pattern)) [
  | none ↦ e.path_match pattern s
  | some matches ↦ matches s
]

unfoldable pub split_path : Str → List Str
unfolding trim_byte split
split_path p = let t = trim_byte b'/' p in if is_empty t then [] else split b'/' t

unfoldable pub is_template_seg : Str → Bool
unfolding has_prefix has_suffix
is_template_seg s = has_prefix s (str "{") && has_suffix s (str "}") && ltb 2 (length s)

-- The loop of `matchTemplateOrExact`; the lists are equally long when it runs.
unfoldable pub match_segs : List Str → List Str → Bool
unfolding is_template_seg str_beq
match_segs [] os = true
match_segs (p ∷ ps) [] = true
match_segs (p ∷ ps) (o ∷ os) =
    if is_template_seg p || is_template_seg o
    then match_segs ps os
    else if not (p == o)
    then false
    else match_segs ps os

unfoldable pub match_template_or_exact : Str → Str → Bool
unfolding match_segs split_path
match_template_or_exact pattern path =
    let ps = split_path pattern in
    let os = split_path path in if not (length ps == length os) then false else match_segs ps os

-- `none` is the error of a pattern that does not compile.
unfoldable pub match_path : Engine → Str → Str → Option Bool
unfolding match_glob match_template_or_exact contains_any has_prefix
match_path e pattern path =
    if has_prefix pattern (str "^")
    then (elim (e.compile pattern) [ none ↦ none | some matches ↦ some (matches path) ])
    else if contains_any pattern (str "*?")
    then some (match_glob e pattern path)
    else some (match_template_or_exact pattern path)

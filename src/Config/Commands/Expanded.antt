-- ===== src/Config/Commands/Expanded.antt =====
-- expandEnvStrict: what stands for the pieces of a text, and its first variable that is not set.
use mathlib.Core.Path.{subst}
use ops_mcp.Config.Errors.{env_not_set}
use ops_mcp.Config.Commands.{Piece, plain, variable, expand_pieces, expand_env_strict}
use ops_mcp.Prelude.{
  ◌≡◌, refl, ◌⊎◌, inl, inr, Option, none, some, List, [], ◌∷◌, ◌++◌, Option-cases, nat_eq, Str,
  str_eq, Result, ok, err, Result-cases, ◌>>=◌,
}

module _ (pieces : Str → List Piece) (lookup_env : Str → Option Str) where
  -- The text that stands for a piece.
  pub data Stands : Piece → Str → Type 0 where
    itself : (s : Str) → Stands (plain s) s
    of_env : {name val : Str} → lookup_env name ≡ some val → Stands (variable name) val

  -- The pieces put together, each replaced by what stands for it.
  pub data Replaced : List Piece → Str → Type 0 where
    done : Replaced [] []
    more :
        {p : Piece} {ps : List Piece} {s rest : Str}
        → Stands p s
        → Replaced ps rest
        → Replaced (p ∷ ps) (s ++ rest)

  -- The first variable that is not set: each piece before it stands for something.
  pub data FirstUnset : List Piece → Str → Type 0 where
    now :
        {name : Str} {ps : List Piece}
        → lookup_env name ≡ none
        → FirstUnset (variable name ∷ ps) name
    later :
        {p : Piece} {ps : List Piece} {s name : Str}
        → Stands p s
        → FirstUnset ps name
        → FirstUnset (p ∷ ps) name

  -- What a result says of the pieces.
  Explained : List Piece → Result Str Str → Type 0
  Explained ps (ok out) = Replaced ps out
  Explained ps (err name) = FirstUnset ps name

  extend :
      {p : Piece} {s : Str} (ps : List Piece) (r : Result Str Str)
      → Stands p s
      → Explained ps r
      → Explained (p ∷ ps) (r >>= λ rest. ok (s ++ rest))
  unfolding Explained
  extend ps (ok rest) st e = more st e
  extend ps (err name) st e = later st e

  expand_pieces-Explained : (ps : List Piece) → Explained ps (expand_pieces pieces lookup_env ps)
  unfolding expand_pieces Explained
  expand_pieces-Explained [] = done
  expand_pieces-Explained (plain s ∷ ps) = extend ps _ (itself s) (expand_pieces-Explained ps)
  expand_pieces-Explained (variable name ∷ ps) = elim (Option-cases (lookup_env name)) [
    | inl e ↦ rw (e, expand_pieces) (now e)
    | inr (val, e) ↦ rw (e, expand_pieces) (extend ps _ (of_env e) (expand_pieces-Explained ps))
  ]

  -- An expansion gives the text with each variable replaced by its value, or else the error of
  -- the first variable that is not set, for the field that is expanded.
  pub expand_env_strict_lem :
      (s field_path : Str)
      → ((out : Str) × (expand_env_strict pieces lookup_env s field_path ≡ ok out)
          × Replaced (pieces s) out)
        ⊎ ((name : Str) × (expand_env_strict pieces lookup_env s field_path
              ≡ err (env_not_set field_path name))
            × FirstUnset (pieces s) name)
  unfolding expand_env_strict Explained
  expand_env_strict_lem s field_path =
      elim (Result-cases (expand_pieces pieces lookup_env (pieces s))) [
        | inl (name, e) ↦ inr (
          name,
          rw (e, expand_env_strict) refl,
          subst (Explained (pieces s)) e (expand_pieces-Explained (pieces s)),
        )
        | inr (out, e) ↦ inl (
          out,
          rw (e, expand_env_strict) refl,
          subst (Explained (pieces s)) e (expand_pieces-Explained (pieces s)),
        )
      ]

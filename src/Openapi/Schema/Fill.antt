-- ===== src/Openapi/Schema/Fill.antt =====
-- fillPath of schema.go. `sprint` is fmt.Sprint, which turns an argument to text.
pub mod Segments
use ops_mcp.Prelude.Value.{Value, given}
use ops_mcp.Prelude.Affix.{trim_prefix-append, trim_suffix-append}
use ops_mcp.Openapi.PathMatch.{is_template_seg}
use ops_mcp.Prelude.{
  ◌≡◌, none, some, List, [], ◌∷◌, ◌++◌, if◌then◌else◌, nat_eq, Str, str, str_eq, trim_prefix,
  trim_suffix, split, join, Dict, Result, ok, err, ◌>>=◌,
}

unfoldable pub template_name : Str → Str
unfolding trim_prefix trim_suffix
template_name seg = trim_suffix (trim_prefix seg (str "{")) (str "}")

module _ (sprint : Value → Str) where
  -- The loop of fillPath; the error is the name of the missing parameter.
  unfoldable pub fill_segs : List Str → Dict Value → Result Str (List Str)
  unfolding template_name is_template_seg given
  fill_segs [] args = ok []
  fill_segs (seg ∷ segs) args =
      let rest = fill_segs segs args in
      if is_template_seg seg
      then (elim (given (template_name seg) args) [
        | none ↦ err (template_name seg)
        | some v ↦ rest >>= λ done. ok (sprint v ∷ done)
      ])
      else rest >>= λ done. ok (seg ∷ done)

  unfoldable pub fill_path : Str → Dict Value → Result Str Str
  unfolding fill_segs split join
  fill_path template args = do segs ← fill_segs (split b'/' template) args; ok (join b'/' segs)

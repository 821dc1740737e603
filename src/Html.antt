-- ===== src/Html.antt =====
-- The html of util.ts and router.ts in packages/borgo/src: `escapeHtml`, `scriptJson` and `headHtml`
-- of util.ts, `resolveHead` and `safeHeadAttrs` of router.ts.
pub mod Decode
pub mod Escape
use borgo.Common.{
  ℕ, Bool, true, false, ◌&&◌, ◌||◌, not, List, [], ◌∷◌, ◌++◌, Option, none, some, all, is_empty,
  ◌==◌, if◌then◌else◌, map,
}
use borgo.Text.{Text, codes, has_prefix, replace_all, is_alpha, is_digit, to_lower}
use borgo.Result.{Result, thrown, value}
use borgo.Maps.{Map}

unfoldable pub escape_html : Text → Text
unfolding replace_all
escape_html s = replace_all (codes "\"") (codes "&quot;") (
    replace_all (codes ">") (codes "&gt;")
      (replace_all (codes "<") (codes "&lt;") (replace_all (codes "&") (codes "&amp;") s)))

-- `scriptJson`, of what `JSON.stringify` gives
unfoldable pub script_json : Text → Text
unfolding replace_all
script_json json =
    replace_all (0x2029 ∷ []) (codes "\\u2029")
      (replace_all (0x2028 ∷ []) (codes "\\u2028") (replace_all (codes "<") (codes "\\u003c") json))

abbrev in_attr_name : ℕ → Bool
in_attr_name c = is_alpha c || is_digit c || c == b':' || c == b'.' || c == b'_' || c == b'-'

-- `safeAttrName`
unfoldable pub safe_attr_name : Text → Bool
unfolding has_prefix
safe_attr_name [] = false
safe_attr_name (c ∷ name) =
    is_alpha c && all in_attr_name name && not (has_prefix (codes "on") (map to_lower (c ∷ name)))

unfoldable pub safe_head_attrs : Map Text → Map Text
unfolding safe_attr_name
safe_head_attrs [] = []
safe_head_attrs ((name, v) ∷ meta) =
    let rest = safe_head_attrs meta in if safe_attr_name name then (name, v) ∷ rest else rest

-- `Head`, with the values as text; a title that is absent is empty
pub record Head : Type 0 where
  pub title : Text
  pub metas : List (Map Text)

unfoldable pub attrs_html : Map Text → Text
unfolding escape_html
attrs_html [] = []
attrs_html ((name, v) ∷ attrs) =
    codes " " ++ (name ++ (codes "=\"" ++ (escape_html v ++ (codes "\"" ++ attrs_html attrs))))

unfoldable pub metas_html : List (Map Text) → Text
unfolding attrs_html safe_head_attrs
metas_html [] = []
metas_html (meta ∷ metas) =
    codes "<meta"
    ++ (attrs_html (safe_head_attrs meta) ++ (codes " data-borgo-head>" ++ metas_html metas))

unfoldable pub head_html : Head → Text
unfolding metas_html escape_html
head_html head =
    (if is_empty head.title
      then []
      else codes "<title>" ++ (escape_html head.title ++ codes "</title>"))
    ++ metas_html head.metas

-- the head export of a page
pub data HeadExport (Error Data : Type 0) : Type 0 where
  no_head : HeadExport Error Data
  fixed : Head → HeadExport Error Data
  computed : (Data → Result Error (Option Head)) → HeadExport Error Data

abbrev or_no_head : {Error : Type 0} → Result Error (Option Head) → Result Error Head
or_no_head (thrown why) = thrown why
or_no_head (value none) = value (record { title = []; metas = [] })
or_no_head (value (some head)) = value head

unfoldable pub resolve_head :
    {Error Data : Type 0} → HeadExport Error Data → Data → Result Error Head
resolve_head no_head props = value (record { title = []; metas = [] })
resolve_head (fixed head) props = value head
resolve_head (computed run) props = or_no_head (run props)

-- ===== src/Webfeed/Template.antt =====
-- app/internal/webfeed/template.go: the URL shapes that streams are keyed on. A template is kept
-- as its host and its segments, the parts that the Go code cuts and splits it into; the empty
-- string is `none`. net/url and strings.ToLower are parameters.
pub mod Merge
use morgenblau.Common.{
  ℕ, Option, none, some, Bool, true, false, ◌&&◌, ◌||◌, not, List, [], ◌∷◌, String, ◌==◌,
  if◌then◌else◌, any, keep_if, length, eqb, ltb, map,
}

pub record Template : Type 0 where
  pub host : String
  pub segs : List String

-- `segments` are the parts of the path between slashes.
pub record Url : Type 0 where
  pub scheme : String
  pub host : String
  pub segments : List String
  pub raw_query : String

pub record Library : Type 0 where
  pub parse_url : String → Option Url
  pub to_lower : String → String
  pub trim_www : String → String
  pub all_digits : String → Bool

abbrev pub same_segs : List String → List String → Bool
same_segs [] [] = true
same_segs [] (t ∷ ts) = false
same_segs (s ∷ ss) [] = false
same_segs (s ∷ ss) (t ∷ ts) = s == t && same_segs ss ts

abbrev pub same_template : Template → Template → Bool
same_template a b = a.host == b.host && same_segs a.segs b.segs

module _ (lib : Library) where
  abbrev pub is_default_document : String → Bool
  is_default_document s =
      let name = lib.to_lower s in
      name == "index.html"
      || name == "index.htm"
      || name == "index.php"
      || name == "default.aspx"
      || name == "default.htm"

  -- The segments without a default document at the end.
  unfoldable pub trim_document : List String → List String
  trim_document [] = []
  trim_document (s ∷ []) = if is_default_document s then [] else s ∷ []
  trim_document (s ∷ t ∷ rest) = s ∷ trim_document (t ∷ rest)

  abbrev pub path_segments : Url → List String
  path_segments u = trim_document (keep_if (λ s. not (s == "")) u.segments)

  unfoldable pub shape : List String → List String
  shape [] = "" ∷ []
  shape (s ∷ []) = "*" ∷ []
  shape (s ∷ t ∷ rest) = (if lib.all_digits s then "#" else s) ∷ shape (t ∷ rest)

  template_of : Option Url → Option Template
  template_of none = none
  template_of (some u) =
      if not (u.scheme == "http") && not (u.scheme == "https") || u.host == ""
      then none
      else some
          (record { host = lib.trim_www (lib.to_lower u.host); segs = shape (path_segments u) })

  unfoldable pub url_template : String → Option Template
  unfolding template_of
  url_template raw = template_of (lib.parse_url raw)

  abbrev pub last_of : List String → Option String
  last_of [] = none
  last_of (s ∷ []) = some s
  last_of (s ∷ t ∷ rest) = last_of (t ∷ rest)

  -- lastSegment: the segment, or whether there is a query instead.
  last_or_query : Option String → String → String × Bool
  last_or_query none raw_query = ("", not (raw_query == ""))
  last_or_query (some s) raw_query = (s, true)

  unfoldable pub last_segment : String → String × Bool
  unfolding last_or_query
  last_segment raw = elim (lib.parse_url raw) [
    | none ↦ ("", false)
    | some u ↦ last_or_query (last_of (path_segments u)) u.raw_query
  ]

unfoldable pub template_first_segment : Template → String
template_first_segment t = elim t.segs [
  | [] ↦ ""
  | s ∷ rest ↦ if eqb (length rest) 0 then "" else s
]

-- The templates, each once.
unfoldable pub distinct : List Template → List Template
distinct [] = []
distinct (t ∷ ts) = let rest = distinct ts in if any (same_template t) rest then rest else t ∷ rest

abbrev pub fits_first : Template → Template → Bool
fits_first first t = t.host == first.host && eqb (length t.segs) (length first.segs)

abbrev pub head_of : List String → String
head_of [] = ""
head_of (s ∷ rest) = s

abbrev pub tail_of : List String → List String
tail_of [] = []
tail_of (s ∷ rest) = rest

-- A segment that differs in another template becomes *.
unfoldable pub merge_segs : List String → List (List String) → List String
merge_segs [] others = []
merge_segs (s ∷ rest) others =
    (if any (λ o. not (head_of o == s)) others then "*" else s)
    ∷ merge_segs rest (map tail_of others)

-- A segment before the last that is neither * nor #.
unfoldable pub has_literal : List String → Bool
has_literal [] = false
has_literal (s ∷ []) = false
has_literal (s ∷ t ∷ rest) = (not (s == "*") && not (s == "#")) || has_literal (t ∷ rest)

-- The loops over the distinct templates, in the order that the map gives them. (No host is
-- empty.)
unfoldable pub merge_templates : List Template → Option Template
merge_templates [] = none
merge_templates (first ∷ []) = none
merge_templates (first ∷ second ∷ more) =
    let others = second ∷ more in
    let out = merge_segs first.segs (map (λ t. t.segs) others) in
    if any (λ t. not (fits_first first t)) others || not (has_literal out)
    then none
    else some (record { host = first.host; segs = out })

unfoldable pub generalize_templates : List Template → Option Template
generalize_templates ts = merge_templates (distinct ts)

unfoldable pub match_segs : List String → List String → Bool
match_segs [] [] = true
match_segs [] (t ∷ ts) = false
match_segs (p ∷ ps) [] = false
match_segs (p ∷ ps) (t ∷ ts) = not (t == "") && (p == "*" || p == t) && match_segs ps ts

unfoldable pub match_template : Template → Template → Bool
match_template pattern_ tmpl =
    same_template pattern_ tmpl
    || (pattern_.host == tmpl.host && match_segs pattern_.segs tmpl.segs)

unfoldable pub match_any : List Template → Template → Bool
match_any patterns tmpl = any (λ p. match_template p tmpl) patterns

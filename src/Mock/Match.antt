-- ===== src/Mock/Match.antt =====
-- The tests of one definition against one request: path templates, query and header conditions.
use rust_fox.Prelude.{
  Bool, false, not, ◌||◌, List, [], ◌∷◌, map, Option, none, some, length, keep, all, if◌then◌else◌,
  eqb, ◌==◌, list_eq, nat_eq,
}
use rust_fox.Prelude.Dict.{Dict, get, insert, or_insert}
use rust_fox.Prelude.Text.{Text, codes, is_empty, split, split_once, strip_prefix, strip_suffix}
use rust_fox.Mock.Definition.{MockMatchItem}

-- `headers.get(name).and_then(|v| v.to_str().ok())` of the `http` crate's map.
abbrev pub HeaderMap : Type 0
HeaderMap = Text → Option Text

pub data PathSeg : Type 0 where
  literal : Text → PathSeg
  param : Text → PathSeg

-- `s.split('/').filter(|s| !s.is_empty())`
unfoldable pub segments : Text → List Text
unfolding split
segments path = keep (λ s. not (is_empty s)) (split b'/' path)

-- The name between the braces of a `{name}` segment.
unfoldable pub param_name : Text → Option Text
unfolding strip_prefix strip_suffix
param_name s = elim (strip_prefix (codes "{") s) [
  | none ↦ none
  | some r ↦ strip_suffix (codes "}") r
]

abbrev pub seg_of : Text → Option Text → PathSeg
seg_of s (some name) = param name
seg_of s none = literal s

unfoldable pub compile_path : Text → List PathSeg
unfolding segments param_name
compile_path template = map (λ s. seg_of s (param_name s)) (segments template)

-- The loop of `match_compiled`.
unfoldable pub bind_compiled : List PathSeg → List Text → Dict Text Text → Option (Dict Text Text)
unfolding insert
bind_compiled [] path vars = some vars
bind_compiled (t ∷ ts) [] vars = some vars
bind_compiled (param name ∷ ts) (p ∷ ps) vars = bind_compiled ts ps (insert name p vars)
bind_compiled (literal lit ∷ ts) (p ∷ ps) vars = if lit == p then bind_compiled ts ps vars else none

unfoldable pub match_compiled : List PathSeg → List Text → Option (Dict Text Text)
unfolding bind_compiled
match_compiled template path =
    if not (eqb (length template) (length path)) then none else bind_compiled template path []

-- The loop of `match_path`, over the uncompiled segments; one step is by the segment's name.
unfoldable pub bind_path : List Text → List Text → Dict Text Text → Option (Dict Text Text)
unfolding insert param_name
bind_path [] path vars = some vars
bind_path (t ∷ ts) [] vars = some vars
bind_path (t ∷ ts) (p ∷ ps) vars = elim (param_name t) [
  | some name ↦ bind_path ts ps (insert name p vars)
  | none ↦ if t == p then bind_path ts ps vars else none
]

unfoldable pub match_path : Text → Text → Option (Dict Text Text)
unfolding bind_path segments
match_path template path =
    let t = segments template in
    let p = segments path in if not (eqb (length t) (length p)) then none else bind_path t p []

-- `splitn(2, '=')`: a missing `=` gives an empty value.
abbrev pub key_value : Text → Text × Text
key_value kv = elim (split_once (codes "=") kv) [ none ↦ (kv, []) | some (k, v) ↦ (k, v) ]

-- The loop of `parse_query`: the first pair of a key stays.
unfoldable pub collect_pairs : Dict Text Text → List Text → Dict Text Text
unfolding split_once get insert
collect_pairs m [] = m
collect_pairs m (kv ∷ kvs) = collect_pairs (or_insert (key_value kv).0 (key_value kv).1 m) kvs

unfoldable pub parse_query : Text → Dict Text Text
unfolding collect_pairs split
parse_query query = collect_pairs [] (keep (λ s. not (is_empty s)) (split b'&' query))

-- A condition with an empty value asks for presence only.
abbrev pub meets : MockMatchItem → Option Text → Bool
meets item (some v) = is_empty item.value || (v == item.value)
meets item none = false

unfoldable pub query_match_map : List MockMatchItem → Dict Text Text → Bool
unfolding get
query_match_map items pairs = all (λ item. meets item (get item.key pairs)) items

unfoldable pub query_match : List MockMatchItem → Text → Bool
unfolding query_match_map parse_query
query_match items query = query_match_map items (parse_query query)

unfoldable pub headers_match : List MockMatchItem → HeaderMap → Bool
headers_match items headers = all (λ item. meets item (headers item.key)) items

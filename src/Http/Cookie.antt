-- ===== src/Http/Cookie.antt =====
-- fox-http/src/cookie.rs: the cookie jar. Instants are seconds since the epoch; the host of a URL,
-- the reading of dates and the check of a header value belong to other crates and are parameters.
pub mod Jar
pub mod Listing
pub mod Refines
pub mod Expiry
use rust_fox.Prelude.{
  ℕ, zero, suc, ◌+◌, ◌-◌, ◌^◌, Bool, true, false, not, ◌&&◌, ◌||◌, List, [], ◌∷◌, ◌++◌, Option,
  none, some, length, keep, if◌then◌else◌, leb, ltb, ◌==◌, list_eq, nat_eq,
}
use rust_fox.Prelude.Compare.{text_le, on, then_by}
use rust_fox.Prelude.Dict.{Dict, get, insert}
use rust_fox.Prelude.Int.{ℤ, pos, negsuc}
use rust_fox.Prelude.Number.{parse_i64}
use rust_fox.Prelude.Sort.{sort_by}
use rust_fox.Prelude.Text.{
  Text, codes, is_empty, trim, split, split_once, strip_prefix, ends_with, contains, join,
}
use rust_fox.Core.External.{CaseMaps}

pub record StoredCookie : Type 0 where
  pub name : Text
  pub value : Text
  pub domain : Text
  pub path : Text
  pub expires_at : Option ℕ
  pub secure : Bool
  pub http_only : Bool

-- domain → cookies
abbrev pub Jar : Type 0
Jar = Dict Text (List StoredCookie)

-- `SystemTime::checked_add` in whole seconds: the sum must fit an `i64`.
abbrev pub checked_add : ℕ → ℕ → Option ℕ
checked_add now secs = if leb (now + secs) (2 ^ 63 - 1) then some (now + secs) else none

abbrev pub strip_dot : Text → Text
strip_dot v = elim (strip_prefix (codes ".") v) [ none ↦ v | some r ↦ r ]

unfoldable pub domain_matches : (host cookie_domain : Text) → Bool
domain_matches host cookie_domain =
    (host == strip_dot cookie_domain) || ends_with host (codes "." ++ strip_dot cookie_domain)

unfoldable pub is_live : (now : ℕ) → StoredCookie → Bool
is_live now c = elim c.expires_at [ none ↦ true | some t ↦ ltb now t ]

abbrev pub same_slot : StoredCookie → StoredCookie → Bool
same_slot c d = (d.name == c.name) && (d.path == c.path)

-- A cookie of the same name and path is replaced where it stands.
unfoldable pub put : StoredCookie → List StoredCookie → List StoredCookie
put c [] = c ∷ []
put c (d ∷ ds) = if same_slot c d then c ∷ ds else d ∷ put c ds

abbrev pub slot_of : Option (List StoredCookie) → List StoredCookie
slot_of none = []
slot_of (some cs) = cs

module _ (cases : CaseMaps) (parse_date : Text → Option ℕ) (now : ℕ) where
  -- `Max-Age`: `none` rejects the cookie as a whole.
  abbrev pub set_max_age : Option ℤ → StoredCookie → Option StoredCookie
  set_max_age none c = some c
  set_max_age (some (negsuc n)) c = none
  set_max_age (some (pos zero)) c = none
  set_max_age (some (pos (suc n))) c = some (record c { expires_at = checked_add now (suc n) })

  abbrev pub set_expires : Option ℕ → StoredCookie → StoredCookie
  set_expires none c = c
  set_expires (some t) c = record c { expires_at = some t }

  -- One attribute, by its lower-case name.
  unfoldable pub set_attribute : (k v : Text) → StoredCookie → Option StoredCookie
  set_attribute k v c =
      if k == codes "domain"
      then some (if is_empty v then c else record c { domain = cases.to_lowercase (strip_dot v) })
      else if k == codes "path"
      then some (if is_empty v then c else record c { path = v })
      else if k == codes "max-age"
      then set_max_age (parse_i64 v) c
      else if k == codes "expires"
      then some (set_expires (parse_date v) c)
      else if k == codes "secure"
      then some (record c { secure = true })
      else if k == codes "httponly"
      then some (record c { http_only = true })
      else some c

  -- `attr.split_once('=')`, with the name in lower case.
  unfoldable pub attribute : Text → Text × Text
  attribute attr = elim (split_once (codes "=") (trim attr)) [
    | some (k, v) ↦ (cases.to_lowercase (trim k), trim v)
    | none ↦ (cases.to_lowercase (trim attr), [])
  ]

  unfoldable pub set_attributes : List Text → StoredCookie → Option StoredCookie
  set_attributes [] c = some c
  set_attributes (attr ∷ attrs) c = elim (set_attribute (attribute attr).0 (attribute attr).1 c) [
    | none ↦ none
    | some c' ↦ set_attributes attrs c'
  ]

  abbrev pub host_or_empty : Option Text → Text
  host_or_empty none = []
  host_or_empty (some h) = h

  -- The cookie before its attributes.
  abbrev pub plain_cookie : (host : Option Text) (name value : Text) → StoredCookie
  plain_cookie host name value = record {
    name = name;
    value = value;
    domain = cases.to_lowercase (host_or_empty host);
    path = codes "/";
    expires_at = none;
    secure = false;
    http_only = false;
  }

  abbrev pub from_parts : (host : Option Text) → List Text → Option StoredCookie
  from_parts host [] = none
  from_parts host (first ∷ attrs) = elim (split_once (codes "=") (trim first)) [
    | none ↦ none
    | some (name, value) ↦
        if is_empty (trim name)
        then none
        else set_attributes attrs (plain_cookie host (trim name) (trim value))
  ]

  unfoldable pub parse_set_cookie : (raw : Text) (host : Option Text) → Option StoredCookie
  parse_set_cookie raw host = from_parts host (split b';' raw)

  unfoldable pub store : (set_cookie : Text) (host : Option Text) → Jar → Jar
  store set_cookie host jar = elim (parse_set_cookie set_cookie host) [
    | none ↦ jar
    | some c ↦ insert c.domain (put c (slot_of (get c.domain jar))) jar
  ]

abbrev pub pair_text : StoredCookie → Text
pair_text c = c.name ++ (codes "=" ++ c.value)

module _ (now : ℕ) where
  -- The pairs of one slot that are sent.
  abbrev pub pairs_of : List StoredCookie → List Text
  pairs_of [] = []
  pairs_of (c ∷ cs) = if is_empty c.value then pairs_of cs else pair_text c ∷ pairs_of cs

  -- The loop of `header_for`: the pairs of the matching slots, and the jar without what has expired
  -- in them.
  unfoldable pub collect : (host : Text) → Jar → List Text × Jar
  collect host [] = ([], [])
  collect host ((domain, cs) ∷ jar) =
      let (pairs, jar') = collect host jar in
      let live = keep (is_live now) cs in
      if domain_matches host domain
      then (pairs_of live ++ pairs, (domain, live) ∷ jar')
      else (pairs, (domain, cs) ∷ jar')

  abbrev pub header_text : (valid : Text → Bool) → List Text → Option Text
  header_text valid [] = none
  header_text valid (p ∷ ps) =
      if valid (join (codes "; ") (p ∷ ps)) then some (join (codes "; ") (p ∷ ps)) else none

  unfoldable pub header_for :
      CaseMaps → (valid : Text → Bool) (host : Option Text) → Jar → Option Text × Jar
  header_for cases valid none jar = (none, jar)
  header_for cases valid (some h) jar =
      let (pairs, jar') = collect (cases.to_lowercase h) jar in (header_text valid pairs, jar')

-- `clear`: the number of cookies removed, and the jar that is left.
abbrev pub count_cookies : Jar → ℕ
count_cookies [] = 0
count_cookies ((domain, cs) ∷ jar) = length cs + count_cookies jar

unfoldable pub is_cleared : (d domain : Text) → Bool
is_cleared d domain = (domain == d) || ends_with domain (codes "." ++ d)

unfoldable pub clear_domain : Text → Jar → ℕ × Jar
clear_domain d [] = (0, [])
clear_domain d ((domain, cs) ∷ jar) =
    let (n, jar') = clear_domain d jar in
    if is_cleared d domain then (length cs + n, jar') else (n, (domain, cs) ∷ jar')

unfoldable pub clear : CaseMaps → Option Text → Jar → ℕ × Jar
clear cases none jar = (count_cookies jar, [])
clear cases (some d) jar = clear_domain (cases.to_lowercase d) jar

-- `a.domain.cmp(&b.domain).then(a.name.cmp(&b.name))`, not greater.
abbrev pub cookie_le : StoredCookie → StoredCookie → Bool
cookie_le = then_by (on (λ c. c.domain) text_le) (on (λ c. c.name) text_le)

abbrev pub passes : Option Text → Text → Bool
passes none domain = true
passes (some f) domain = contains domain f

module _ (now : ℕ) where
  -- The loop of `list`.
  unfoldable pub list_from : Option Text → Jar → List StoredCookie × Jar
  list_from filter [] = ([], [])
  list_from filter ((domain, cs) ∷ jar) =
      let (out, jar') = list_from filter jar in
      let live = keep (is_live now) cs in
      if passes filter domain
      then (live ++ out, (domain, live) ∷ jar')
      else (out, (domain, cs) ∷ jar')

  unfoldable pub list : Option Text → Jar → List StoredCookie × Jar
  list filter jar = let (out, jar') = list_from filter jar in (sort_by cookie_le out, jar')

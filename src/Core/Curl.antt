-- ===== src/Core/Curl.antt =====
-- fox-core/src/curl_parser.rs: a pasted cURL command to a request. The splitting of the command
-- into words (`shell_words`) and the JSON check (`serde_json`) are parameters.
pub mod Options
pub mod Outcome
pub mod RoundTrip
use rust_fox.Prelude.{
  ℕ, ◌*◌, Bool, true, false, not, ◌&&◌, ◌||◌, List, [], ◌∷◌, ◌++◌, Option, none, some, length, any,
  if◌then◌else◌, leb, ltb, eqb, ◌==◌, list_eq, nat_eq,
}
use rust_fox.Prelude.Text.{
  Text, codes, is_empty, trim, strip_prefix, strip_suffix, starts_with, ends_with, split_once, join,
  utf8_len, last_char, tail_of,
}
use rust_fox.Core.Curl.Options.{is_value_option, value_long_options, value_short_opts, member}
use rust_fox.Core.External.{CaseMaps}
use rust_fox.Core.Method.{HttpMethod, get, post, from_str}
use rust_fox.Core.Model.{
  KeyValue, new_key_value, AuthSpec, no_auth, basic, digest, BodySpec, json, text,
}

pub record CurlParsed : Type 0 where
  pub url : Text
  pub method : HttpMethod
  pub headers : List KeyValue
  pub body : Option BodySpec
  pub auth : AuthSpec
  pub ignored : List Text

-- The loop's variables; `out.method` and `out.body` are set behind the loop.
pub record Scan : Type 0 where
  pub out : CurlParsed
  pub explicit : Option HttpMethod
  pub has_data : Bool
  pub data_parts : List Text
  pub digest_flag : Bool

-- The three validation errors: a quote that is not closed, no words, no URL.
pub data CurlError : Type 0 where
  bad_quotes no_words no_url : CurlError

pub data Parsed : Type 0 where
  ok : CurlParsed → Parsed
  err : CurlError → Parsed

abbrev pub empty_parsed : CurlParsed
empty_parsed = record {
  url = [];
  method = get;
  headers = [];
  body = none;
  auth = no_auth;
  ignored = [];
}

abbrev pub initial : Scan
initial = record {
  out = empty_parsed;
  explicit = none;
  has_data = false;
  data_parts = [];
  digest_flag = false;
}

unfoldable pub push_ignored : Text → Scan → Scan
push_ignored token s =
    if member token s.out.ignored
    then s
    else record s { out = record (s.out) { ignored = s.out.ignored ++ token ∷ [] } }

unfoldable pub set_url : Text → Scan → Scan
set_url v s = if is_empty s.out.url then record s { out = record (s.out) { url = v } } else s

unfoldable pub push_header : Text → Scan → Scan
push_header v s = elim (split_once (codes ":") v) [
  | none ↦ s
  | some (k, value) ↦ if is_empty (trim k) then s else record s {
    out = record (s.out) { headers = s.out.headers ++ new_key_value (trim k) (trim value) ∷ [] };
  }
]

unfoldable pub parse_user : Text → Text × Text
parse_user v = elim (split_once (codes ":") v) [ some (u, p) ↦ (trim u, p) | none ↦ (trim v, []) ]

unfoldable pub set_user : Text → Scan → Scan
set_user v s = record s { out = record (s.out) { auth = basic (parse_user v).0 (parse_user v).1 } }

unfoldable pub push_data : Text → Scan → Scan
push_data v s = record s { data_parts = s.data_parts ++ v ∷ []; has_data = true }

-- The value of an option, if a word follows.
abbrev pub with_value : Option Text → (Text → Scan → Scan) → Scan → Option Scan
with_value none f s = none
with_value (some v) f s = some (f v s)

-- How the loop goes on: with the next word, behind it, or not at all.
pub data Next : Type 0 where
  next_word : Scan → Next
  skip_value : Scan → Next
  stop : Scan → Next

abbrev pub consume : Scan → Option Scan → Next
consume s none = next_word s
consume s (some s') = skip_value s'

abbrev pub is_some : Option Text → Bool
is_some none = false
is_some (some v) = true

abbrev pub is_curl : Text → Bool
is_curl w = w == codes "curl" || w == codes "curl.exe" || ends_with w (codes "/curl")

abbrev pub is_data_option : Text → Bool
is_data_option w =
    w == codes "-d"
    || w == codes "--data"
    || w == codes "--data-raw"
    || w == codes "--data-binary"
    || w == codes "--data-urlencode"

pub data Word : Type 0 where
  method_option header_option user_option digest_switch data_option url_option : Word
  long_option short_option position : Word

-- The patterns of the `match`, in their order.
unfoldable pub classify : Text → Word
unfolding strip_prefix
classify w =
    if w == codes "-X" || w == codes "--request"
    then method_option
    else if w == codes "-H" || w == codes "--header"
    then header_option
    else if w == codes "-u" || w == codes "--user"
    then user_option
    else if w == codes "--digest"
    then digest_switch
    else if is_data_option w
    then data_option
    else if w == codes "--url"
    then url_option
    else if starts_with w (codes "--") && ltb 2 (length w)
    then long_option
    else if starts_with w (codes "-") && ltb 1 (length w)
    then short_option
    else position

module _ (cases : CaseMaps) where
  abbrev pub set_method : Text → Scan → Scan
  set_method v s = record s { explicit = from_str cases v }

  -- `apply_value_option`, for `--name=value`.
  unfoldable pub apply_value_option : (name value : Text) → Scan → Scan
  apply_value_option name value s =
      if name == codes "--url"
      then set_url value s
      else if name == codes "--request"
      then set_method value s
      else if name == codes "--header"
      then push_header value s
      else if name == codes "--user"
      then set_user value s
      else if is_data_option name && not (name == codes "-d")
      then push_data value s
      else s

  -- The arms of the `match`, by the kind of the word.
  unfoldable pub act : Word → (w : Text) (value : Option Text) → Scan → Next
  act method_option w value s = consume s (with_value value set_method s)
  act header_option w value s = consume s (with_value value push_header s)
  act user_option w value s = consume s (with_value value set_user s)
  act digest_switch w value s = next_word (record s { digest_flag = true })
  act data_option w value s = consume s (with_value value push_data s)
  act url_option w value s = consume s (with_value value set_url s)
  act long_option w value s =
      if is_some value && member w value_long_options
      then skip_value (push_ignored w s)
      else next_word (push_ignored w s)
  act short_option w value s =
      if is_some value && any (λ c. any (eqb c) value_short_opts) (tail_of w)
      then skip_value (push_ignored w s)
      else next_word (push_ignored w s)
  act position w value s = next_word (set_url w s)

  -- The `match` on a word that is no `--name=value`.
  unfoldable pub match_word : (w : Text) (value : Option Text) → Scan → Next
  match_word w value s = act (classify w) w value s

  -- Behind `--` the next word is the URL, and the loop ends.
  abbrev pub take_rest : Option Text → Scan → Next
  take_rest none s = stop s
  take_rest (some v) s = stop (set_url v s)

  -- `w.split_once('=')`: a long option with its value, or a word like any other.
  abbrev pub long_form : Option (Text × Text) → (w : Text) (value : Option Text) → Scan → Next
  long_form none w value s = match_word w value s
  long_form (some (name, v)) w value s =
      if starts_with name (codes "--")
      then next_word
          (if is_value_option name then apply_value_option name v s else push_ignored name s)
      else match_word w value s

  -- One round of the loop on the word `w`, with the word behind it.
  unfoldable pub step : (first : Bool) (w : Text) (value : Option Text) → Scan → Next
  step first w value s =
      if first && is_curl w
      then next_word s
      else if w == codes "--"
      then take_rest value s
      else long_form (split_once (codes "=") w) w value s

  abbrev pub last_state : Next → Scan
  last_state (next_word s) = s
  last_state (skip_value s) = s
  last_state (stop s) = s

  unfoldable pub loop : (first : Bool) → List Text → Scan → Scan
  loop first [] s = s
  loop first (w ∷ []) s = last_state (step first w none s)
  loop first (w ∷ v ∷ words) s = elim (step first w (some v) s) [
    | next_word s' ↦ loop false (v ∷ words) s'
    | skip_value s' ↦ loop false words s'
    | stop s' ↦ s'
  ]

-- `max_precise_check_bytes`
abbrev pub max_check_bytes : ℕ
max_check_bytes = 64 * 1024

abbrev opens : Text → Bool
opens [] = false
opens (c ∷ s) = eqb c b'{' || eqb c b'['

abbrev closes : Option ℕ → Bool
closes none = false
closes (some c) = eqb c b'}' || eqb c b']'

module _ (cases : CaseMaps) (is_json : Text → Bool) where
  unfoldable pub infer_body : Text → BodySpec
  infer_body raw =
      let trimmed = trim raw in
      if (opens trimmed && closes (last_char trimmed))
        && (leb (utf8_len trimmed) max_check_bytes && is_json trimmed)
      then json raw
      else text raw

  abbrev pub chosen_method : Scan → HttpMethod
  chosen_method s = elim s.explicit [ some m ↦ m | none ↦ if s.has_data then post else get ]

  abbrev pub with_digest : Bool → AuthSpec → AuthSpec
  with_digest true (basic username password) = digest username password
  with_digest _ auth = auth

  -- The fields that are set behind the loop.
  abbrev pub finished : Scan → CurlParsed
  finished s = record (s.out) {
    method = chosen_method s;
    auth = with_digest s.digest_flag s.out.auth;
    body = if s.has_data then some (infer_body (join (codes "&") s.data_parts)) else s.out.body;
  }

  unfoldable pub finish : Scan → Parsed
  finish s = if is_empty s.out.url then err no_url else ok (finished s)

  -- `parse_curl`, on the result of `shell_words::split`.
  unfoldable pub parse_words : Option (List Text) → Parsed
  parse_words none = err bad_quotes
  parse_words (some []) = err no_words
  parse_words (some (w ∷ words)) = finish (loop cases true (w ∷ words) initial)

  unfoldable pub parse_curl : (split_words : Text → Option (List Text)) → Text → Parsed
  parse_curl split_words input = parse_words (split_words input)

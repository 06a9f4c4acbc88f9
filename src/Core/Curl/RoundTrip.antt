-- ===== src/Core/Curl/RoundTrip.antt =====
-- A command written out in words is parsed back to the request that it was written from.
use rust_fox.Prelude.{
  ℕ, ◌≡◌, refl, ap, ◌∙◌, Bool, true, false, List, [], ◌∷◌, ◌++◌, map, Option, none, some, eqb, All,
  list_eq, nat_eq, arith, append_assoc, append-nil,
}
use rust_fox.Prelude.Search.{split_once_sound}
use rust_fox.Prelude.Text.{Text, codes, is_empty, trim, split_once, strip_prefix, join}
use rust_fox.Core.Curl.{
  CurlParsed, Scan, initial, ok, push_header, push_data, set_url, classify, act, match_word, step,
  loop, long_form, next_word, set_method, infer_body, finish, parse_words, position,
}
use rust_fox.Core.External.{CaseMaps}
use rust_fox.Core.Method.{HttpMethod, as_str, from_str-as_str}
use rust_fox.Core.Model.{new_key_value, no_auth, BodySpec}

-- A request as a command: its method, URL, header lines and data.
pub record Command : Type 0 where
  pub method : HttpMethod
  pub url : Text
  pub headers : List (Text × Text)
  pub payload : Option Text

abbrev pub header_words : List (Text × Text) → List Text
header_words [] = []
header_words ((k, v) ∷ hs) = codes "-H" ∷ (k ++ b':' ∷ b' ' ∷ v) ∷ header_words hs

abbrev pub payload_words : Option Text → List Text
payload_words none = []
payload_words (some body) = codes "-d" ∷ body ∷ []

abbrev pub write : Command → List Text
write c =
    codes "curl"
    ∷ codes "-X"
    ∷ as_str c.method
    ∷ c.url
    ∷ (header_words c.headers ++ payload_words c.payload)

-- A header line that reads back as it was written: the name is not blank, has no blanks around it
-- and no colon, and the value has no blanks around it.
pub record IsHeader (h : Text × Text) : Type 0 where
  pub splits : split_once (codes ":") (h.0 ++ b':' ∷ b' ' ∷ h.1) ≡ some (h.0, b' ' ∷ h.1)
  pub name : trim h.0 ≡ h.0
  pub named : is_empty h.0 ≡ false
  pub value : trim (b' ' ∷ h.1) ≡ h.1

abbrev pub with_headers : List (Text × Text) → Scan → Scan
with_headers hs s = record s {
  out = record (s.out) { headers = s.out.headers ++ map (λ h. new_key_value h.0 h.1) hs };
}

abbrev pub with_payload : Option Text → Scan → Scan
with_payload none s = s
with_payload (some body) s = record s { data_parts = s.data_parts ++ body ∷ []; has_data = true }

module _ (cases : CaseMaps) where
  loop-header :
      (v : Text) (words : List Text) (s : Scan)
      → loop cases false (codes "-H" ∷ v ∷ words) s ≡ loop cases false words (push_header v s)
  unfolding loop step match_word classify act split_once strip_prefix
  loop-header v words s = refl

  push_header-IsHeader :
      (h : Text × Text) (s : Scan)
      → IsHeader h
      → push_header (h.0 ++ b':' ∷ b' ' ∷ h.1) s ≡ with_headers (h ∷ []) s
  unfolding push_header
  push_header-IsHeader h s w = rw (w.splits, w.name, w.named, w.value, push_header) refl

  pub loop-headers :
      (hs : List (Text × Text)) (words : List Text) (s : Scan)
      → All IsHeader hs
      → loop cases false (header_words hs ++ words) s ≡ loop cases false words (with_headers hs s)
  loop-headers [] words s w = rw append-nil refl
  loop-headers (h ∷ hs) words s (p, w) =
      loop-header (h.0 ++ b':' ∷ b' ' ∷ h.1) (header_words hs ++ words) s
      ∙ ap (loop cases false (header_words hs ++ words)) (push_header-IsHeader h s p)
      ∙ loop-headers hs words (with_headers (h ∷ []) s) w
      ∙ rw append_assoc refl

  -- A word that does not begin with a dash is a URL, if none is set.
  classify-position : (c : ℕ) (u : Text) → eqb c b'-' ≡ false → classify (c ∷ u) ≡ position
  unfolding classify strip_prefix
  classify-position c u h = ground arith

  long_form-position :
      (c : ℕ) (u : Text) (o : Option (Text × Text)) (value : Option Text) (s : Scan)
      → eqb c b'-' ≡ false
      → split_once (codes "=") (c ∷ u) ≡ o
      → long_form cases o (c ∷ u) value s ≡ match_word cases (c ∷ u) value s
  long_form-position c u none value s h e = refl
  long_form-position c u (some ([], v)) value s h e = unfold strip_prefix in refl
  long_form-position c u (some (x ∷ n, v)) value s h e =
      let same = split_once_sound (codes "=") (c ∷ u) (x ∷ n) v e in
      unfold strip_prefix in ground arith

  step-position :
      (c : ℕ) (u : Text) (value : Option Text) (s : Scan)
      → eqb c b'-' ≡ false
      → step cases false (c ∷ u) value s ≡ next_word (set_url (c ∷ u) s)
  unfolding step match_word act
  step-position c u value s h =
      rw (h, step)
        (long_form-position c u _ value s h refl ∙ rw (classify-position c u h, match_word) refl)

  pub loop-position :
      (c : ℕ) (u : Text) (words : List Text) (s : Scan)
      → eqb c b'-' ≡ false
      → loop cases false ((c ∷ u) ∷ words) s ≡ loop cases false words (set_url (c ∷ u) s)
  unfolding loop
  loop-position c u [] s h = rw (step-position c u none s h, loop) refl
  loop-position c u (v ∷ words) s h = rw (step-position c u (some v) s h, loop) refl

  pub loop-method :
      (m : Text) (words : List Text)
      → loop cases true (codes "curl" ∷ codes "-X" ∷ m ∷ words) initial
        ≡ loop cases false words (set_method cases m initial)
  unfolding loop step match_word classify act split_once strip_prefix
  loop-method m words = refl

  loop-payload :
      (o : Option Text) (s : Scan) → loop cases false (payload_words o) s ≡ with_payload o s
  unfolding loop step match_word classify act split_once strip_prefix push_data
  loop-payload none s = refl
  loop-payload (some body) s = refl

module _ (cases : CaseMaps) (is_json : Text → Bool) where
  abbrev pub body_of : Option Text → Option BodySpec
  body_of none = none
  body_of (some body) = some (infer_body cases is_json body)

  -- The request that the command stands for.
  abbrev pub request : Command → CurlParsed
  request c = record {
    url = c.url;
    method = c.method;
    headers = map (λ h. new_key_value h.0 h.1) c.headers;
    body = body_of c.payload;
    auth = no_auth;
    ignored = [];
  }

  finish-payload :
      (m : HttpMethod) (d : ℕ) (u : Text) (hs : List (Text × Text)) (o : Option Text)
      → finish cases is_json (
          with_payload o (with_headers hs (set_url (d ∷ u) (record initial { explicit = some m }))))
        ≡ ok (request (record { method = m; url = d ∷ u; headers = hs; payload = o }))
  unfolding finish set_url join
  finish-payload m d u hs none = refl
  finish-payload m d u hs (some body) = refl

  -- A command with an explicit method, a URL that does not begin with a dash, well-formed header
  -- lines and at most one data word is accepted, and gives back the method, the URL, the headers
  -- in their order, and the data as the body, with no authentication and nothing ignored.
  pub parse_words-write :
      (m : HttpMethod) (d : ℕ) (u : Text) (hs : List (Text × Text)) (o : Option Text)
      → eqb d b'-' ≡ false
      → cases.to_uppercase (as_str m) ≡ as_str m
      → All IsHeader hs
      → parse_words cases is_json
          (some (write (record { method = m; url = d ∷ u; headers = hs; payload = o })))
        ≡ ok (request (record { method = m; url = d ∷ u; headers = hs; payload = o }))
  unfolding parse_words
  parse_words-write m d u hs o dash upper w =
      ap (finish cases is_json) (
        loop-method cases (as_str m) ((d ∷ u) ∷ (header_words hs ++ payload_words o))
        ∙ loop-position cases d u _ (set_method cases (as_str m) initial) dash
        ∙ loop-headers cases hs (payload_words o) _ w
        ∙ loop-payload cases o _
        ∙ rw (from_str-as_str cases m upper) refl)
      ∙ finish-payload m d u hs o

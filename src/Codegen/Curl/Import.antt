-- ===== src/Codegen/Curl/Import.antt =====
-- A generated command is imported as the request that it was generated from: curl.rs against
-- fox-core/src/curl_parser.rs.
use rust_fox.Prelude.{
  ℕ, ◌≡◌, refl, ap, ◌∙◌, Bool, false, List, [], ◌∷◌, ◌++◌, Option, none, some, map, eqb, All,
  if◌then◌else◌, Bool-cases, inl, inr, list_eq, nat_eq,
}
use rust_fox.Prelude.Text.{Text, codes, join, trim, split_once, strip_prefix}
use rust_fox.Core.Curl.{
  CurlParsed, Scan, initial, ok, push_data, set_url, set_method, classify, act, match_word, step,
  loop, finish, parse_words, parse_curl,
}
use rust_fox.Core.Curl.RoundTrip.{
  IsHeader, with_headers, with_payload, loop-headers, loop-position, loop-method, body_of,
}
use rust_fox.Core.External.{CaseMaps}
use rust_fox.Core.Method.{HttpMethod, as_str, from_str, from_str-as_str}
use rust_fox.Core.Model.{new_key_value, no_auth}
use rust_fox.Codegen.Api.{
  ApiBody, no_body, json, form_data, raw, ApiDefinition, build_url, merged_headers, has_header,
}
use rust_fox.Codegen.Curl.Shell.{split}
use rust_fox.Codegen.Curl.Words.{
  words, header_words, body_words, content_type_words, split-generate,
}
use rust_fox.Codegen.Curl.{generate}

-- A body that the parser reads back; it has no multipart forms.
abbrev pub IsImported : ApiBody → Type 0
IsImported (form_data fields) = ⊥
IsImported _ = Unit

abbrev payload : (pretty_json : Text → Text) → ApiBody → Option Text
payload pretty_json no_body = none
payload pretty_json (json text) = some (pretty_json text)
payload pretty_json (form_data fields) = none
payload pretty_json (raw text) = some text

-- The header that `generate` adds.
abbrev added : ApiBody → List (Text × Text) → List (Text × Text)
added (json text) headers =
    if has_header headers (codes "content-type")
    then []
    else (codes "Content-Type", codes "application/json") ∷ []
added _ headers = []

-- The request that a command stands for.
abbrev pub imported :
    CaseMaps
    → (is_json : Text → Bool) → (encode pretty_json : Text → Text) → ApiDefinition
    → CurlParsed
imported cases is_json encode pretty_json api =
    let headers = merged_headers encode api in
    record {
      url = build_url api.url api.query_params;
      method = api.method;
      headers =
          map (λ h. new_key_value h.0 h.1) headers
          ++ map (λ h. new_key_value h.0 h.1) (added api.body headers);
      body = body_of cases is_json (payload pretty_json api.body);
      auth = no_auth;
      ignored = [];
    }

module _ (cases : CaseMaps) where
  loop-body :
      (pretty : Text → Text) (body : ApiBody) (ws : List Text) (s : Scan)
      → IsImported body
      → loop cases false (body_words pretty body ++ ws) s
        ≡ loop cases false ws (with_payload (payload pretty body) s)
  unfolding loop step match_word classify act split_once strip_prefix push_data
  loop-body pretty no_body ws s h = refl
  loop-body pretty (json text) ws s h = refl
  loop-body pretty (raw text) ws s h = refl
  loop-body pretty (form_data fields) ws s h = elim h [ ]

  content_type-words :
      (body : ApiBody) (hs : List (Text × Text))
      → content_type_words body hs ≡ header_words (added body hs) ++ []
  content_type-words no_body hs = refl
  content_type-words (form_data fields) hs = refl
  content_type-words (raw text) hs = refl
  content_type-words (json text) hs = elim (Bool-cases (has_header hs (codes "content-type"))) [
    | inl set ↦ rw set refl
    | inr unset ↦ rw unset refl
  ]

  added-IsHeader : (body : ApiBody) (hs : List (Text × Text)) → All IsHeader (added body hs)
  unfolding split_once strip_prefix trim
  added-IsHeader no_body hs = tt
  added-IsHeader (form_data fields) hs = tt
  added-IsHeader (raw text) hs = tt
  added-IsHeader (json text) hs = elim (Bool-cases (has_header hs (codes "content-type"))) [
    | inl set ↦ rw set tt
    | inr unset ↦ rw unset (record { splits = refl; name = refl; named = refl; value = refl }, tt)
  ]

  loop-end : (s : Scan) → loop cases false [] s ≡ s
  unfolding loop
  loop-end s = refl

  module _ (is_json : Text → Bool) where
    finish-body :
        (m : HttpMethod) (d : ℕ) (u : Text) (hs cs : List (Text × Text)) (o : Option Text)
        → finish cases is_json (
            with_headers cs (
              with_payload o
                (with_headers hs (set_url (d ∷ u) (record initial { explicit = some m })))))
          ≡ ok (record {
            url = d ∷ u;
            method = m;
            headers = map (λ h. new_key_value h.0 h.1) hs ++ map (λ h. new_key_value h.0 h.1) cs;
            body = body_of cases is_json o;
            auth = no_auth;
            ignored = [];
          })
    unfolding finish set_url join
    finish-body m d u hs cs none = refl
    finish-body m d u hs cs (some body) = refl

    parse_words-words :
        (encode pretty : Text → Text) (api : ApiDefinition) (d : ℕ) (u : Text)
        → build_url api.url api.query_params ≡ d ∷ u
        → eqb d b'-' ≡ false
        → cases.to_uppercase (as_str api.method) ≡ as_str api.method
        → All IsHeader (merged_headers encode api)
        → IsImported api.body
        → parse_words cases is_json (some (words encode pretty api))
          ≡ ok (imported cases is_json encode pretty api)
    unfolding parse_words
    parse_words-words encode pretty api d u e dash upper w b =
        let hs = merged_headers encode api in
        let ct = added api.body hs in
        let o = payload pretty api.body in
        let scan : Option HttpMethod → Scan = λ m.
          with_headers ct (
            with_payload o (with_headers hs (set_url (d ∷ u) (record initial { explicit = m })))) in
        rw e (
          ap (finish cases is_json) (
            loop-method cases (as_str api.method) _
            ∙ loop-position cases d u _ (set_method cases (as_str api.method) initial) dash
            ∙ loop-headers cases hs _ _ w
            ∙ loop-body pretty api.body (content_type_words api.body hs) _ b
            ∙ ap
                (λ ws. loop cases false ws (
                  with_payload o (
                    with_headers hs
                      (set_url (d ∷ u) (set_method cases (as_str api.method) initial)))))
                (content_type-words api.body hs)
            ∙ loop-headers cases ct [] _ (added-IsHeader api.body hs)
            ∙ loop-end (scan (from_str cases (as_str api.method)))
            ∙ ap scan (from_str-as_str cases api.method upper))
          ∙ finish-body api.method d u hs ct o)

    -- Importing the command of a request gives back the method, the URL with its query and the merged
    -- headers, which hold the authentication, with the content type that a JSON body gets; no
    -- authentication of its own; and the body that `infer_body` makes of the body's text, JSON being
    -- printed first, so that its kind is inferred again; nothing is ignored. The conditions are that the URL is not empty and does not
    -- begin with a dash, that each header line reads back, that the body is no multipart form, and
    -- that words are split as a shell does it.
    pub parse_curl-generate :
        (split_words : Text → Option (List Text))
        → ((line : Text) (ws : List Text) → split line ≡ some ws → split_words line ≡ some ws)
        → (encode pretty : Text → Text) (api : ApiDefinition) (d : ℕ) (u : Text)
        → build_url api.url api.query_params ≡ d ∷ u
        → eqb d b'-' ≡ false
        → cases.to_uppercase (as_str api.method) ≡ as_str api.method
        → All IsHeader (merged_headers encode api)
        → IsImported api.body
        → parse_curl cases is_json split_words (generate encode pretty api)
          ≡ ok (imported cases is_json encode pretty api)
    unfolding parse_curl
    parse_curl-generate split_words splits encode pretty api d u e dash upper w b =
        ap (parse_words cases is_json) (
          splits (generate encode pretty api) (words encode pretty api)
            (split-generate encode pretty api))
        ∙ parse_words-words encode pretty api d u e dash upper w b

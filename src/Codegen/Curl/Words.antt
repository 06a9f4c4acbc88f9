-- ===== src/Codegen/Curl/Words.antt =====
-- What a shell makes of the generated command.
use rust_fox.Prelude.{
  ◌≡◌, refl, sym, ap, ◌∙◌, List, [], ◌∷◌, ◌++◌, Option, some, if◌then◌else◌, Bool-cases, inl, inr,
  append_assoc, append-nil, arith,
}
use rust_fox.Prelude.Text.{Text, codes}
use rust_fox.Core.Method.{HttpMethod, get, post, put, delete, patch, head, options, grpc, as_str}
use rust_fox.Codegen.Api.{
  KeyValuePair, ApiBody, no_body, json, form_data, raw, ApiDefinition, build_url, merged_headers,
  has_header,
}
use rust_fox.Codegen.Curl.Shell.{in_word, quoted, push_word, shell_words, shell_words-sq, split}
use rust_fox.Codegen.Curl.{line, header_lines, field_lines, body_lines, content_type_line, generate}
use rust_fox.Codegen.Escape.{sq}

abbrev pub header_words : List (Text × Text) → List Text
header_words [] = []
header_words ((key, value) ∷ headers) =
    codes "-H" ∷ (key ++ (codes ": " ++ value)) ∷ header_words headers

abbrev pub field_words : List KeyValuePair → List Text
field_words [] = []
field_words (field ∷ fields) = codes "-F" ∷ (field.key ++ b'=' ∷ field.value) ∷ field_words fields

abbrev pub body_words : (pretty_json : Text → Text) → ApiBody → List Text
body_words pretty_json no_body = []
body_words pretty_json (json text) = codes "--data" ∷ pretty_json text ∷ []
body_words pretty_json (form_data fields) = field_words fields
body_words pretty_json (raw text) = codes "--data-raw" ∷ text ∷ []

abbrev pub content_type_words : ApiBody → List (Text × Text) → List Text
content_type_words (json text) headers =
    if has_header headers (codes "content-type")
    then []
    else codes "-H" ∷ codes "Content-Type: application/json" ∷ []
content_type_words _ headers = []

-- The words that the command means.
abbrev pub words : (encode pretty_json : Text → Text) → ApiDefinition → List Text
words encode pretty_json api =
    let headers = merged_headers encode api in
    codes "curl"
    ∷ codes "-X"
    ∷ as_str api.method
    ∷ build_url api.url api.query_params
    ∷ (header_words headers
        ++ (body_words pretty_json api.body ++ content_type_words api.body headers))

sq-append : (a b : Text) → sq (a ++ b) ≡ sq a ++ sq b
unfolding sq
sq-append [] b = refl
sq-append (c ∷ a) b = ground (arith, sq-append a b)

-- The words behind `word`, of which the last goes on with the rest of the line.
abbrev after : (word : Text) → List Text → (rest : Text) → Option (List Text)
after word [] rest = shell_words in_word word rest
after word (w ∷ ws) rest = push_word word (after w ws rest)

after-end : (word : Text) (ws : List Text) → after word ws [] ≡ some (word ∷ ws)
after-end word [] = unfold shell_words in refl
after-end word (w ∷ ws) = ap (push_word word) (after-end w ws)

-- Behind a word, the text is read as more words.
abbrev Reads : Text → List Text → Type 0
Reads s ws = (word rest : Text) → shell_words in_word word (s ++ rest) ≡ after word ws rest

after-Reads :
    (s : Text) (ws vs : List Text) (word rest : Text)
    → Reads s ws
    → after word vs (s ++ rest) ≡ after word (vs ++ ws) rest
after-Reads s ws [] word rest r = r word rest
after-Reads s ws (v ∷ vs) word rest r = ap (push_word word) (after-Reads s ws vs v rest r)

Reads-nil : Reads [] []
Reads-nil word rest = refl

Reads-append :
    (s t : Text) (ws vs : List Text) → Reads s ws → Reads t vs → Reads (s ++ t) (ws ++ vs)
Reads-append s t ws vs r q word rest =
    ap (shell_words in_word word) (append_assoc s t rest)
    ∙ r word (t ++ rest)
    ∙ after-Reads t vs ws word rest q

-- An option is read as a word that a quoted one follows.
abbrev IsOption : Text → Type 0
IsOption option =
    (word t : Text)
    → shell_words in_word word (codes " \\\n     " ++ (option ++ (codes " '" ++ t)))
      ≡ push_word word (push_word option (shell_words quoted [] t))

Reads-line :
    (option argument : Text)
    → IsOption option
    → Reads (line option (sq argument)) (option ∷ argument ∷ [])
Reads-line option argument h word rest =
    ap (shell_words in_word word)
      (regroup (codes " \\\n     ") option (codes " '") (sq argument) rest)
    ∙ h word (sq argument ++ b'\'' ∷ rest)
    ∙ ap (λ o. push_word word (push_word option o)) (shell_words-sq argument [] rest)
  where
    regroup :
        (a b c d e : Text)
        → (a ++ (b ++ (c ++ (d ++ codes "'")))) ++ e ≡ a ++ (b ++ (c ++ (d ++ b'\'' ∷ e)))
    regroup a b c d e = rw (append_assoc, append_assoc, append_assoc, append_assoc) refl

header-IsOption : IsOption (codes "-H")
header-IsOption word t = unfold shell_words in refl

field-IsOption : IsOption (codes "-F")
field-IsOption word t = unfold shell_words in refl

data-IsOption : IsOption (codes "--data")
data-IsOption word t = unfold shell_words in refl

raw-IsOption : IsOption (codes "--data-raw")
raw-IsOption word t = unfold shell_words in refl

colon_escaped :
    (key value : Text) → sq key ++ (codes ": " ++ sq value) ≡ sq (key ++ (codes ": " ++ value))
colon_escaped key value = sym (sq-append key (codes ": " ++ value) ∙ unfold sq in refl)

equals_escaped : (key value : Text) → sq key ++ b'=' ∷ sq value ≡ sq (key ++ b'=' ∷ value)
equals_escaped key value = sym (sq-append key (b'=' ∷ value) ∙ unfold sq in refl)

Reads-header_lines : (hs : List (Text × Text)) → Reads (header_lines hs) (header_words hs)
unfolding header_lines
Reads-header_lines [] = Reads-nil
Reads-header_lines ((key, value) ∷ hs) = rw colon_escaped (
    Reads-append (line (codes "-H") (sq (key ++ (codes ": " ++ value)))) (header_lines hs)
      (codes "-H" ∷ (key ++ (codes ": " ++ value)) ∷ []) (header_words hs)
      (Reads-line (codes "-H") (key ++ (codes ": " ++ value)) header-IsOption)
      (Reads-header_lines hs))

Reads-field_lines : (fs : List KeyValuePair) → Reads (field_lines fs) (field_words fs)
unfolding field_lines
Reads-field_lines [] = Reads-nil
Reads-field_lines (f ∷ fs) = rw equals_escaped (
    Reads-append (line (codes "-F") (sq (f.key ++ b'=' ∷ f.value))) (field_lines fs)
      (codes "-F" ∷ (f.key ++ b'=' ∷ f.value) ∷ []) (field_words fs)
      (Reads-line (codes "-F") (f.key ++ b'=' ∷ f.value) field-IsOption) (Reads-field_lines fs))

Reads-body_lines :
    (pretty : Text → Text) (body : ApiBody)
    → Reads (body_lines pretty body) (body_words pretty body)
unfolding body_lines
Reads-body_lines pretty no_body = Reads-nil
Reads-body_lines pretty (json text) = Reads-line (codes "--data") (pretty text) data-IsOption
Reads-body_lines pretty (form_data fields) = Reads-field_lines fields
Reads-body_lines pretty (raw text) = Reads-line (codes "--data-raw") text raw-IsOption

Reads-content_type :
    (body : ApiBody) (hs : List (Text × Text))
    → Reads (content_type_line body hs) (content_type_words body hs)
unfolding content_type_line
Reads-content_type no_body hs = Reads-nil
Reads-content_type (form_data fields) hs = Reads-nil
Reads-content_type (raw text) hs = Reads-nil
Reads-content_type (json text) hs = elim (Bool-cases (has_header hs (codes "content-type"))) [
  | inl set ↦ rw set Reads-nil
  | inr unset ↦ rw unset (λ word rest. unfold shell_words in refl)
]

-- The command's beginning, for a method and a text that are given.
split_front :
    (m : HttpMethod) (t : Text)
    → split (codes "curl -X " ++ (as_str m ++ (codes " '" ++ t)))
      ≡ push_word
          (codes "curl")
          (push_word (codes "-X") (push_word (as_str m) (shell_words quoted [] t)))
unfolding shell_words as_str
split_front get t = refl
split_front post t = refl
split_front put t = refl
split_front delete t = refl
split_front patch t = refl
split_front head t = refl
split_front options t = refl
split_front grpc t = refl

-- A shell reads the generated command as the words that it means: the method, the URL with its
-- query, each merged header, the body and, for a JSON body without one, the content type, whatever
-- characters these hold.
pub split-generate :
    (encode pretty_json : Text → Text) (api : ApiDefinition)
    → split (generate encode pretty_json api) ≡ some (words encode pretty_json api)
unfolding generate
split-generate encode pretty_json api =
    let url = build_url api.url api.query_params in
    let headers = merged_headers encode api in
    let tail =
      header_lines headers
      ++ (body_lines pretty_json api.body ++ content_type_line api.body headers) in
    let tail_words =
      header_words headers
      ++ (body_words pretty_json api.body ++ content_type_words api.body headers) in
    split_front api.method (sq url ++ (codes "'" ++ tail))
    ∙ ap (λ o. push_word (codes "curl") (push_word (codes "-X") (push_word (as_str api.method) o)))
        (shell_words-sq url [] tail
          ∙ ap (shell_words in_word url) (sym (append-nil tail))
          ∙ Reads-append (header_lines headers) _ (header_words headers) _
              (Reads-header_lines headers)
              (Reads-append (body_lines pretty_json api.body) (content_type_line api.body headers)
                (body_words pretty_json api.body) (content_type_words api.body headers)
                (Reads-body_lines pretty_json api.body) (Reads-content_type api.body headers))
              url []
          ∙ after-end url tail_words)

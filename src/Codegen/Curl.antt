-- ===== src/Codegen/Curl.antt =====
-- fox-codegen/src/generators/curl.rs: a request as a cURL command.
pub mod Shell
pub mod Words
pub mod Import
use rust_fox.Prelude.{ℕ, Bool, true, false, not, List, [], ◌∷◌, ◌++◌, if◌then◌else◌}
use rust_fox.Prelude.Text.{Text, codes}
use rust_fox.Core.Method.{as_str}
use rust_fox.Codegen.Api.{
  KeyValuePair, ApiBody, no_body, json, form_data, raw, ApiDefinition, build_url, merged_headers,
  has_header,
}
use rust_fox.Codegen.Escape.{sq}

-- `" \\\n     {option} '{argument}'"`, with an argument that is escaped.
abbrev pub line : (option argument : Text) → Text
line option argument = codes " \\\n     " ++ (option ++ (codes " '" ++ (argument ++ codes "'")))

-- The loop over the headers.
unfoldable pub header_lines : List (Text × Text) → Text
unfolding sq
header_lines [] = []
header_lines ((key, value) ∷ headers) =
    line (codes "-H") (sq key ++ (codes ": " ++ sq value)) ++ header_lines headers

unfoldable pub field_lines : List KeyValuePair → Text
unfolding sq
field_lines [] = []
field_lines (field ∷ fields) =
    line (codes "-F") (sq field.key ++ b'=' ∷ sq field.value) ++ field_lines fields

-- `util::pretty_json`, whose formatting is serde_json's.
module _ (pretty_json : Text → Text) where
  unfoldable pub body_lines : ApiBody → Text
  unfolding sq field_lines
  body_lines no_body = []
  body_lines (json text) = line (codes "--data") (sq (pretty_json text))
  body_lines (form_data fields) = field_lines fields
  body_lines (raw text) = line (codes "--data-raw") (sq text)

-- The header that a JSON body gets if no header of that name is set.
unfoldable pub content_type_line : ApiBody → List (Text × Text) → Text
unfolding has_header
content_type_line (json text) headers =
    if has_header headers (codes "content-type")
    then []
    else line (codes "-H") (codes "Content-Type: application/json")
content_type_line _ headers = []

-- `generate`, with base64 and the formatting of JSON.
unfoldable pub generate : (encode pretty_json : Text → Text) → ApiDefinition → Text
unfolding merged_headers build_url header_lines body_lines content_type_line as_str sq
generate encode pretty_json api =
    let headers = merged_headers encode api in
    codes "curl -X "
    ++ (as_str api.method
        ++ (codes " '"
            ++ (sq (build_url api.url api.query_params)
                ++ (codes "'"
                    ++ (header_lines headers
                        ++ (body_lines pretty_json api.body
                            ++ content_type_line api.body headers))))))

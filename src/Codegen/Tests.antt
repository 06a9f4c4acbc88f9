-- ===== src/Codegen/Tests.antt =====
-- Runs of the code generation on concrete samples.
use rust_fox.Prelude.{
  ℕ, ◌+◌, ◌-◌, ◌≡◌, refl, [], ◌∷◌, none, some, map, list_eq, nat_eq, if◌then◌else◌, All,
}
use rust_fox.Prelude.Int.{pos}
use rust_fox.Prelude.Text.{codes, in_range, show}
use rust_fox.Core.Json.{
  Json, null, integer, float, string, array, object, Items, nil, cons, none_left, member,
}
use rust_fox.Prelude.{true}
use rust_fox.Prelude.Fallible.{returns}
use rust_fox.Prelude.Text.{Text, trim, split_once, strip_prefix}
use rust_fox.Core.Curl.{parse_curl, ok}
use rust_fox.Core.Curl.RoundTrip.{IsHeader}
use rust_fox.Core.Method.{post, as_str}
use rust_fox.Core.Samples.{ascii}
use rust_fox.Codegen.Api
use rust_fox.Codegen.Api.{ApiDefinition, json, bearer, auth_headers, merged_headers}
use rust_fox.Codegen.Api.Headers.{IsMerged, merged_headers-IsMerged}
use rust_fox.Codegen.Curl.{generate}
use rust_fox.Codegen.Curl.Import.{imported, parse_curl-generate}
use rust_fox.Codegen.Curl.Shell.{split}
use rust_fox.Codegen.Curl.Words.{words, split-generate}
use rust_fox.Codegen.Emit.{
  rust, emitted, emit_rust, json_to_structs, rust_field, java_field, go_field, go_tag,
  rust_field_name, java_field_name, trim_raw,
}
use rust_fox.Codegen.Emit.Wire.{IsWired, rust_line, java_line, field-IsWired}
use rust_fox.Codegen.Escape.{encode_component}
use rust_fox.Codegen.Naming.{
  Chars, to_snake_case, to_camel_case, to_pascal_case, rust_field_ident, java_field_ident,
  go_field_ident,
}
use rust_fox.Codegen.Types.{
  FieldType, str, int, float_type, unknown, array_of, record_of, end, field, RecordDef, infer_value,
  infer_items, infer_root, same_fields,
}
use rust_fox.Codegen.Types.Fits.{Fits}
use rust_fox.Codegen.Types.Sound.{IsUniform, infer_value-sound}
use rust_fox.Codegen.Registry.{NameRegistry, fresh_name, resolve_model}
use rust_fox.Codegen.Registry.Declared.{resolve_model-IsDeclared}
use rust_fox.Codegen.Registry.Names.{AreDistinct, FieldsReferTo, labels}

abbrev lower : ℕ → ℕ
lower c = if in_range b'A' b'Z' c then c + 32 else c

abbrev upper : ℕ → ℕ
upper c = if in_range b'a' b'z' c then c - 32 else c

abbrev ascii_chars : Chars
ascii_chars = record {
  is_lowercase = in_range b'a' b'z';
  is_uppercase = in_range b'A' b'Z';
  is_alphabetic = λ c. in_range b'a' b'z' (lower c);
  is_numeric = in_range b'0' b'9';
  to_lowercase = map lower;
  to_uppercase = λ c. upper c ∷ [];
}

snake_words :
    to_snake_case ascii_chars (codes "HTTPServer-v2.userID") ≡ codes "http_server_v_2_user_id"
unfolding to_snake_case
snake_words = refl

camel_words : to_camel_case ascii_chars (codes "user_name") ≡ codes "userName"
unfolding to_camel_case
camel_words = refl

pascal_words : to_pascal_case ascii_chars (codes "order-items") ≡ codes "OrderItems"
unfolding to_pascal_case
pascal_words = refl

idents :
    (rust_field_ident (codes "type") ≡ codes "r#type")
    × (java_field_ident (codes "class") ≡ codes "_class")
    × (go_field_ident (codes "2nd") ≡ codes "N2nd")
unfolding rust_field_ident java_field_ident go_field_ident
idents = (refl, refl, refl)

-- `{"id": 1, "tags": ["a", null], "pos": {"x": [1, 2.5]}}`, with one floating-point number.
abbrev sample : Json Unit
sample = object (
    member (codes "id") (integer (pos 1)) (
      member (codes "tags") (array (cons (string (codes "a")) (cons null nil))) (
        member (codes "pos")
          (object
            (member (codes "x") (array (cons (integer (pos 1)) (cons (float tt) nil))) none_left))
          none_left)))

abbrev sample_type : FieldType
sample_type = record_of (codes "Root") (
    field (codes "id") int (
      field (codes "tags") (array_of str) (
        field (codes "pos") (record_of (codes "Pos") (field (codes "x") (array_of float_type) end))
          end)))

inferred : infer_root ascii_chars sample (codes "root") ≡ some sample_type
unfolding infer_root
inferred = refl

sample-IsUniform : IsUniform ascii_chars (codes "root") sample
unfolding infer_value
sample-IsUniform = (tt, ((tt, tt, (tt, tt, tt)), (((tt, tt, (tt, tt, tt)), tt), tt)))

infer_value-sound_example : Fits sample (infer_value ascii_chars (codes "root") sample)
infer_value-sound_example = infer_value-sound ascii_chars (codes "root") sample sample-IsUniform

abbrev conflict : Items Unit
conflict = cons (integer (pos 1)) (cons (string (codes "a")) nil)

abbrev two : Json Unit
two = integer (pos 2)

conflict_forgotten : infer_items ascii_chars (codes "xs") conflict none ≡ some unknown
unfolding infer_items
conflict_forgotten = refl

abbrev crowded : NameRegistry
crowded = record {
  records = [];
  names = codes "Item" ∷ codes "RootItem" ∷ codes "Item2" ∷ [];
  completed = [];
}

numbered_name : fresh_name crowded (codes "Root" ∷ []) (codes "Item") ≡ codes "Item3"
unfolding fresh_name show
numbered_name = refl

-- Two records of one preferred name and different fields.
abbrev twins : RecordDef
twins = record {
  preferred = codes "Root";
  fields =
      field (codes "a") (record_of (codes "Item") (field (codes "x") int end))
        (field (codes "b") (array_of (record_of (codes "Item") (field (codes "y") str end))) end);
}

twins_named : labels (resolve_model twins) ≡ codes "Root" ∷ codes "Item" ∷ codes "RootItem" ∷ []
unfolding resolve_model same_fields
twins_named = refl

resolve_model-IsDeclared_example :
    AreDistinct (labels (resolve_model twins))
    × All (λ r. FieldsReferTo (labels (resolve_model twins)) r.fields) (resolve_model twins)
resolve_model-IsDeclared_example = resolve_model-IsDeclared twins

rust_declared :
    json_to_structs ascii_chars {F = Unit} (λ s. some sample) (codes "t") (codes " root ") rust
    ≡ returns (
        emitted (
          emit_rust ascii_chars (
            resolve_model (record {
              preferred = codes "Root";
              fields = field (codes "id") int (
                  field (codes "tags") (array_of str) (
                    field
                      (codes "pos")
                      (record_of (codes "Pos") (field (codes "x") (array_of float_type) end))
                      end));
            }))))
unfolding json_to_structs
rust_declared = refl

declared_field :
    (rust_field ascii_chars (codes "type") str ≡ codes "    pub r#type: String,\n")
    × (java_field ascii_chars (codes "user_id") int
        ≡ codes "    @JsonProperty(\"user_id\")\n    private Long userId;\n")
    × (go_field ascii_chars (codes "user_id") (array_of int)
        ≡ codes "    UserId []int64 `json:\"user_id\"`\n")
unfolding rust_field java_field go_field
declared_field = (refl, refl, refl)

-- A key with a double quote: the tag ends at it.
go_tag_quote : go_tag (codes "a\"b") ≡ codes "`json:\"a\"b\"`"
unfolding go_tag
go_tag_quote = refl

-- Two keys with one field name.
same_ident :
    (rust_field_name ascii_chars (codes "user_id")).0
    ≡ (rust_field_name ascii_chars (codes "userId")).0
unfolding rust_field_name
same_ident = refl

field-IsWired_example :
    IsWired
      (codes "    #[serde(rename = \"")
      (codes ")]\n")
      (rust_line ascii_chars (codes "a b") int)
      (trim_raw (rust_field_name ascii_chars (codes "a b")).0)
      (codes "a b")
      (rust_field ascii_chars (codes "a b") int)
    × IsWired
        (codes "    @JsonProperty(\"")
        (codes ")\n")
        (java_line ascii_chars (codes "a b") int)
        (java_field_name ascii_chars (codes "a b")).0
        (codes "a b")
        (java_field ascii_chars (codes "a b") int)
field-IsWired_example = field-IsWired ascii_chars (codes "a b") int

abbrev api : ApiDefinition
api = record {
  url = codes "https://a.b/c";
  method = post;
  headers = (codes "X-Q", codes "it's") ∷ (codes "authorization", codes "own") ∷ [];
  query_params = (codes "q", codes "1 2") ∷ [];
  body = json (codes "{}");
  auth = bearer (codes "tok");
}

abbrev as_is : Text → Text
as_is s = s

command :
    generate as_is as_is api
    ≡ codes
        "curl -X POST 'https://a.b/c?q=1%202' \\\n     -H 'Authorization: own' \\\n     -H 'X-Q: it'\\''s' \\\n     --data '{}' \\\n     -H 'Content-Type: application/json'"
unfolding generate split_once strip_prefix encode_component
command = refl

merged_headers-IsMerged_example :
    IsMerged (auth_headers as_is (bearer (codes "tok"))) api.headers (merged_headers as_is api)
merged_headers-IsMerged_example = merged_headers-IsMerged as_is api

split-generate_example : split (generate as_is as_is api) ≡ some (words as_is as_is api)
split-generate_example = split-generate as_is as_is api

url_built : Api.build_url api.url api.query_params ≡ b'h' ∷ codes "ttps://a.b/c?q=1%202"
unfolding Api.build_url encode_component split_once strip_prefix
url_built = refl

headers-IsHeader : All IsHeader (merged_headers as_is api)
unfolding merged_headers split_once strip_prefix trim
headers-IsHeader = (
  record { splits = refl; name = refl; named = refl; value = refl },
  (record { splits = refl; name = refl; named = refl; value = refl }, tt),
)

parse_curl-generate_example :
    parse_curl ascii (λ s. true) split (generate as_is as_is api)
    ≡ ok (imported ascii (λ s. true) as_is as_is api)
unfolding as_str
parse_curl-generate_example =
    parse_curl-generate ascii (λ s. true) split (λ line ws e. e) as_is as_is api b'h'
      (codes "ttps://a.b/c?q=1%202") url_built refl refl headers-IsHeader tt

-- ===== src/Core/Tests.antt =====
-- Runs of the code of fox-core on concrete inputs.
use rust_fox.Prelude.{
  ◌≡◌, ◌≢◌, refl, ap, true, false, List, [], ◌∷◌, some, length, list_eq, nat_eq, arith,
}
use rust_fox.Prelude.Dict.{Dict}
use rust_fox.Prelude.Text.{Text, codes, split_once, strip_prefix, strip_suffix, trim}
use rust_fox.Core.Curl.Outcome.{IsAccepted, parse_words-IsAccepted}
use rust_fox.Core.Curl.RoundTrip.{Command, write, request, parse_words-write}
use rust_fox.Core.Curl.{
  ok, CurlParsed, parse_words, loop, initial, finished, finish, step, match_word, classify, act,
  set_url, set_user, push_data,
}
use rust_fox.Core.Method.{patch, as_str}
use rust_fox.Core.Samples.{no_luck, ascii, new_world}
use rust_fox.Core.Url.{build_url}
use rust_fox.Core.Variable.BuiltIn.{Replaces, substitute-Replaces}
use rust_fox.Core.Variable.Substitute.{resolve_into-write, resolve_variables_with-identity, fill}
use rust_fox.Core.Variable.Total.{Ends, resolve_into-Ends}
use rust_fox.Core.Variable.{VariableMap, resolve_into, substitute}
use rust_fox.Core.Variable.Substitute

abbrev hosts : VariableMap
hosts = (codes "host", codes "api.{{zone}}") ∷ (codes "zone", codes "test") ∷ []

abbrev pieces : List (Text × Text)
pieces = (codes "https://", codes " host ") ∷ (codes "/users/", codes "$seq") ∷ []

resolve_into-write_example :
    resolve_into no_luck hosts true 10 (Substitute.write pieces (codes "?page=1")) new_world
    ≡ fill no_luck hosts true (resolve_into no_luck hosts true 9) pieces (codes "?page=1") new_world
unfolding split_once strip_prefix
resolve_into-write_example =
    resolve_into-write no_luck hosts true 9 pieces (codes "?page=1") new_world
      ((refl, refl), ((refl, refl), tt)) refl

substitute-Replaces_example :
    Replaces no_luck hosts
      (resolve_into no_luck hosts true 9)
      (codes "host")
      new_world
      true
      (substitute no_luck hosts true (resolve_into no_luck hosts true 9) (codes "host") new_world)
substitute-Replaces_example =
    substitute-Replaces no_luck hosts true (resolve_into no_luck hosts true 9) (codes "host")
      new_world

resolve_into-Ends_example : Ends (resolve_into no_luck hosts true 10)
resolve_into-Ends_example = resolve_into-Ends no_luck hosts true 10

abbrev staging : VariableMap
staging = (codes "zone", codes "staging") ∷ []

order≢user : codes "order" ≢ codes "user"
order≢user e = absurd (omega (arith, ap length e))

abbrev headers : List (Text × Text)
headers = (codes "Accept", codes "text/html") ∷ []

abbrev patching : Command
patching = record {
  method = patch;
  url = b'h' ∷ codes "ttp://a/b";
  headers = headers;
  payload = some (codes "x=1");
}

parse_words-write_example :
    parse_words ascii (λ s. false) (some (write patching))
    ≡ ok (request ascii (λ s. false) patching)
unfolding as_str split_once strip_prefix trim
parse_words-write_example =
    parse_words-write ascii (λ s. false) patch b'h' (codes "ttp://a/b") headers (some (codes "x=1"))
      refl refl (record { splits = refl; name = refl; named = refl; value = refl }, tt)

abbrev words : List Text
words = codes "-u" ∷ codes "ann:secret" ∷ codes "http://a/b" ∷ []

abbrev accepted : CurlParsed
accepted = finished ascii (λ s. false) (loop ascii true words initial)

parse_words-IsAccepted_example :
    IsAccepted ascii (λ s. false) (loop ascii true words initial) accepted
unfolding parse_words finish loop step match_word classify act split_once strip_prefix strip_suffix
    set_url set_user push_data
parse_words-IsAccepted_example =
    parse_words-IsAccepted ascii (λ s. false) (codes "-u")
      (codes "ann:secret" ∷ codes "http://a/b" ∷ []) refl

abbrev ids : Dict Text Text
ids = (codes "id", codes "10") ∷ []

build_url-double_braces :
    build_url (some (codes "https://api.example.com/")) (codes "/users/{{id}}/{id}") ids
    ≡ codes "https://api.example.com/users/10/10"
unfolding build_url strip_prefix
build_url-double_braces = refl

-- ===== src/Core/Curl/Options.antt =====
-- The option tables of the cURL parser.
use rust_fox.Prelude.{ℕ, Bool, ◌||◌, List, [], ◌∷◌, any, ◌==◌, list_eq, nat_eq}
use rust_fox.Prelude.Text.{Text, codes}

abbrev pub member : Text → List Text → Bool
member w ws = any (λ v. v == w) ws

unfoldable pub is_value_option : Text → Bool
is_value_option name =
    name == codes "--url"
    || name == codes "--request"
    || name == codes "--header"
    || name == codes "--user"
    || name == codes "--data"
    || name == codes "--data-raw"
    || name == codes "--data-binary"
    || name == codes "--data-urlencode"

-- Long options whose next word is a value, and no URL.
abbrev pub value_long_options : List Text
value_long_options =
    codes "--user-agent"
    ∷ codes "--cookie"
    ∷ codes "--referer"
    ∷ codes "--output"
    ∷ codes "--write-out"
    ∷ codes "--proxy"
    ∷ codes "--cookie-jar"
    ∷ codes "--cert"
    ∷ codes "--form"
    ∷ codes "--config"
    ∷ codes "--max-time"
    ∷ codes "--max-redirs"
    ∷ codes "--connect-timeout"
    ∷ codes "--limit-rate"
    ∷ codes "--range"
    ∷ codes "--upload-file"
    ∷ codes "--resolve"
    ∷ codes "--retry"
    ∷ codes "--retry-delay"
    ∷ codes "--interface"
    ∷ codes "--cacert"
    ∷ codes "--capath"
    ∷ codes "--key"
    ∷ codes "--proto"
    ∷ codes "--proto-redir"
    ∷ []

-- The characters of short options that take a value.
abbrev pub value_short_opts : List ℕ
value_short_opts = codes "AbcdeEFHKmoPrTUuwxXtz"

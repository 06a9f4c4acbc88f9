-- ===== src/Codegen/Escape/Literals.antt =====
-- A text put into a double-quoted literal is read back from it.
use rust_fox.Prelude.{
  ℕ, ◌≡◌, refl, ap, ◌∙◌, Bool, true, false, ◌||◌, [], ◌∷◌, ◌++◌, Option, none, some, eqb,
  if◌then◌else◌, arith, append_assoc,
}
use rust_fox.Prelude.Text.{Text}
use rust_fox.Codegen.Escape.{escape, dq}

abbrev pub unescape : ℕ → ℕ
unescape c = if eqb c b'n' then 10 else if eqb c b'r' then 13 else if eqb c b't' then 9 else c

abbrev pub push_char : ℕ → Option (Text × Text) → Option (Text × Text)
push_char c none = none
push_char c (some (s, rest)) = some (c ∷ s, rest)

-- Behind the opening quote: the text of the literal, and what stands behind the closing quote. A
-- line break in the literal is an error.
unfoldable pub read_literal : (escaped : Bool) → Text → Option (Text × Text)
read_literal escaped [] = none
read_literal true (c ∷ s) = push_char (unescape c) (read_literal false s)
read_literal false (c ∷ s) =
    let behind = read_literal true s in
    let further = read_literal false s in
    if eqb c b'"'
    then some ([], s)
    else if eqb c b'\\'
    then behind
    else if eqb c 10 || eqb c 13
    then none
    else push_char c further

read_literal-escape :
    (c : ℕ) (s : Text) → read_literal false (escape c ++ s) ≡ push_char c (read_literal false s)
unfolding read_literal escape
read_literal-escape c s = ground arith

-- Whatever the text is, what stands in a double-quoted literal for it has no line break, is read
-- back as the text, and ends at the literal's own closing quote.
pub read_literal-dq : (s rest : Text) → read_literal false (dq s ++ b'"' ∷ rest) ≡ some (s, rest)
unfolding dq
read_literal-dq [] rest = unfold read_literal in refl
read_literal-dq (c ∷ s) rest =
    rw append_assoc
      (read_literal-escape c (dq s ++ b'"' ∷ rest) ∙ ap (push_char c) (read_literal-dq s rest))

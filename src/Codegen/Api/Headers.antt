-- ===== src/Codegen/Api/Headers.antt =====
-- The merged headers: sorted, distinct but for case, and with the explicit value where there is one.
use rust_fox.Prelude.{
  ◌≡◌, refl, sym, ap, ◌∙◌, Bool, true, false, ◌&&◌, ◌||◌, List, [], ◌∷◌, Option, none, some, map,
  any, if◌then◌else◌, ◌==◌, list_eq, nat_eq, beq_refl, beq_sym, list_beq_iff, Bool-cases,
  Option-cases, inl, inr, arith,
}
use rust_fox.Prelude.Compare.{text_le, text_le-IsOrder, on, on-IsOrder}
use rust_fox.Prelude.Dict.{or_else}
use rust_fox.Prelude.Sort.{sort_by, insert_sorted, IsSorted, sort_by-IsSorted}
use rust_fox.Prelude.Text.{Text, ascii_lower, eq_ignore_ascii_case}
use rust_fox.Codegen.Api.{
  ApiDefinition, AuthInfo, bearer, basic, api_key, no_auth, auth_headers, merge_header, merge_all,
  merged_headers, has_header,
}

abbrev Header : Type 0
Header = Text × Text

-- The name ignoring case.
abbrev folded : Text → Text
folded = map ascii_lower

-- No header has the name of a later one.
abbrev pub AreApart : List (Text × Text) → Type 0
AreApart [] = Unit
AreApart ((k, v) ∷ headers) = (has_header headers k ≡ false) × AreApart headers

-- The last value of the name.
abbrev pub last_value : (name : Text) → List (Text × Text) → Option Text
last_value name [] = none
last_value name ((k, v) ∷ headers) =
    or_else (last_value name headers) (if eq_ignore_ascii_case k name then some v else none)

abbrev pub has_value : (name value : Text) → List (Text × Text) → Bool
has_value name value = any (λ h. eq_ignore_ascii_case h.0 name && (h.1 == value))

eq_ignore_ascii_case_sym : (a b : Text) → eq_ignore_ascii_case a b ≡ eq_ignore_ascii_case b a
unfolding eq_ignore_ascii_case
eq_ignore_ascii_case_sym a b = beq_sym (folded a) (folded b)

-- Names of one form stand for each other.
eq_ignore_ascii_case_same :
    (a b n : Text)
    → eq_ignore_ascii_case a b ≡ true
    → eq_ignore_ascii_case a n ≡ eq_ignore_ascii_case b n
unfolding eq_ignore_ascii_case
eq_ignore_ascii_case_same a b n h =
    ap (λ t. t == folded n) ((list_beq_iff (folded a) (folded b)).0 h)

any-insert_sorted :
    (le : Header → Header → Bool) (p : Header → Bool) (x : Header) (ys : List Header)
    → any p (insert_sorted le x ys) ≡ (p x || any p ys)
unfolding insert_sorted
any-insert_sorted le p x [] = refl
any-insert_sorted le p x (y ∷ ys) = ground (arith, any-insert_sorted le p x ys)

any-sort_by :
    (le : Header → Header → Bool) (p : Header → Bool) (xs : List Header)
    → any p (sort_by le xs) ≡ any p xs
unfolding sort_by
any-sort_by le p [] = refl
any-sort_by le p (x ∷ xs) =
    any-insert_sorted le p x (sort_by le xs) ∙ ap (λ b. p x || b) (any-sort_by le p xs)

has_header-sort_by :
    (le : Header → Header → Bool) (xs : List Header) (n : Text)
    → has_header (sort_by le xs) n ≡ has_header xs n
unfolding has_header
has_header-sort_by le xs n = any-sort_by le (λ h. eq_ignore_ascii_case h.0 n) xs

insert_sorted-AreApart :
    (le : Header → Header → Bool) (x : Header) (ys : List Header)
    → has_header ys x.0 ≡ false
    → AreApart ys
    → AreApart (insert_sorted le x ys)
unfolding insert_sorted has_header
insert_sorted-AreApart le x [] h a = (refl, tt)
insert_sorted-AreApart le x (y ∷ ys) h (b, a) = elim (Bool-cases (le x y)) [
  | inl first ↦ rw first (h, (b, a))
  | inr later ↦ rw later (
    any-insert_sorted le (λ z. eq_ignore_ascii_case z.0 y.0) x ys
        ∙ ground (arith, eq_ignore_ascii_case_sym x.0 y.0),
    insert_sorted-AreApart le x ys (ground arith) a,
  )
]

sort_by-AreApart :
    (le : Header → Header → Bool) (xs : List Header) → AreApart xs → AreApart (sort_by le xs)
unfolding sort_by has_header
sort_by-AreApart le [] a = tt
sort_by-AreApart le (x ∷ xs) (h, a) =
    insert_sorted-AreApart le x (sort_by le xs)
      (any-sort_by le (λ z. eq_ignore_ascii_case z.0 x.0) xs ∙ h) (sort_by-AreApart le xs a)

has_header-merge_header :
    (key value : Text) (m : List Header) (n : Text)
    → has_header (merge_header key value m) n ≡ (has_header m n || eq_ignore_ascii_case key n)
unfolding merge_header has_header
has_header-merge_header key value [] n = ground arith
has_header-merge_header key value ((k, v) ∷ m) n = elim (Bool-cases (eq_ignore_ascii_case k key)) [
  | inl same ↦ rw same (ground (arith, eq_ignore_ascii_case_same k key n same))
  | inr apart ↦ rw apart (ground (arith, has_header-merge_header key value m n))
]

merge_header-AreApart :
    (key value : Text) (m : List Header) → AreApart m → AreApart (merge_header key value m)
unfolding merge_header
merge_header-AreApart key value [] a = (unfold has_header in refl, tt)
merge_header-AreApart key value ((k, v) ∷ m) (h, a) =
    elim (Bool-cases (eq_ignore_ascii_case k key)) [
      | inl same ↦ rw same (h, a)
      | inr apart ↦ rw apart (
        has_header-merge_header key value m k ∙ ground (arith, eq_ignore_ascii_case_sym key k),
        merge_header-AreApart key value m a,
      )
    ]

-- What a name has after one explicit header.
has_value-merge_header_same :
    (key value : Text) (m : List Header) (n : Text)
    → eq_ignore_ascii_case key n ≡ true
    → has_value n value (merge_header key value m) ≡ true
unfolding merge_header
has_value-merge_header_same key value [] n h = rw (h, beq_refl) refl
has_value-merge_header_same key value ((k, v) ∷ m) n h =
    elim (Bool-cases (eq_ignore_ascii_case k key)) [
      | inl same ↦ rw (same, eq_ignore_ascii_case_same k key n same, h, beq_refl) refl
      | inr apart ↦ rw apart (ground (arith, has_value-merge_header_same key value m n h))
    ]

has_value-merge_header_apart :
    (key value w : Text) (m : List Header) (n : Text)
    → eq_ignore_ascii_case key n ≡ false
    → has_value n w (merge_header key value m) ≡ has_value n w m
unfolding merge_header
has_value-merge_header_apart key value w [] n h = rw h refl
has_value-merge_header_apart key value w ((k, v) ∷ m) n h =
    elim (Bool-cases (eq_ignore_ascii_case k key)) [
      | inl same ↦ rw (same, eq_ignore_ascii_case_same k key n same, h) refl
      | inr apart ↦ rw apart (ground (arith, has_value-merge_header_apart key value w m n h))
    ]

merge_all-AreApart : (hs m : List Header) → AreApart m → AreApart (merge_all hs m)
unfolding merge_all
merge_all-AreApart [] m a = a
merge_all-AreApart ((k, v) ∷ hs) m a =
    merge_all-AreApart hs (merge_header k v m) (merge_header-AreApart k v m a)

has_header-merge_all :
    (hs m : List Header) (n : Text)
    → has_header (merge_all hs m) n ≡ (has_header m n || has_header hs n)
unfolding merge_all
has_header-merge_all [] m n = unfold has_header in ground arith
has_header-merge_all ((k, v) ∷ hs) m n =
    has_header-merge_all hs (merge_header k v m) n
    ∙ ap (λ b. b || has_header hs n) (has_header-merge_header k v m n)
    ∙ unfold has_header in ground arith

none-last_value :
    (hs : List Header) (n k v : Text)
    → last_value n ((k, v) ∷ hs) ≡ none
    → (last_value n hs ≡ none) × (eq_ignore_ascii_case k n ≡ false)
none-last_value hs n k v h = ground arith

-- A name without an explicit header keeps its value.
has_value-merge_all_absent :
    (hs m : List Header) (n v : Text)
    → last_value n hs ≡ none
    → has_value n v (merge_all hs m) ≡ has_value n v m
unfolding merge_all
has_value-merge_all_absent [] m n v h = refl
has_value-merge_all_absent ((k, w) ∷ hs) m n v h =
    let (later, apart) = none-last_value hs n k w h in
    has_value-merge_all_absent hs (merge_header k w m) n v later
    ∙ has_value-merge_header_apart k w v m n apart

has_value-merge_all :
    (hs m : List Header) (n v : Text)
    → last_value n hs ≡ some v
    → has_value n v (merge_all hs m) ≡ true
unfolding merge_all
has_value-merge_all [] m n v h = cc
has_value-merge_all ((k, w) ∷ hs) m n v h = elim (Option-cases (last_value n hs)) [
  | inr (u, e) ↦ has_value-merge_all hs (merge_header k w m) n v (ground (arith, e))
  | inl e ↦ elim (Bool-cases (eq_ignore_ascii_case k n)) [
    | inl same ↦
        let same_value : w ≡ v = ground (arith, e) in
        has_value-merge_all_absent hs (merge_header k w m) n v e
        ∙ ap (λ u. has_value n u (merge_header k w m)) (sym same_value)
        ∙ has_value-merge_header_same k w m n same
    | inr apart ↦ ground (arith, e)
  ]
]

auth_headers-AreApart :
    (encode : Text → Text) (auth : AuthInfo) → AreApart (auth_headers encode auth)
unfolding auth_headers has_header
auth_headers-AreApart encode (bearer token) = ground arith
auth_headers-AreApart encode (basic username password) = (refl, tt)
auth_headers-AreApart encode (api_key key value) = ground arith
auth_headers-AreApart encode no_auth = tt

-- `merged` is what the headers of the authentication and the explicit ones come to.
pub record IsMerged (auth explicit merged : List (Text × Text)) : Type 0 where
  pub sorted : IsSorted (on (λ h. h.0) text_le) merged
  pub apart : AreApart merged
  pub named :
      (name : Text) → has_header merged name ≡ (has_header auth name || has_header explicit name)
  pub overrides :
      (name value : Text)
      → last_value name explicit ≡ some value
      → has_value name value merged ≡ true
  pub inherits :
      (name value : Text)
      → last_value name explicit ≡ none
      → has_value name value merged ≡ has_value name value auth

-- The merged headers are sorted by name; no two have names that differ only in case; they have the
-- names of the authentication and of the explicit headers and no others; and a name has its last
-- explicit value, or the value of the authentication if it has none.
pub merged_headers-IsMerged :
    (encode : Text → Text) (api : ApiDefinition)
    → IsMerged (auth_headers encode api.auth) api.headers (merged_headers encode api)
unfolding merged_headers
merged_headers-IsMerged encode api =
    let le = on (λ h. h.0) text_le in
    let auth = auth_headers encode api.auth in
    let all = merge_all api.headers auth in
    let order = on-IsOrder (λ h. h.0) text_le-IsOrder in
    record {
      sorted = sort_by-IsSorted le order.total order.trans all;
      apart =
          sort_by-AreApart le all
            (merge_all-AreApart api.headers auth (auth_headers-AreApart encode api.auth));
      named = λ name. has_header-sort_by le all name ∙ has_header-merge_all api.headers auth name;
      overrides =
          λ name value h. any-sort_by le _ all ∙ has_value-merge_all api.headers auth name value h;
      inherits = λ name value h.
          any-sort_by le _ all ∙ has_value-merge_all_absent api.headers auth name value h;
    }

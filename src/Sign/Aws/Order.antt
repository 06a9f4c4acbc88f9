-- ===== src/Sign/Aws/Order.antt =====
-- The order of the query parameters does not matter to an AWS signature.
use rust_fox.Prelude.{◌≡◌, refl, sym, ap, ◌∙◌, true, List, [], ◌∷◌, map, Option, arith}
use mathlib.Core.List.{Perm}
use rust_fox.Prelude.Compare.{text_le, text_le-IsOrder, on-IsOrder, then_by-IsOrder, IsOrder}
use rust_fox.Prelude.Result.{Result, ok, err, ◌>>=◌, ◌>>◌, reject_if}
use rust_fox.Prelude.Sort.Unique.{sort_by-eq}
use rust_fox.Prelude.Text.{Text, codes, is_empty, join}
use rust_fox.Core.External.{Hashes}
use rust_fox.Sign.{missing_field, Url, UrlParser, FormParser, query_pairs, host_of}
use rust_fox.Sign.Aws.{
  AwsV4Params, pair_le, encoded_pair, canonical_query, signed, signed_with, sign_parsed,
  sign_aws_v4,
}

text_le-antisym : (a b : Text) → text_le a b ≡ true → text_le b a ≡ true → a ≡ b
text_le-antisym [] [] h k = refl
text_le-antisym [] (y ∷ b) h k = ground arith
text_le-antisym (x ∷ a) [] h k = ground arith
text_le-antisym (x ∷ a) (y ∷ b) h k = ground (arith, text_le-antisym a b)

pair_le-antisym : (p q : Text × Text) → pair_le p q ≡ true → pair_le q p ≡ true → p ≡ q
pair_le-antisym (k, v) (l, w) h e = ground (arith, text_le-antisym k l, text_le-antisym v w)

pair_le-IsOrder : IsOrder pair_le
pair_le-IsOrder =
    then_by-IsOrder (on-IsOrder (λ p. p.0) text_le-IsOrder) (on-IsOrder (λ p. p.1) text_le-IsOrder)

pairs_set : IsSet (Text × Text)
pairs_set = hlevel

canonical_query-perm :
    (ps qs : List (Text × Text)) → Perm ps qs → canonical_query ps ≡ canonical_query qs
unfolding canonical_query
canonical_query-perm ps qs h =
    ap (λ l. join (codes "&") (map encoded_pair l))
      (sort_by-eq pair_le pair_le-IsOrder pair_le-antisym pairs_set h)

finish_eq :
    {E A B : Type 0} (m : Result E A) (f g : A → B)
    → ((a : A) → f a ≡ g a)
    → (m >>= λ a. ok (f a)) ≡ (m >>= λ a. ok (g a))
finish_eq (ok a) f g h = ap ok (h a)
finish_eq (err e) f g h = refl

module _ (hashes : Hashes) (form : FormParser) where
  signed-perm :
      (p : AwsV4Params) (url : Url) (host other : Text) (q : Option Text)
      → Perm (query_pairs form url) (query_pairs form (record url { query = q }))
      → signed hashes form p url host
        ≡ signed hashes form (record p { url = other }) (record url { query = q }) host
  unfolding signed signed_with
  signed-perm p url host other q h =
      ap (signed_with hashes form p url host) (canonical_query-perm _ _ h)

  sign_parsed-perm :
      (p : AwsV4Params) (url : Url) (other : Text) (q : Option Text)
      → Perm (query_pairs form url) (query_pairs form (record url { query = q }))
      → sign_parsed hashes form p (ok url)
        ≡ sign_parsed hashes form (record p { url = other }) (ok (record url { query = q }))
  unfolding sign_parsed
  sign_parsed-perm p url other q perm =
      ap
        (λ r.
          reject_if (is_empty p.access_key) (missing_field (codes "access_key"))
          >> (reject_if (is_empty p.secret_key) (missing_field (codes "secret_key"))
              >> (reject_if (is_empty p.region) (missing_field (codes "region"))
                  >> (reject_if (is_empty p.service) (missing_field (codes "service")) >> r))))
        (finish_eq (host_of url) _ _ (λ host. signed-perm p url host other q perm))

  -- If two URLs are parsed to the same parts, but for their query texts, and the form parser reads the
  -- same pairs in these in another order, then signing a request for the one gives what signing it for the other gives, the
  -- error or the headers.
  pub sign_aws_v4-perm :
      (parse : UrlParser) (p : AwsV4Params) (other : Text) (url : Url) (q : Option Text)
      → parse p.url ≡ ok url
      → parse other ≡ ok (record url { query = q })
      → Perm (query_pairs form url) (query_pairs form (record url { query = q }))
      → sign_aws_v4 hashes form parse p ≡ sign_aws_v4 hashes form parse (record p { url = other })
  unfolding sign_aws_v4
  sign_aws_v4-perm parse p other url q h k perm =
      ap (sign_parsed hashes form p) h
      ∙ sign_parsed-perm p url other q perm
      ∙ sym (ap (sign_parsed hashes form (record p { url = other })) k)

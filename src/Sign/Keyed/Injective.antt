-- ===== src/Sign/Keyed/Injective.antt =====
-- What is signed determines the request.
use rust_fox.Prelude.{ℕ, ◌≡◌, refl, true, List, [], ◌∷◌, All, arith}
use rust_fox.Prelude.Text.{Text, codes, show, to_ascii_uppercase}
use rust_fox.Prelude.Text.Parts.{lacks, join_injective, digits-show, digits-lacking}
use rust_fox.Prelude.Text.Shown.{show_injective}
use rust_fox.Sign.Keyed.{AkSkParams, aksk_canonical, hawk_canonical}

-- No newline in the values.
pub record IsLines (p : AkSkParams) : Type 0 where
  pub access_key : lacks 10 p.access_key ≡ true
  pub timestamp : lacks 10 p.timestamp ≡ true
  pub nonce : lacks 10 p.nonce ≡ true
  pub method : lacks 10 p.method ≡ true
  pub path_query : lacks 10 p.path_query ≡ true

lacks-to_ascii_uppercase : (s : Text) → lacks 10 s ≡ true → lacks 10 (to_ascii_uppercase s) ≡ true
unfolding to_ascii_uppercase
lacks-to_ascii_uppercase [] h = refl
lacks-to_ascii_uppercase (c ∷ s) h = ground (arith, lacks-to_ascii_uppercase s)

abbrev aksk_parts : AkSkParams → List Text
unfolding to_ascii_uppercase
aksk_parts p = p.timestamp ∷ p.nonce ∷ to_ascii_uppercase p.method ∷ p.path_query ∷ []

lines : (p : AkSkParams) → IsLines p → All (λ s. lacks 10 s ≡ true) (p.access_key ∷ aksk_parts p)
unfolding aksk_parts
lines p h = (
  h.access_key,
  (h.timestamp, (h.nonce, (lacks-to_ascii_uppercase p.method h.method, (h.path_query, tt)))),
)

-- Two requests whose values hold no newlines, and for which the same text is signed with the secret
-- key, agree in the access key, the timestamp, the nonce, the method but for its case, and the path
-- with its query: a signature does not pass for another request.
pub aksk_canonical_injective :
    (p q : AkSkParams)
    → IsLines p
    → IsLines q
    → aksk_canonical p ≡ aksk_canonical q
    → (p.access_key ≡ q.access_key)
      × ((p.timestamp ≡ q.timestamp)
          × ((p.nonce ≡ q.nonce)
              × ((to_ascii_uppercase p.method ≡ to_ascii_uppercase q.method)
                  × (p.path_query ≡ q.path_query))))
unfolding aksk_canonical aksk_parts
aksk_canonical_injective p q h k e =
    let same =
      join_injective 10 p.access_key q.access_key (aksk_parts p) (aksk_parts q) (lines p h)
        (lines q k) e in
    ground (arith, same)

-- What is signed for Hawk, apart from the numbers.
pub record HawkTexts : Type 0 where
  pub nonce : Text
  pub method : Text
  pub resource : Text
  pub host : Text
  pub hash : Text

pub record IsHawk (t : HawkTexts) : Type 0 where
  pub nonce : lacks 10 t.nonce ≡ true
  pub method : lacks 10 t.method ≡ true
  pub resource : lacks 10 t.resource ≡ true
  pub host : lacks 10 t.host ≡ true
  pub hash : lacks 10 t.hash ≡ true

abbrev hawk_parts : ℕ → ℕ → HawkTexts → List Text
unfolding show to_ascii_uppercase
hawk_parts ts port t =
    show ts
    ∷ t.nonce
    ∷ to_ascii_uppercase t.method
    ∷ t.resource
    ∷ t.host
    ∷ show port
    ∷ t.hash
    ∷ []
    ∷ []
    ∷ []

hawk_parts-lines :
    (ts port : ℕ) (t : HawkTexts)
    → IsHawk t
    → All (λ s. lacks 10 s ≡ true) (codes "hawk.1.header" ∷ hawk_parts ts port t)
unfolding hawk_parts
hawk_parts-lines ts port t h = (
  refl,
  (
    digits-lacking (show ts) (digits-show ts),
    (
      h.nonce,
      (
        lacks-to_ascii_uppercase t.method h.method,
        (
          h.resource,
          (h.host, (digits-lacking (show port) (digits-show port), (h.hash, (refl, (refl, tt))))),
        ),
      ),
    ),
  ),
)

-- Texts without newlines for which the same text is signed for Hawk agree in the timestamp and the
-- port, which are decimal, in the nonce, the method but for its case, the resource, the host, and the
-- hash of the body.
pub hawk_canonical_injective :
    (ts ts' port port' : ℕ) (t u : HawkTexts)
    → IsHawk t
    → IsHawk u
    → hawk_canonical ts t.nonce t.method t.resource t.host port t.hash
      ≡ hawk_canonical ts' u.nonce u.method u.resource u.host port' u.hash
    → (ts ≡ ts')
      × ((port ≡ port')
          × ((t.nonce ≡ u.nonce)
              × ((to_ascii_uppercase t.method ≡ to_ascii_uppercase u.method)
                  × ((t.resource ≡ u.resource) × ((t.host ≡ u.host) × (t.hash ≡ u.hash))))))
unfolding hawk_canonical hawk_parts
hawk_canonical_injective ts ts' port port' t u h k e =
    let same =
      join_injective 10 (codes "hawk.1.header") (codes "hawk.1.header") (hawk_parts ts port t)
        (hawk_parts ts' port' u) (hawk_parts-lines ts port t h) (hawk_parts-lines ts' port' u k)
        e in
    ground (arith, same, show_injective ts ts', show_injective port port')

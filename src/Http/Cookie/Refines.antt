-- ===== src/Http/Cookie/Refines.antt =====
-- The slots of the jar against a plain list of cookies: sending and clearing are filters.
use rust_fox.Prelude.{
  ℕ, ◌+◌, ◌≡◌, refl, ap, inl, inr, Bool, true, false, not, ◌&&◌, List, [], ◌∷◌, ◌++◌, map, length,
  keep, if◌then◌else◌, Bool-cases, All, length-append, map-append, arith,
}
use rust_fox.Prelude.Text.{Text, is_empty}
use mathlib.Core.Path.{ap₂}
use rust_fox.Http.Cookie.Jar.{IsJar, cookies, keep-append}
use rust_fox.Http.Cookie.{
  StoredCookie, Jar, domain_matches, is_live, pair_text, pairs_of, collect, is_cleared,
  clear_domain,
}

abbrev pub sendable : (now : ℕ) (host : Text) → StoredCookie → Bool
sendable now host c = domain_matches host c.domain && (is_live now c && not (is_empty c.value))

abbrev pub remains : (now : ℕ) (host : Text) → StoredCookie → Bool
remains now host c = not (domain_matches host c.domain && not (is_live now c))

module _ (now : ℕ) (host domain : Text) where
  pairs_of-sendable :
      (cs : List StoredCookie)
      → domain_matches host domain ≡ true
      → All (λ c. c.domain ≡ domain) cs
      → pairs_of now (keep (is_live now) cs) ≡ map pair_text (keep (sendable now host) cs)
  pairs_of-sendable [] h k = refl
  pairs_of-sendable (c ∷ cs) h (p, k) = ground (arith, pairs_of-sendable cs h k)

  keep-remains :
      (cs : List StoredCookie)
      → domain_matches host domain ≡ true
      → All (λ c. c.domain ≡ domain) cs
      → keep (is_live now) cs ≡ keep (remains now host) cs
  keep-remains [] h k = refl
  keep-remains (c ∷ cs) h (p, k) = ground (arith, keep-remains cs h k)

  keep-unmatched :
      (cs : List StoredCookie)
      → domain_matches host domain ≡ false
      → All (λ c. c.domain ≡ domain) cs
      → (keep (sendable now host) cs ≡ []) × (keep (remains now host) cs ≡ cs)
  keep-unmatched [] h k = (refl, refl)
  keep-unmatched (c ∷ cs) h (p, k) = ground (arith, keep-unmatched cs h k)

-- On a well-formed jar, the pairs sent to a host are those of the live cookies with a value whose
-- domain matches the host, in the order of the jar, and what the jar loses by it are exactly the
-- expired cookies of the matching domains.
pub collect-sendable :
    (now : ℕ) (host : Text) (jar : Jar)
    → IsJar jar
    → ((collect now host jar).0 ≡ map pair_text (keep (sendable now host) (cookies jar)))
      × (cookies (collect now host jar).1 ≡ keep (remains now host) (cookies jar))
unfolding collect
collect-sendable now host [] h = (refl, refl)
collect-sendable now host ((domain, cs) ∷ jar) ((_, m), ((k, _), s)) =
    let (sent, left) = collect-sendable now host jar (m, s) in
    elim (Bool-cases (domain_matches host domain)) [
      | inl h ↦
          rw
            (
              h,
              keep-append (sendable now host) cs (cookies jar),
              keep-append (remains now host) cs (cookies jar),
              map-append,
            )
            (
              ap₂ ◌++◌ (pairs_of-sendable now host domain cs h k) sent,
              ap₂ ◌++◌ (keep-remains now host domain cs h k) left,
            )
      | inr h ↦
          let (nothing, all) = keep-unmatched now host domain cs h k in
          rw
            (
              h,
              keep-append (sendable now host) cs (cookies jar),
              keep-append (remains now host) cs (cookies jar),
              nothing,
              all,
            )
            (sent, ap (◌++◌ cs) left)
    ]

abbrev pub survives : (d : Text) → StoredCookie → Bool
survives d c = not (is_cleared d c.domain)

module _ (d domain : Text) where
  keep-survives :
      (cs : List StoredCookie) (b : Bool)
      → is_cleared d domain ≡ b
      → All (λ c. c.domain ≡ domain) cs
      → keep (survives d) cs ≡ (if b then [] else cs)
  keep-survives [] b h k = ground arith
  keep-survives (c ∷ cs) b h (p, k) = ground (arith, keep-survives cs b h k)

-- On a well-formed jar, clearing a domain leaves exactly the cookies whose domain is neither it nor
-- one below it, in their order, and returns the number of those removed.
pub clear_domain-survives :
    (d : Text) (jar : Jar)
    → IsJar jar
    → (cookies (clear_domain d jar).1 ≡ keep (survives d) (cookies jar))
      × ((clear_domain d jar).0 + length (cookies (clear_domain d jar).1) ≡ length (cookies jar))
unfolding clear_domain
clear_domain-survives d [] h = (refl, omega arith)
clear_domain-survives d ((domain, cs) ∷ jar) ((_, m), ((k, _), s)) =
    let (kept, counted) = clear_domain-survives d jar (m, s) in
    elim (Bool-cases (is_cleared d domain)) [
      | inl h ↦
          rw (h, keep-append, keep-survives d domain cs true h k)
            (kept, omega (arith, length-append {0} cs (cookies jar)))
      | inr h ↦
          rw (h, keep-append, keep-survives d domain cs false h k)
            (
              ap (◌++◌ cs) kept,
              omega (
                arith,
                length-append {0} cs (cookies jar),
                length-append {0} cs (cookies (clear_domain d jar).1),
              ),
            )
    ]

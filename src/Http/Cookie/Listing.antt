-- ===== src/Http/Cookie/Listing.antt =====
-- What `list` returns.
use mathlib.Core.List.{Perm}
use mathlib.Core.Path.{ap₂, subst}
use rust_fox.Prelude.{
  ℕ, ◌≡◌, refl, ap, inl, inr, Bool, true, false, not, ◌&&◌, List, [], ◌∷◌, ◌++◌, Option, keep, All,
  Bool-cases, arith,
}
use rust_fox.Prelude.Compare.{IsOrder, text_le-IsOrder, on-IsOrder, then_by-IsOrder}
use rust_fox.Prelude.Sort.{IsSorted, sort_by, sort_by-IsSorted, sort_by-perm}
use rust_fox.Prelude.Text.{Text}
use rust_fox.Http.Cookie.Jar.{IsJar, cookies, keep-append}
use rust_fox.Http.Cookie.{StoredCookie, Jar, is_live, passes, cookie_le, list_from, list}

abbrev pub listed : (now : ℕ) → Option Text → StoredCookie → Bool
listed now filter c = passes filter c.domain && is_live now c

-- What stays in the jar.
abbrev pub unlisted : (now : ℕ) → Option Text → StoredCookie → Bool
unlisted now filter c = not (passes filter c.domain && not (is_live now c))

module _ (now : ℕ) (filter : Option Text) (domain : Text) where
  keep-passed :
      (cs : List StoredCookie)
      → passes filter domain ≡ true
      → All (λ c. c.domain ≡ domain) cs
      → (keep (is_live now) cs ≡ keep (listed now filter) cs)
        × (keep (is_live now) cs ≡ keep (unlisted now filter) cs)
  keep-passed [] h k = (refl, refl)
  keep-passed (c ∷ cs) h (p, k) = ground (arith, keep-passed cs h k, ap (passes filter) p)

  keep-filtered :
      (cs : List StoredCookie)
      → passes filter domain ≡ false
      → All (λ c. c.domain ≡ domain) cs
      → (keep (listed now filter) cs ≡ []) × (keep (unlisted now filter) cs ≡ cs)
  keep-filtered [] h k = (refl, refl)
  keep-filtered (c ∷ cs) h (p, k) = ground (arith, keep-filtered cs h k, ap (passes filter) p)

list_from-listed :
    (now : ℕ) (filter : Option Text) (jar : Jar)
    → IsJar jar
    → ((list_from now filter jar).0 ≡ keep (listed now filter) (cookies jar))
      × (cookies (list_from now filter jar).1 ≡ keep (unlisted now filter) (cookies jar))
unfolding list_from
list_from-listed now filter [] h = (refl, refl)
list_from-listed now filter ((domain, cs) ∷ jar) ((_, m), ((k, _), s)) =
    let (out, left) = list_from-listed now filter jar (m, s) in
    elim (Bool-cases (passes filter domain)) [
      | inl h ↦
          let (taken, stays) = keep-passed now filter domain cs h k in
          rw
            (
              h,
              keep-append (listed now filter) cs (cookies jar),
              keep-append (unlisted now filter) cs (cookies jar),
            )
            (ap₂ ◌++◌ taken out, ap₂ ◌++◌ stays left)
      | inr h ↦
          let (nothing, all) = keep-filtered now filter domain cs h k in
          rw
            (
              h,
              keep-append (listed now filter) cs (cookies jar),
              keep-append (unlisted now filter) cs (cookies jar),
              nothing,
              all,
            )
            (out, ap (◌++◌ cs) left)
    ]

cookie_le-IsOrder : IsOrder cookie_le
cookie_le-IsOrder =
    then_by-IsOrder (on-IsOrder (λ c. c.domain) text_le-IsOrder)
      (on-IsOrder (λ c. c.name) text_le-IsOrder)

-- On a well-formed jar, the list has exactly the live cookies whose domain passes the filter, in
-- the order of domains and then names, and what the jar loses by it are exactly the expired
-- cookies of the domains that pass.
pub list-IsSorted :
    (now : ℕ) (filter : Option Text) (jar : Jar)
    → IsJar jar
    → IsSorted cookie_le (list now filter jar).0
      × Perm (list now filter jar).0 (keep (listed now filter) (cookies jar))
      × (cookies (list now filter jar).1 ≡ keep (unlisted now filter) (cookies jar))
unfolding list
list-IsSorted now filter jar h =
    let (out, left) = list_from-listed now filter jar h in
    (
      sort_by-IsSorted cookie_le cookie_le-IsOrder.total cookie_le-IsOrder.trans
          (list_from now filter jar).0,
      subst (λ cs. Perm (sort_by cookie_le (list_from now filter jar).0) cs) out
          (sort_by-perm cookie_le (list_from now filter jar).0),
      left,
    )

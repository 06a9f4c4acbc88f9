-- ===== src/Http/Cookie/Jar.antt =====
-- The invariant of the jar, and its operations against the plain collection of its cookies.
use rust_fox.Prelude.{
  ℕ, ◌≡◌, refl, ◌∙◌, inl, inr, Bool, true, false, List, [], ◌∷◌, ◌++◌, Option, keep, Bool-cases,
  Option-cases, All, ◌==◌, list_eq, nat_eq, list_beq_iff, beq_sym, arith,
}
use rust_fox.Prelude.Dict.{get, insert, IsMap, insert-IsMap}
use rust_fox.Prelude.Text.{Text}
use rust_fox.Core.External.{CaseMaps}
use rust_fox.Http.Cookie.{StoredCookie, Jar, same_slot, put, slot_of, parse_set_cookie, store}

-- No two cookies of a slot have the same name and path.
abbrev pub Distinct : List StoredCookie → Type 0
Distinct [] = Unit
Distinct (c ∷ cs) = All (λ d. same_slot c d ≡ false) cs × Distinct cs

abbrev pub IsSlot : Text × List StoredCookie → Type 0
IsSlot (domain, cs) = All (λ c. c.domain ≡ domain) cs × Distinct cs

-- One slot for each domain, which holds cookies of that domain.
abbrev pub IsJar : Jar → Type 0
IsJar jar = IsMap jar × All IsSlot jar

same_slot_sym : (c d : StoredCookie) → same_slot c d ≡ same_slot d c
same_slot_sym c d = rw (beq_sym d.name c.name, beq_sym d.path c.path) refl

same_slot_cong :
    (c d e : StoredCookie) → same_slot c d ≡ true → same_slot d e ≡ false → same_slot c e ≡ false
same_slot_cong c d e h k = ground (arith, list_beq_iff d.name c.name, list_beq_iff d.path c.path)

All-put :
    (P : StoredCookie → Type 0) (c : StoredCookie) (cs : List StoredCookie)
    → P c
    → All P cs
    → All P (put c cs)
unfolding put
All-put P c [] p h = (p, tt)
All-put P c (d ∷ ds) p (q, h) = elim (Bool-cases (same_slot c d)) [
  | inl same ↦ rw same (p, h)
  | inr apart ↦ rw apart (q, All-put P c ds p h)
]

All-same_slot :
    (c d : StoredCookie) (es : List StoredCookie)
    → same_slot c d ≡ true
    → All (λ e. same_slot d e ≡ false) es
    → All (λ e. same_slot c e ≡ false) es
All-same_slot c d [] h k = tt
All-same_slot c d (e ∷ es) h (p, k) = (same_slot_cong c d e h p, All-same_slot c d es h k)

put-Distinct : (c : StoredCookie) (cs : List StoredCookie) → Distinct cs → Distinct (put c cs)
unfolding put
put-Distinct c [] h = (tt, tt)
put-Distinct c (d ∷ ds) (k, h) = elim (Bool-cases (same_slot c d)) [
  | inl same ↦ rw same (All-same_slot c d ds same k, h)
  | inr apart ↦
      rw apart (
        All-put (λ e. same_slot d e ≡ false) c ds (same_slot_sym d c ∙ apart) k,
        put-Distinct c ds h,
      )
]

All-insert :
    (domain : Text) (cs : List StoredCookie) (jar : Jar)
    → IsSlot (domain, cs)
    → All IsSlot jar
    → All IsSlot (insert domain cs jar)
unfolding insert
All-insert domain cs [] p h = (p, tt)
All-insert domain cs ((j, ds) ∷ jar) p (q, h) = elim (Bool-cases (j == domain)) [
  | inl same ↦ rw (same, (list_beq_iff j domain).0 same) (p, h)
  | inr apart ↦ rw apart (q, All-insert domain cs jar p h)
]

IsSlot-get :
    (domain : Text) (jar : Jar) → All IsSlot jar → IsSlot (domain, slot_of (get domain jar))
unfolding get
IsSlot-get domain [] h = (tt, tt)
IsSlot-get domain ((j, cs) ∷ jar) (p, h) = elim (Bool-cases (j == domain)) [
  | inl same ↦ rw same (rw ((list_beq_iff j domain).0 same) at p)
  | inr apart ↦ rw apart (IsSlot-get domain jar h)
]

module _ (cases : CaseMaps) (parse_date : Text → Option ℕ) (now : ℕ) where
  -- Storing a `Set-Cookie` line, well-formed or not, keeps the jar's invariant: one slot for each
  -- domain, which holds cookies of that domain only, no two of them of the same name and path.
  pub store-IsJar :
      (line : Text) (host : Option Text) (jar : Jar)
      → IsJar jar
      → IsJar (store cases parse_date now line host jar)
  unfolding store
  store-IsJar line host jar (m, h) =
      elim (Option-cases (parse_set_cookie cases parse_date now line host)) [
        | inl e ↦ rw (e, store) (m, h)
        | inr (c, e) ↦
            let (domains, distinct) = IsSlot-get c.domain jar h in
            rw (e, store)
              (
                insert-IsMap c.domain _ jar m,
                All-insert c.domain _ jar
                    (All-put (λ d. d.domain ≡ c.domain) c _ refl domains, put-Distinct c _ distinct)
                    h,
              )
      ]

-- The cookies of a jar, slot after slot.
abbrev pub cookies : Jar → List StoredCookie
cookies [] = []
cookies ((domain, cs) ∷ jar) = cs ++ cookies jar

pub keep-append :
    (p : StoredCookie → Bool) (cs ds : List StoredCookie)
    → keep p (cs ++ ds) ≡ keep p cs ++ keep p ds
keep-append p [] ds = refl
keep-append p (c ∷ cs) ds = ground (arith, keep-append p cs ds)

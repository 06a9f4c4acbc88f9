-- ===== src/Test/Pool/Counts.antt =====
-- Counting in a pool: what its workers hold and how often an index occurs.
use rust_fox.Prelude.{
  ℕ, zero, suc, ◌+◌, ◌<◌, ◌≤◌, ◌≡◌, ◌∙◌, inl, inr, ◌⊎◌, Bool, true, false, ◌&&◌, List, [], ◌∷◌,
  ◌++◌, some, get_elem?, set, eqb, ltb, arith,
}
use rust_fox.Test.Pool.{Worker, stopped, busy, sending}

abbrev pub one_if : Bool → ℕ
one_if true = 1
one_if false = 0

pub claim_count :
    (k next total a a' b c : ℕ)
    → next < total
    → a + b + c ≡ one_if (ltb k next && ltb k total)
    → a' + 0 ≡ a + one_if (eqb next k)
    → a' + b + c ≡ one_if (ltb k (next + 1) && ltb k total)
claim_count k next total a a' b c lt h e = ground arith

pub exhaust_count :
    (k next total a a' b c : ℕ)
    → total ≤ next
    → a + b + c ≡ one_if (ltb k next && ltb k total)
    → a' + 0 ≡ a + 0
    → a' + b + c ≡ one_if (ltb k (next + 1) && ltb k total)
exhaust_count k next total a a' b c le h e = ground arith

abbrev pub Ended : (stops next : ℕ) → Bool → ℕ → Type 0
Ended stops next cancelled total = (stops ≡ 0) ⊎ ((cancelled ≡ true) ⊎ (total ≤ next))

pub same_stops :
    {stops' next total : ℕ} {cancelled : Bool} (stops : ℕ)
    → stops' ≡ stops
    → Ended stops next cancelled total
    → Ended stops' next cancelled total
same_stops stops e (inl z) = inl (e ∙ z)
same_stops stops e (inr h) = inr h

pub later_stops :
    {stops' total : ℕ} {cancelled : Bool} (stops next : ℕ)
    → stops' ≡ stops
    → Ended stops next cancelled total
    → Ended stops' (next + 1) cancelled total
later_stops stops next e (inl z) = inl (e ∙ z)
later_stops stops next e (inr (inl c)) = inr (inl c)
later_stops stops next e (inr (inr l)) = inr (inr (omega arith))

module _ {ℓ} {R : Type ℓ} where
  abbrev pub holds : ℕ → Worker R → ℕ
  holds k (busy j) = one_if (eqb j k)
  holds k (sending j r) = one_if (eqb j k)
  holds k _ = 0

  abbrev pub is_stopped : Worker R → ℕ
  is_stopped stopped = 1
  is_stopped _ = 0

  abbrev pub carries : Worker R → ℕ
  carries (busy j) = 1
  carries (sending j r) = 1
  carries _ = 0

  abbrev pub total_of : (Worker R → ℕ) → List (Worker R) → ℕ
  total_of f [] = 0
  total_of f (w ∷ ws) = f w + total_of f ws

  abbrev pub count : ℕ → List (ℕ × R) → ℕ
  count k [] = 0
  count k (p ∷ ps) = one_if (eqb p.0 k) + count k ps

  pub total_of-set :
      (f : Worker R → ℕ) (ws : List (Worker R)) (i : ℕ) (old new : Worker R)
      → get_elem? ws i ≡ some old
      → total_of f (set ws i new) + f old ≡ total_of f ws + f new
  total_of-set f [] i old new h = cc
  total_of-set f (w ∷ ws) zero old new h = ground arith
  total_of-set f (w ∷ ws) (suc i) old new h = omega (arith, total_of-set f ws i old new h)

  pub count-append : (k : ℕ) (ps qs : List (ℕ × R)) → count k (ps ++ qs) ≡ count k ps + count k qs
  count-append k [] qs = omega arith
  count-append k (p ∷ ps) qs = omega (arith, count-append k ps qs)

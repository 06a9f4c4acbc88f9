-- ===== src/Mock/Priority.antt =====
-- What `resolve` answers: the order on definitions and the place of the winner.
use rust_fox.Prelude.{
  ◌<◌, eqb, ◌≡◌, refl, ◌⊎◌, inl, inr, true, false, List, [], ◌∷◌, ◌++◌, Option, none, some,
  if◌then◌else◌, Bool-cases, Option-cases, All, All-append, append_assoc, append-nil, arith,
}
use rust_fox.Prelude.Dict.{Dict}
use rust_fox.Prelude.Int.{◌<ℤ◌}
use rust_fox.Prelude.Text.{Text}
use rust_fox.Mock.Definition.{MockDefinition}
use rust_fox.Mock.Match.{HeaderMap}
use rust_fox.Mock.Resolve.{Hit, picks, improve, bindings, round, resolve_from, resolve, rank}

picks_trans : (a b c : MockDefinition) → picks a b ≡ true → picks b c ≡ true → picks a c ≡ true
unfolding picks
picks_trans a b c h k = ground arith

-- What does not beat the loser is beaten by the winner.
picks_over : (a b c : MockDefinition) → picks a b ≡ true → picks c b ≡ false → picks a c ≡ true
unfolding picks
picks_over a b c h k = ground arith

-- `d` is strictly below `e`: its source is, or its priority with a source of the same rank.
abbrev pub Below : MockDefinition → MockDefinition → Type 0
Below d e =
    (rank d.source < rank e.source) ⊎ ((rank d.source ≡ rank e.source) × (d.priority <ℤ e.priority))

picks-Below : (a b : MockDefinition) → picks a b ≡ true → Below b a
unfolding picks
picks-Below a b h = elim (Bool-cases (eqb (rank a.source) (rank b.source))) [
  | inl same ↦ inr (ground arith)
  | inr apart ↦ inl (ground arith)
]

Below-picks : (a b : MockDefinition) → picks b a ≡ false → ¬ Below a b
unfolding picks
Below-picks a b h (inl lt) = ground arith
Below-picks a b h (inr (same, lt)) = ground arith

All-imp :
    {P Q : MockDefinition → Type 0} (ds : List MockDefinition)
    → ((d : MockDefinition) → P d → Q d)
    → All P ds
    → All Q ds
All-imp [] f h = tt
All-imp (d ∷ ds) f (p, h) = (f d p, All-imp ds f h)

module _ (method path query : Text) (headers : HeaderMap) where
  abbrev pub Misses : MockDefinition → Type 0
  Misses d = bindings method path query headers d ≡ none

  -- Earlier definitions that match are strictly below the winner; later ones are not above it.
  record IsChosen (defs : List MockDefinition) (h : Hit) : Type 0 where
    pub before : List MockDefinition
    pub after : List MockDefinition
    pub splits : defs ≡ before ++ h.0 ∷ after
    pub matches : bindings method path query headers h.0 ≡ some h.1
    pub above : All (λ d. Misses d ⊎ (picks h.0 d ≡ true)) before
    pub not_below : All (λ d. Misses d ⊎ (picks d h.0 ≡ false)) after

  abbrev Chosen : List MockDefinition → Option Hit → Type 0
  Chosen defs none = All Misses defs
  Chosen defs (some h) = IsChosen defs h

  Chosen-miss :
      (ds : List MockDefinition) (d : MockDefinition) (b : Option Hit)
      → Misses d
      → Chosen ds b
      → Chosen (ds ++ d ∷ []) b
  Chosen-miss ds d none m h = All-append Misses ds (d ∷ []) h (m, tt)
  Chosen-miss ds d (some c) m h = record {
    before = h.before;
    after = h.after ++ d ∷ [];
    splits = rw (h.splits, append_assoc) refl;
    matches = h.matches;
    above = h.above;
    not_below = All-append _ h.after (d ∷ []) h.not_below (inl m, tt);
  }

  beats :
      (d c : MockDefinition)
      → picks d c ≡ true
      → (x : MockDefinition) → Misses x ⊎ (picks c x ≡ true)
      → Misses x ⊎ (picks d x ≡ true)
  beats d c better x (inl m) = inl m
  beats d c better x (inr k) = inr (picks_trans d c x better k)

  overtakes :
      (d c : MockDefinition)
      → picks d c ≡ true
      → (x : MockDefinition) → Misses x ⊎ (picks x c ≡ false)
      → Misses x ⊎ (picks d x ≡ true)
  overtakes d c better x (inl m) = inl m
  overtakes d c better x (inr k) = inr (picks_over d c x better k)

  Chosen-improve :
      (ds : List MockDefinition) (d : MockDefinition) (vars : Dict Text Text) (b : Option Hit)
      → bindings method path query headers d ≡ some vars
      → Chosen ds b
      → Chosen (ds ++ d ∷ []) (improve b d vars)
  unfolding improve
  Chosen-improve ds d vars none m h = record {
    before = ds;
    after = [];
    splits = refl;
    matches = m;
    above = All-imp ds (λ x p. inl p) h;
    not_below = tt;
  }
  Chosen-improve ds d vars (some (c, w)) m h = elim (Bool-cases (picks d c)) [
    | inl better ↦
        rw (better, if◌then◌else◌)
          (record {
            before = ds;
            after = [];
            splits = refl;
            matches = m;
            above = rw h.splits (
                All-append _ h.before (c ∷ h.after) (All-imp h.before (beats d c better) h.above)
                  (inr better, All-imp h.after (overtakes d c better) h.not_below));
            not_below = tt;
          })
    | inr worse ↦
        rw (worse, if◌then◌else◌)
          (record {
            before = h.before;
            after = h.after ++ d ∷ [];
            splits = rw (h.splits, append_assoc) refl;
            matches = h.matches;
            above = h.above;
            not_below = All-append _ h.after (d ∷ []) h.not_below (inr worse, tt);
          })
  ]

  Chosen-round :
      (ds : List MockDefinition) (d : MockDefinition) (b : Option Hit)
      → Chosen ds b
      → Chosen (ds ++ d ∷ []) (round method path query headers b d)
  unfolding round
  Chosen-round ds d b h = elim (Option-cases (bindings method path query headers d)) [
    | inl m ↦ rw (m, round) (Chosen-miss ds d b m h)
    | inr (vars, m) ↦ rw (m, round) (Chosen-improve ds d vars b m h)
  ]

  Chosen-resolve_from :
      (ds todo : List MockDefinition) (b : Option Hit)
      → Chosen ds b
      → Chosen (ds ++ todo) (resolve_from method path query headers b todo)
  unfolding resolve_from
  Chosen-resolve_from ds [] b h = rw append-nil h
  Chosen-resolve_from ds (d ∷ todo) b h =
      rw (← append_assoc ds (d ∷ []) todo)
        (Chosen-resolve_from (ds ++ d ∷ []) todo _ (Chosen-round ds d b h))

  -- Earlier definitions that pass are strictly below the winner; it is not below a later one.
  pub record IsFirstBest (defs : List MockDefinition) (h : Hit) : Type 0 where
    pub before : List MockDefinition
    pub after : List MockDefinition
    pub splits : defs ≡ before ++ h.0 ∷ after
    pub matches : bindings method path query headers h.0 ≡ some h.1
    pub above : All (λ d. Misses d ⊎ Below d h.0) before
    pub not_below : All (λ d. Misses d ⊎ ¬ Below h.0 d) after

  abbrev pub Answers : List MockDefinition → Option Hit → Type 0
  Answers defs none = All Misses defs
  Answers defs (some h) = IsFirstBest defs h

  Chosen-Answers : (defs : List MockDefinition) (b : Option Hit) → Chosen defs b → Answers defs b
  Chosen-Answers defs none h = h
  Chosen-Answers defs (some (c, w)) h = record {
    before = h.before;
    after = h.after;
    splits = h.splits;
    matches = h.matches;
    above = All-imp h.before (λ d. at_most c d) h.above;
    not_below = All-imp h.after (λ d. at_least c d) h.not_below;
  }
    where
      at_most : (c d : MockDefinition) → Misses d ⊎ (picks c d ≡ true) → Misses d ⊎ Below d c
      at_most c d (inl m) = inl m
      at_most c d (inr k) = inr (picks-Below c d k)

      at_least : (c d : MockDefinition) → Misses d ⊎ (picks d c ≡ false) → Misses d ⊎ ¬ Below c d
      at_least c d (inl m) = inl m
      at_least c d (inr k) = inr (Below-picks c d k)

  -- For every request, `resolve` gives nothing exactly when no definition passes its guards, and
  -- else a definition of the list with its path parameters, such that every earlier one that
  -- passes is strictly below it by source and then priority, and it is below no later one that
  -- passes.
  pub resolve-IsFirstBest :
      (defs : List MockDefinition) → Answers defs (resolve method path query headers defs)
  unfolding resolve
  resolve-IsFirstBest defs = Chosen-Answers defs _ (Chosen-resolve_from [] defs none tt)

-- ===== src/Search/Patterns.antt =====
-- A search term is found literally, whatever wildcards it holds.
use tg_bot.Base.{
  ℕ, ◌≡◌, refl, ap, ◌∙◌, Bool, true, false, ◌||◌, List, [], ◌∷◌, ◌++◌, map, ◌==◌, if◌then◌else◌,
  ◌↔◌, arith, inl, inr, Bool-cases,
}
use tg_bot.Search.Like.{
  percent, underscore, like_escape, replace, like_pattern, Piece, any_text, exactly, piece, pieces,
  some_suffix, fits, ilike,
}

-- the three replacements at once
abbrev escape : List ℕ → List ℕ
escape [] = []
escape (c ∷ cs) =
    let rest = escape cs in
    if c == like_escape || c == percent || c == underscore then like_escape ∷ c ∷ rest else c ∷ rest

replace-escape :
    (term : List ℕ)
    → replace underscore (like_escape ∷ underscore ∷ []) (
        replace percent
          (like_escape ∷ percent ∷ [])
          (replace like_escape (like_escape ∷ like_escape ∷ []) term))
      ≡ escape term
replace-escape [] = refl
replace-escape (c ∷ cs) = elim (Bool-cases (c == like_escape)) [
  | inl slash ↦
      let same : c ≡ 92 = ground arith in
      rw same (ap (λ (t : List ℕ). 92 ∷ 92 ∷ t) (replace-escape cs))
  | inr other ↦ elim (Bool-cases (c == percent)) [
    | inl hit ↦
        let same : c ≡ b'%' = ground arith in
        rw same (ap (λ (t : List ℕ). 92 ∷ b'%' ∷ t) (replace-escape cs))
    | inr plain ↦ elim (Bool-cases (c == underscore)) [
      | inl hit ↦
          let same : c ≡ b'_' = ground arith in
          rw same (ap (λ (t : List ℕ). 92 ∷ b'_' ∷ t) (replace-escape cs))
      | inr simple ↦ rw (other, plain, simple) (ap (λ (t : List ℕ). c ∷ t) (replace-escape cs))
    ]
  ]
]

pieces_plain :
    (c : ℕ) (ds : List ℕ) → (c == like_escape) ≡ false → pieces (c ∷ ds) ≡ piece c ∷ pieces ds
pieces_plain c [] h = rw h
pieces_plain c (d ∷ ds) h = rw h

-- The escaped term asks for its own characters, and nothing else.
pieces_last : (cs : List ℕ) → pieces (escape cs ++ percent ∷ []) ≡ map exactly cs ++ any_text ∷ []
pieces_last [] = refl
pieces_last (c ∷ cs) = elim (Bool-cases (c == like_escape || c == percent || c == underscore)) [
  | inl special ↦ rw special (ap (λ (t : List Piece). exactly c ∷ t) (pieces_last cs))
  | inr plain ↦
      let slash : (c == like_escape) ≡ false = ground arith in
      let letter : piece c ≡ exactly c = ground arith in
      rw (plain, pieces_plain c (escape cs ++ percent ∷ []) slash, letter)
        (ap (λ (t : List Piece). exactly c ∷ t) (pieces_last cs))
]

pieces-like_pattern :
    (term : List ℕ) → pieces (like_pattern term) ≡ any_text ∷ (map exactly term ++ any_text ∷ [])
unfolding like_pattern
pieces-like_pattern term = rw (replace-escape term) (
    pieces_plain percent (escape term ++ percent ∷ []) refl
    ∙ ap (λ (t : List Piece). any_text ∷ t) (pieces_last term))

module _ (alike : ℕ → ℕ → Bool) where
  -- the same text, character by character, but for the case of letters
  abbrev pub Alike : List ℕ → List ℕ → Type 0
  Alike [] [] = Unit
  Alike (c ∷ cs) (d ∷ ds) = (alike c d ≡ true) × Alike cs ds
  Alike _ _ = ⊥

  -- The term stands somewhere in the text.
  pub record Occurs (term text : List ℕ) : Type 0 where
    pub front : List ℕ
    pub middle : List ℕ
    pub back : List ℕ
    pub whole : text ≡ front ++ (middle ++ back)
    pub same : Alike term middle

  fits_rest : (xs : List ℕ) → some_suffix (fits alike []) xs ≡ true
  fits_rest [] = refl
  fits_rest (x ∷ xs) = fits_rest xs

  fits_front :
      (term xs : List ℕ)
      → fits alike (map exactly term ++ any_text ∷ []) xs ≡ true
      → (middle : List ℕ) × (back : List ℕ) × (xs ≡ middle ++ back) × Alike term middle
  fits_front [] xs h = ([], xs, refl, tt)
  fits_front (c ∷ cs) [] h = cc
  fits_front (c ∷ cs) (x ∷ xs) h =
      let (m, b, e, a) = fits_front cs xs (ground arith) in
      (x ∷ m, b, ap (λ (t : List ℕ). x ∷ t) e, ((ground arith), a))

  front_fits :
      (term middle back : List ℕ)
      → Alike term middle
      → fits alike (map exactly term ++ any_text ∷ []) (middle ++ back) ≡ true
  front_fits [] [] back h = fits_rest back
  front_fits [] (d ∷ ds) back h = absurd h
  front_fits (c ∷ cs) [] back h = absurd h
  front_fits (c ∷ cs) (d ∷ ds) back h = rw h.0 (front_fits cs ds back h.1)

  suffix_found :
      (p : List ℕ → Bool) (xs : List ℕ)
      → some_suffix p xs ≡ true
      → (front : List ℕ) × (rest : List ℕ) × (xs ≡ front ++ rest) × (p rest ≡ true)
  suffix_found p [] h = ([], [], refl, h)
  suffix_found p (x ∷ xs) h = elim (Bool-cases (p (x ∷ xs))) [
    | inl hit ↦ ([], x ∷ xs, refl, hit)
    | inr miss ↦
        let (f, r, e, k) = suffix_found p xs (rw miss at h) in
        (x ∷ f, r, ap (λ (t : List ℕ). x ∷ t) e, k)
  ]

  found_suffix :
      (p : List ℕ → Bool) (front rest : List ℕ)
      → p rest ≡ true
      → some_suffix p (front ++ rest) ≡ true
  found_suffix p [] [] h = h
  found_suffix p [] (x ∷ xs) h = rw h
  found_suffix p (f ∷ fs) rest h = ground (arith, found_suffix p fs rest h)

  -- PostgreSQL's ILIKE with the pattern that `like_pattern` makes of a term holds of a text exactly
  -- when the term, with its percent signs, underscores and backslashes taken literally, stands
  -- somewhere in the text, up to the case of letters.
  pub ilike-like_pattern :
      (term text : List ℕ) → (ilike alike (like_pattern term) text ≡ true) ↔ Occurs term text
  unfolding ilike
  ilike-like_pattern term text = (
    λ h.
        let h' = (rw (pieces-like_pattern term) at h) in
        let (front, rest, e, k) =
          suffix_found (fits alike (map exactly term ++ any_text ∷ [])) text h' in
        let (middle, back, e', a) = fits_front term rest k in
        record {
          front = front;
          middle = middle;
          back = back;
          whole = e ∙ ap (λ (t : List ℕ). front ++ t) e';
          same = a;
        },
    λ o.
        rw (pieces-like_pattern term, o.whole)
          (found_suffix (fits alike (map exactly term ++ any_text ∷ [])) o.front
            (o.middle ++ o.back) (front_fits term o.middle o.back o.same)),
  )

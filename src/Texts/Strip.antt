-- ===== src/Texts/Strip.antt =====
-- Python's `str.strip()`: which characters count as whitespace, and what is left of a text.
use Prim.Native.Char.{Char, code}
use tg_bot.Base.{
  ℕ, String, ◌≡◌, refl, ◌∙◌, ap, Bool, false, ◌||◌, ◌&&◌, leb, ◌==◌, if◌then◌else◌, arith, inl, inr,
  Bool-cases,
}
use tg_bot.Domain.Slug.{codes, chop_newline}

-- `str.isspace` of one character
abbrev pub is_space : ℕ → Bool
is_space c =
    (leb 9 c && leb c 13)
    || (leb 28 c && leb c 32)
    || c == 133
    || c == 160
    || c == 5760
    || (leb 8192 c && leb c 8202)
    || c == 8232
    || c == 8233
    || c == 8239
    || c == 8287
    || c == 12288

unfoldable pub lstrip : String → String
lstrip String.[] = String.[]
lstrip (String.◌∷◌ c s) = if is_space (code c) then lstrip s else String.◌∷◌ c s

-- A character before a stripped text: it goes too, where nothing is left behind it.
abbrev before : Char → String → String
before c String.[] = if is_space (code c) then String.[] else String.◌∷◌ c String.[]
before c (String.◌∷◌ d t) = String.◌∷◌ c (String.◌∷◌ d t)

unfoldable pub rstrip : String → String
rstrip String.[] = String.[]
rstrip (String.◌∷◌ c s) = before c (rstrip s)

unfoldable pub strip : String → String
unfolding lstrip rstrip
strip s = rstrip (lstrip s)

before-rstrip : (c : Char) (t : String) → rstrip t ≡ t → rstrip (before c t) ≡ before c t
unfolding rstrip
before-rstrip c String.[] h = elim (Bool-cases (is_space (code c))) [
  | inl blank ↦ rw blank
  | inr solid ↦ rw (solid, solid)
]
before-rstrip c (String.◌∷◌ d t) h = rw h

rstrip_idem : (s : String) → rstrip (rstrip s) ≡ rstrip s
unfolding rstrip
rstrip_idem String.[] = refl
rstrip_idem (String.◌∷◌ c s) = before-rstrip c (rstrip s) (rstrip_idem s)

-- A text whose first character, if there is one, is no whitespace.
abbrev Starts : String → Type 0
Starts String.[] = Unit
Starts (String.◌∷◌ c s) = is_space (code c) ≡ false

lstrip-Starts : (s : String) → Starts (lstrip s)
unfolding lstrip
lstrip-Starts String.[] = tt
lstrip-Starts (String.◌∷◌ c s) = elim (Bool-cases (is_space (code c))) [
  | inl blank ↦ rw blank (lstrip-Starts s)
  | inr solid ↦ rw solid solid
]

before-Starts : (c : Char) (t : String) → is_space (code c) ≡ false → Starts (before c t)
before-Starts c String.[] h = rw h h
before-Starts c (String.◌∷◌ d t) h = h

rstrip-Starts : (s : String) → Starts s → Starts (rstrip s)
unfolding rstrip
rstrip-Starts String.[] h = tt
rstrip-Starts (String.◌∷◌ c s) h = before-Starts c (rstrip s) h

lstrip-id : (s : String) → Starts s → lstrip s ≡ s
unfolding lstrip
lstrip-id String.[] h = refl
lstrip-id (String.◌∷◌ c s) h = rw h

-- What is stripped stays as it is.
pub strip_idem : (s : String) → strip (strip s) ≡ strip s
unfolding strip
strip_idem s =
    ap rstrip (lstrip-id _ (rstrip-Starts (lstrip s) (lstrip-Starts s))) ∙ rstrip_idem (lstrip s)

before-chop :
    (c : Char) (t : String)
    → chop_newline (codes t) ≡ codes t
    → chop_newline (codes (before c t)) ≡ codes (before c t)
before-chop c String.[] h = elim (Bool-cases (is_space (code c))) [
  | inl blank ↦ rw blank
  | inr solid ↦ rw solid (ground arith)
]
before-chop c (String.◌∷◌ d t) h = rw h

rstrip-chop : (s : String) → chop_newline (codes (rstrip s)) ≡ codes (rstrip s)
unfolding rstrip
rstrip-chop String.[] = refl
rstrip-chop (String.◌∷◌ c s) = before-chop c (rstrip s) (rstrip-chop s)

-- A stripped text has no newline at its end.
pub strip-chop : (s : String) → chop_newline (codes (strip s)) ≡ codes (strip s)
unfolding strip
strip-chop s = rstrip-chop (lstrip s)

-- ===== src/Search/Like.antt =====
-- `like_pattern` of backend/app/infrastructure/db/errors.py, beside PostgreSQL's ILIKE as its
-- documentation has it: `%` stands for any text, `_` for any character, and a backslash takes the
-- next character as it is. Whether two characters differ only in case is a parameter.
use tg_bot.Base.{ℕ, Bool, true, false, ◌&&◌, ◌||◌, List, [], ◌∷◌, ◌++◌, ◌==◌, if◌then◌else◌}

abbrev pub percent : ℕ
percent = b'%'

abbrev pub underscore : ℕ
underscore = b'_'

-- `LIKE_ESCAPE`
abbrev pub like_escape : ℕ
like_escape = 92

-- `str.replace` of one character by a text
abbrev pub replace : ℕ → List ℕ → List ℕ → List ℕ
replace c by [] = []
replace c by (d ∷ ds) = let rest = replace c by ds in if d == c then by ++ rest else d ∷ rest

unfoldable pub like_pattern : List ℕ → List ℕ
like_pattern term =
    percent
    ∷ (replace underscore (like_escape ∷ underscore ∷ []) (
          replace percent (like_escape ∷ percent ∷ [])
            (replace like_escape (like_escape ∷ like_escape ∷ []) term))
        ++ percent ∷ [])

-- what a pattern asks for, piece by piece
pub data Piece : Type 0 where
  any_text any_one : Piece
  exactly : ℕ → Piece

abbrev pub piece : ℕ → Piece
piece c = if c == percent then any_text else if c == underscore then any_one else exactly c

-- A backslash at the end of a pattern, which PostgreSQL refuses, stands for itself here.
abbrev pub pieces : List ℕ → List Piece
pieces [] = []
pieces (c ∷ []) = (if c == like_escape then exactly c else piece c) ∷ []
pieces (c ∷ d ∷ ds) =
    let plain = pieces (d ∷ ds) in
    let escaped = pieces ds in if c == like_escape then exactly d ∷ escaped else piece c ∷ plain

abbrev pub some_suffix : (List ℕ → Bool) → List ℕ → Bool
some_suffix p [] = p []
some_suffix p (x ∷ xs) = p (x ∷ xs) || some_suffix p xs

module _ (alike : ℕ → ℕ → Bool) where
  abbrev pub fits : List Piece → List ℕ → Bool
  fits [] [] = true
  fits [] (x ∷ xs) = false
  fits (any_text ∷ ps) xs = some_suffix (fits ps) xs
  fits (any_one ∷ ps) [] = false
  fits (any_one ∷ ps) (x ∷ xs) = fits ps xs
  fits (exactly c ∷ ps) [] = false
  fits (exactly c ∷ ps) (x ∷ xs) = alike c x && fits ps xs

  unfoldable pub ilike : List ℕ → List ℕ → Bool
  ilike pattern text = fits (pieces pattern) text

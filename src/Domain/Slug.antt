-- ===== src/Domain/Slug.antt =====
-- backend/app/domain/slug.py: which texts can be a deep-link payload.
use Prim.Native.Char.{code}
use tg_bot.Base.{
  ℕ, String, Bool, ◌&&◌, ◌||◌, List, [], ◌∷◌, length, all_of, leb, ◌==◌, if◌then◌else◌,
}

-- the code points of a text
abbrev pub codes : String → List ℕ
codes String.[] = []
codes (String.◌∷◌ c s) = code c ∷ codes s

abbrev pub slug_max_length : ℕ
slug_max_length = 64

-- the class [A-Za-z0-9_-]
abbrev pub is_slug_char : ℕ → Bool
is_slug_char c =
    (leb b'A' c && leb c b'Z')
    || (leb b'a' c && leb c b'z')
    || (leb b'0' c && leb c b'9')
    || c == b'_'
    || c == b'-'

-- `[A-Za-z0-9_-]{1,64}`, from one end of the text to the other
abbrev pub is_slug : List ℕ → Bool
is_slug cs = leb 1 (length cs) && leb (length cs) slug_max_length && all_of is_slug_char cs

-- the text without one newline at its very end
abbrev pub chop_newline : List ℕ → List ℕ
chop_newline [] = []
chop_newline (c ∷ []) = if c == b'\n' then [] else c ∷ []
chop_newline (c ∷ d ∷ cs) = c ∷ chop_newline (d ∷ cs)

-- the pattern as PostgreSQL's `~` reads it: `$` is the end of the text
unfoldable pub matches_slug_pattern : String → Bool
matches_slug_pattern value = is_slug (codes value)

-- `is_valid_slug`. In Python `$` also stands before a newline that ends the text.
unfoldable pub is_valid_slug : String → Bool
is_valid_slug value = is_slug (codes value) || is_slug (chop_newline (codes value))

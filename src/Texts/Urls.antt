-- ===== src/Texts/Urls.antt =====
-- `_validate_delivery_url` of backend/app/services/products.py, on top of `urlparse` of Python's
-- standard library, of which the scheme and the network location are modelled.
use tg_bot.Base.{
  ℕ, ◌+◌, String, ◌≡◌, ◌↔◌, refl, sym, ap, ◌∙◌, Bool, true, false, not, ◌&&◌, ◌||◌, List, [], ◌∷◌,
  ◌++◌, map, all_of, select, leb, ◌==◌, if◌then◌else◌, arith, inl, inr, Bool-cases,
}
use tg_bot.Errors.{invalid_delivery_url, value_error}
use tg_bot.World.Actions.{Result, ok, err}
use tg_bot.Domain.Slug.{codes}
use tg_bot.Texts.Strip.{strip}

-- the items before the first that passes a test, and the rest from there on
abbrev pub take_until : (ℕ → Bool) → List ℕ → List ℕ
take_until p [] = []
take_until p (c ∷ cs) = let rest = take_until p cs in if p c then [] else c ∷ rest

abbrev pub drop_until : (ℕ → Bool) → List ℕ → List ℕ
drop_until p [] = []
drop_until p (c ∷ cs) = let rest = drop_until p cs in if p c then c ∷ cs else rest

abbrev pub same_codes : List ℕ → List ℕ → Bool
same_codes [] [] = true
same_codes (a ∷ as') (b ∷ bs) = a == b && same_codes as' bs
same_codes _ _ = false

abbrev pub is_letter : ℕ → Bool
is_letter c = (leb b'A' c && leb c b'Z') || (leb b'a' c && leb c b'z')

-- `scheme_chars`
abbrev pub is_scheme_char : ℕ → Bool
is_scheme_char c = is_letter c || (leb b'0' c && leb c b'9') || c == b'+' || c == b'-' || c == b'.'

abbrev pub lower : ℕ → ℕ
lower c = if leb b'A' c && leb c b'Z' then c + 32 else c

abbrev pub is_colon : ℕ → Bool
is_colon c = c == b':'

-- `_splitnetloc` stops at the path, the query or the fragment
abbrev pub ends_host : ℕ → Bool
ends_host c = c == b'/' || c == b'?' || c == b'#'

-- a tab or a line break, which `urlsplit` removes, and a character that it strips on the left
abbrev pub is_unsafe : ℕ → Bool
is_unsafe c = c == 9 || c == 10 || c == 13

abbrev pub drop_controls : List ℕ → List ℕ
drop_controls = drop_until (λ c. not (leb c 32))

abbrev pub cleaned : String → List ℕ
cleaned url = select (λ c. not (is_unsafe c)) (drop_controls (codes url))

-- may the text before a colon be a scheme?
abbrev pub names_scheme : List ℕ → Bool
names_scheme [] = false
names_scheme (c ∷ cs) = is_letter c && all_of is_scheme_char (c ∷ cs)

-- the scheme, in small letters, and what follows it
abbrev pub split_at : List ℕ → List ℕ → List ℕ → List ℕ × List ℕ
split_at whole pre [] = ([], whole)
split_at whole pre (colon ∷ rest) = if names_scheme pre then (map lower pre, rest) else ([], whole)

unfoldable pub split_scheme : List ℕ → List ℕ × List ℕ
split_scheme cs = split_at cs (take_until is_colon cs) (drop_until is_colon cs)

abbrev pub split_netloc : List ℕ → List ℕ
split_netloc (a ∷ b ∷ rest) = if a == b'/' && b == b'/' then take_until ends_host rest else []
split_netloc _ = []

-- `_ALLOWED_URL_SCHEMES`
abbrev pub http : List ℕ
http = b'h' ∷ b't' ∷ b't' ∷ b'p' ∷ []

abbrev pub https : List ℕ
https = b'h' ∷ b't' ∷ b't' ∷ b'p' ∷ b's' ∷ []

abbrev pub is_allowed : List ℕ → Bool
is_allowed scheme = same_codes scheme http || same_codes scheme https

abbrev pub is_empty_host : List ℕ → Bool
is_empty_host [] = true
is_empty_host _ = false

-- `_validate_delivery_url`, where `malformed` says for which network locations `urlparse` raises
-- ValueError: unbalanced brackets among others
module _ (malformed : List ℕ → Bool) where
  abbrev pub decide : String → List ℕ × List ℕ → Result String
  decide candidate (scheme, rest) =
      if malformed (split_netloc rest)
      then err value_error
      else if not (is_allowed scheme) || is_empty_host (split_netloc rest)
      then err invalid_delivery_url
      else ok candidate

  unfoldable pub validate_delivery_url : String → Result String
  unfolding split_scheme
  validate_delivery_url url = decide (strip url) (split_scheme (cleaned (strip url)))

-- `http` or `https` in letters of either case, a colon, two slashes and a network location that is not
-- empty: at least one character before the next slash, question mark or hash. That may be a port or an
-- `@` without a host.
pub record IsWebAddress (cs : List ℕ) : Type 0 where
  pub scheme : List ℕ
  pub first : ℕ
  pub rest : List ℕ
  pub whole : cs ≡ scheme ++ (b':' ∷ b'/' ∷ b'/' ∷ first ∷ rest)
  pub known : is_allowed (map lower scheme) ≡ true
  pub is_netloc : ends_host first ≡ false

split_colon : (p : ℕ → Bool) (cs : List ℕ) → take_until p cs ++ drop_until p cs ≡ cs
split_colon p [] = refl
split_colon p (c ∷ cs) = ground (arith, split_colon p cs)

found_colon : (cs : List ℕ) (c : ℕ) (rest : List ℕ) → drop_until is_colon cs ≡ c ∷ rest → c ≡ b':'
found_colon [] c rest h = ground arith
found_colon (d ∷ cs) c rest h = ground (arith, found_colon cs c rest)

-- What stands behind the scheme of a link that is let through.
host_of :
    (rest : List ℕ)
    → is_empty_host (split_netloc rest) ≡ false
    → (h : ℕ) × (r : List ℕ) × (rest ≡ b'/' ∷ b'/' ∷ h ∷ r) × (ends_host h ≡ false)
host_of [] e = cc
host_of (a ∷ []) e = cc
host_of (a ∷ b ∷ []) e = absurd (ground arith)
host_of (a ∷ b ∷ h ∷ r) e = (h, r, ground arith, ground arith)

module _ (malformed : List ℕ → Bool) where
  decide-ok :
      (candidate : String) (s : List ℕ × List ℕ) (r : String)
      → decide malformed candidate s ≡ ok r
      → (candidate ≡ r)
        × (is_allowed s.0 ≡ true)
        × (is_empty_host (split_netloc s.1) ≡ false)
        × (malformed (split_netloc s.1) ≡ false)
  decide-ok candidate (scheme, rest) r h = (ground arith, ground arith, ground arith, ground arith)

  decide_good :
      (candidate : String) (scheme rest : List ℕ)
      → is_allowed scheme ≡ true
      → is_empty_host (split_netloc rest) ≡ false
      → decide malformed candidate (scheme, rest)
        ≡ (if malformed (split_netloc rest) then err value_error else ok candidate)
  decide_good candidate scheme rest k e = rw (k, e)

split_at-IsWebAddress :
    (cs pre rest : List ℕ)
    → pre ++ rest ≡ cs
    → ((c : ℕ) (r : List ℕ) → rest ≡ c ∷ r → c ≡ b':')
    → is_allowed (split_at cs pre rest).0 ≡ true
    → is_empty_host (split_netloc (split_at cs pre rest).1) ≡ false
    → IsWebAddress cs
split_at-IsWebAddress cs pre [] e f k h = absurd (cc)
split_at-IsWebAddress cs pre (c ∷ rest) e f k h = elim (Bool-cases (names_scheme pre)) [
  | inr bad ↦ let k' = (rw bad at k) in absurd (cc k')
  | inl good ↦
      let k' = (rw good at k) in
      let (x, r, shape, outside) = host_of rest (rw good at h) in
      record {
        scheme = pre;
        first = x;
        rest = r;
        whole = sym e ∙ ap (λ (t : List ℕ). pre ++ t) (cc (f c rest refl, shape));
        known = k';
        is_netloc = outside;
      }
]

all_small :
    (s t : List ℕ)
    → all_of (λ c. leb b'a' c && leb c b'z') t ≡ true
    → same_codes (map lower s) t ≡ true
    → all_of is_letter s ≡ true
all_small [] [] h e = refl
all_small [] (b ∷ t) h e = cc
all_small (a ∷ s) [] h e = cc
all_small (a ∷ s) (b ∷ t) h e = ground (arith, all_small s t)

scheme_letters : (s : List ℕ) → is_allowed (map lower s) ≡ true → all_of is_letter s ≡ true
scheme_letters s h = elim (Bool-cases (same_codes (map lower s) http)) [
  | inl plain ↦ all_small s http refl plain
  | inr other ↦ all_small s https refl (rw other at h)
]

letters_scheme : (s : List ℕ) → all_of is_letter s ≡ true → all_of is_scheme_char s ≡ true
letters_scheme [] h = refl
letters_scheme (c ∷ s) h = ground (arith, letters_scheme s)

names_letters : (s : List ℕ) → is_allowed (map lower s) ≡ true → names_scheme s ≡ true
names_letters [] h = cc
names_letters (c ∷ s) h =
    let all = scheme_letters (c ∷ s) h in let more = letters_scheme (c ∷ s) all in ground arith

take_scheme : (s r : List ℕ) → all_of is_letter s ≡ true → take_until is_colon (s ++ b':' ∷ r) ≡ s
take_scheme [] r h = refl
take_scheme (c ∷ s) r h = ground (arith, take_scheme s r)

drop_scheme :
    (s r : List ℕ) → all_of is_letter s ≡ true → drop_until is_colon (s ++ b':' ∷ r) ≡ b':' ∷ r
drop_scheme [] r h = refl
drop_scheme (c ∷ s) r h = ground (arith, drop_scheme s r)

host_found :
    (h : ℕ) (r : List ℕ)
    → ends_host h ≡ false
    → is_empty_host (split_netloc (b'/' ∷ b'/' ∷ h ∷ r)) ≡ false
host_found h r e = rw e

split-address :
    (s : List ℕ) (h : ℕ) (r : List ℕ)
    → is_allowed (map lower s) ≡ true
    → split_scheme (s ++ b':' ∷ b'/' ∷ b'/' ∷ h ∷ r) ≡ (map lower s, b'/' ∷ b'/' ∷ h ∷ r)
unfolding split_scheme
split-address s h r k =
    rw (
      take_scheme s _ (scheme_letters s k),
      drop_scheme s _ (scheme_letters s k),
      names_letters s k,
    )

module _ (malformed : List ℕ → Bool) (url : String) where
  accepted-address :
      (r : String)
      → validate_delivery_url malformed url ≡ ok r
      → (strip url ≡ r)
        × IsWebAddress (cleaned (strip url))
        × (malformed (split_netloc (split_scheme (cleaned (strip url))).1) ≡ false)
  unfolding validate_delivery_url
  accepted-address r h =
      let cs = cleaned (strip url) in
      let (same, k, e, fine) = decide-ok malformed (strip url) (split_scheme cs) r h in
      (
        same,
        split_at-IsWebAddress cs (take_until is_colon cs) (drop_until is_colon cs)
            (split_colon is_colon cs) (found_colon cs) k e,
        fine,
      )

  address-accepted :
      IsWebAddress (cleaned (strip url))
      → malformed (split_netloc (split_scheme (cleaned (strip url))).1) ≡ false
      → validate_delivery_url malformed url ≡ ok (strip url)
  unfolding validate_delivery_url
  address-accepted a fine =
      let host = b'/' ∷ b'/' ∷ a.first ∷ a.rest in
      let good =
        decide_good malformed (strip url) (map lower a.scheme) host a.known
          (host_found a.first a.rest a.is_netloc) in
      let split = split-address a.scheme a.first a.rest a.known in
      let fine' = (rw (a.whole, split) at fine) in rw (a.whole, split) (good ∙ rw fine')

  -- `_validate_delivery_url` returns a text for a link exactly if the text is the link without
  -- surrounding whitespace, what `urlparse` reads of it is `http` or `https` in either case, a colon,
  -- two slashes and a network location that is not empty, though its host may be, and `urlparse` does not
  -- refuse the network location.
  pub validate_delivery_url-IsWebAddress :
      (r : String)
      → (validate_delivery_url malformed url ≡ ok r) ↔ (
          (strip url ≡ r)
          × IsWebAddress (cleaned (strip url))
          × (malformed (split_netloc (split_scheme (cleaned (strip url))).1) ≡ false))
  validate_delivery_url-IsWebAddress r =
      (accepted-address r, λ h. address-accepted h.1 h.2 ∙ ap ok h.0)

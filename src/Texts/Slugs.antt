-- ===== src/Texts/Slugs.antt =====
-- `normalise_slug` of backend/app/domain/slug.py, beside the pattern that the database enforces.
use tg_bot.Base.{
  String, ◌≡◌, refl, sym, ap, Bool, true, false, ◌||◌, if◌then◌else◌, arith, ◌↔◌, inl, inr,
  Bool-cases,
}
use tg_bot.Errors.{invalid_slug}
use tg_bot.World.Actions.{Result, ok, err}
use tg_bot.Domain.Slug.{codes, is_slug, matches_slug_pattern, is_valid_slug}
use tg_bot.Texts.Strip.{strip, strip_idem, strip-chop}

unfoldable pub normalise_slug : String → Result String
normalise_slug value =
    let candidate = strip value in
    if is_valid_slug candidate then ok candidate else err invalid_slug

-- On a stripped text, Python's pattern and PostgreSQL's agree.
valid-strip : (value : String) → is_valid_slug (strip value) ≡ matches_slug_pattern (strip value)
unfolding is_valid_slug matches_slug_pattern
valid-strip value = rw (strip-chop value) (or_self (is_slug (codes (strip value))))
  where
    or_self : (b : Bool) → (b || b) ≡ b
    or_self true = refl
    or_self false = refl

-- By the pattern that the database enforces.
pub normalise_slug_lem :
    (value : String)
    → normalise_slug value
      ≡ (if matches_slug_pattern (strip value) then ok (strip value) else err invalid_slug)
unfolding normalise_slug
normalise_slug_lem value = rw (valid-strip value)

-- `normalise_slug` returns a text exactly if that is the value without surrounding whitespace and
-- matches the pattern of the database column's check; it refuses a value, with InvalidSlugError, exactly
-- when the value without surrounding whitespace does not match; and what it makes of a value it makes of the
-- stripped value, so a slug that came out goes in again unchanged.
pub normalise_slug-strip :
    (value slug : String)
    → ((normalise_slug value ≡ ok slug)
        ↔ ((slug ≡ strip value) × (matches_slug_pattern slug ≡ true)))
      × ((normalise_slug value ≡ err invalid_slug) ↔ (matches_slug_pattern (strip value) ≡ false))
      × (normalise_slug (strip value) ≡ normalise_slug value)
normalise_slug-strip value slug = elim (Bool-cases (matches_slug_pattern (strip value))) [
  | inl good ↦ (
    (
      λ h.
          let e = (rw (normalise_slug_lem value, good) at h) in
          let same : slug ≡ strip value = ground arith in (same, rw same good),
      λ h. rw (normalise_slug_lem value, good) (ap ok (sym h.0)),
    ),
    (λ h. let e = (rw (normalise_slug_lem value, good) at h) in absurd (cc e), λ h. absurd (cc)),
    twice,
  )
  | inr bad ↦ (
    (
      λ h. let e = (rw (normalise_slug_lem value, bad) at h) in absurd (cc e),
      λ h. let m = (rw h.0 at h.1) in absurd (cc),
    ),
    (λ h. bad, λ h. rw (normalise_slug_lem value, bad)),
    twice,
  )
]
  where
    twice : normalise_slug (strip value) ≡ normalise_slug value
    twice = rw (normalise_slug_lem (strip value), strip_idem value, ← normalise_slug_lem value)

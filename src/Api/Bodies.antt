-- ===== src/Api/Bodies.antt =====
-- A partial update and the request body that asks for it say the same.
use tg_bot.Base.{◌≡◌, refl, true, false, Option, none, some, arith, inl, inr, Bool-cases, ◌↔◌, sym}
use tg_bot.Domain.{Maybe, unset, given, ProductUpdate}
use tg_bot.Api.Schemas.{ProductPatchRequest, is_null, supplied, rejects_nulls, to_update}

module _ {A : Type 0} where
  -- the field of a body that asks for a change
  abbrev pub sent : Maybe A → Maybe (Option A)
  sent unset = unset
  sent (given a) = given (some a)

  supplied-sent : (m : Maybe A) → supplied (sent m) ≡ m
  supplied-sent unset = refl
  supplied-sent (given a) = refl

  sent-is_null : (m : Maybe A) → is_null (sent m) ≡ false
  sent-is_null unset = refl
  sent-is_null (given a) = refl

  sent-supplied : (m : Maybe (Option A)) → is_null m ≡ false → sent (supplied m) ≡ m
  sent-supplied unset h = refl
  sent-supplied (given none) h = cc
  sent-supplied (given (some a)) h = refl

abbrev pub as_body : ProductUpdate → ProductPatchRequest
as_body u = record {
  slug = sent u.slug;
  title = sent u.title;
  description = sent u.description;
  delivery_url = sent u.delivery_url;
  photo_file_id = u.photo_file_id;
  price_stars = u.price_stars;
  price_usdt = u.price_usdt;
  is_active = sent u.is_active;
}

as_body-supplied :
    (b : ProductPatchRequest) (u : ProductUpdate)
    → rejects_nulls b ≡ false
    → to_update b ≡ some u
    → as_body u ≡ b
unfolding to_update
as_body-supplied b u fine e =
    let a1 = sent-supplied b.slug (ground arith) in
    let a2 = sent-supplied b.title (ground arith) in
    let a3 = sent-supplied b.description (ground arith) in
    let a4 = sent-supplied b.delivery_url (ground arith) in
    let a5 = sent-supplied b.is_active (ground arith) in ground arith

refused_null : (b : ProductPatchRequest) → rejects_nulls b ≡ true → to_update b ≡ none
unfolding to_update
refused_null b h = rw h

-- Every partial update has exactly one request body that `to_update` turns into it, where the changed fields are
-- sent with their values and the others are left out: nothing that the administrator leaves out is
-- changed or cleared, and a null clears the photo or a price.
pub to_update-as_body :
    (u : ProductUpdate) (b : ProductPatchRequest) → (to_update b ≡ some u) ↔ (b ≡ as_body u)
unfolding to_update
to_update-as_body u b = (
  λ e. elim (Bool-cases (rejects_nulls b)) [
    | inl null ↦ let bad = refused_null b null in absurd (cc (bad, e))
    | inr fine ↦ sym (as_body-supplied b u fine e)
  ],
  λ h. rw h (simp (sent-is_null, supplied-sent)),
)

-- ===== src/Api/Statuses.antt =====
-- When the product endpoints of the administration answer with 500.
use tg_bot.Base.{
  ℕ, ◌%◌, ◌<◌, ◌≡◌, ◌≢◌, ◌⊎◌, find, refl, Bool, true, not, Option, none, some, or_else, List,
  all_of, arith, inl, inr, Bool-cases, Option-cases, ◌==◌,
}
use tg_bot.Errors.{Error, status_code, value_error, data_error, product_not_found}
use tg_bot.Domain.{Uuid, Maybe, unset, given, ProductUpdate, draft_is_priced}
use tg_bot.World.{
  Env, Enforces, World, Result, ok, err, ◌>>=◌, pure, positive_price, proceed, is_product,
}
use tg_bot.Services.ProductService
use tg_bot.Repository.CatalogTable
use tg_bot.Repository.CatalogTable.{cents, numeric, written}
use tg_bot.Admin.Tokens.{AdminIdentity}
use tg_bot.Sound.Rows.{IsSound}
use tg_bot.Catalog.Refusals.{IsForeseen, positive_change}
use tg_bot.Catalog.Changes.{update-IsForeseen, create-IsForeseen}
use tg_bot.Api.Schemas.{
  ProductPatchRequest, ProductCreateRequest, accepts_patch, accepts_create, to_update, to_draft,
  rejects_nulls, is_empty_patch, null_or, absent_or, usdt_field,
}
use tg_bot.Api.Endpoints.{post, patch, respond, endpoint}
use tg_bot.Api.Access.{app_error-status}

-- The schema lets whole cents through only.
null_cents : (p : Option ℕ) → null_or usdt_field p ≡ true → positive_price (numeric p) ≡ true
null_cents none h = refl
null_cents (some a) h =
    let cent : 0 < a = ground arith in
    let whole : a % 10000 ≡ 0 = ground arith in let kept : 0 < cents a = omega arith in ground arith

absent_cents :
    (m : Maybe (Option ℕ))
    → absent_or (null_or usdt_field) m ≡ true
    → positive_change (written m) ≡ true
absent_cents unset h = refl
absent_cents (given p) h = null_cents p h

accepted_draft :
    (b : ProductCreateRequest)
    → accepts_create b ≡ true
    → (draft_is_priced (to_draft b) ≡ true)
      × (positive_price b.price_stars ≡ true)
      × (positive_price (numeric b.price_usdt) ≡ true)
unfolding accepts_create to_draft
accepted_draft b h = (ground arith, ground arith, null_cents b.price_usdt (ground arith))

accepted_update :
    (b : ProductPatchRequest) (u : ProductUpdate)
    → accepts_patch b ≡ true
    → to_update b ≡ some u
    → (positive_change u.price_stars ≡ true) × (positive_change (written u.price_usdt) ≡ true)
unfolding accepts_patch to_update
accepted_update b u h e = elim (Bool-cases (rejects_nulls b)) [
  | inl null ↦ let bad = (rw null at e) in absurd (cc bad)
  | inr fine ↦
      let same = (rw fine at e) in
      let stars : b.price_stars ≡ u.price_stars = ground arith in
      let usdt : b.price_usdt ≡ u.price_usdt = ground arith in
      (rw (← stars) (ground arith), rw (← usdt) (absent_cents b.price_usdt (ground arith)))
]

module _ {A : Type 0} where
  responded :
      (n : ℕ) (r : Result A × World)
      → n ≢ 500
      → (respond (proceed (λ _. pure n) r)).0 ≡ 500
      → (e : Error) × (r.0 ≡ err e) × (or_else (status_code e) 500 ≡ 500)
  unfolding pure
  responded n (ok a, w) ne h = absurd (ne h)
  responded n (err e, w) ne h = (e, refl, h)

foreseen_status :
    (e : Error)
    → IsForeseen e
    → or_else (status_code e) 500 ≡ 500
    → (e ≡ value_error) ⊎ (e ≡ data_error)
foreseen_status e (inl app) h = absurd (app_error-status e app h)
foreseen_status e (inr same) h = same

module _ {A : Type 0} where
  one_of :
      (r : Result A) (e : Error)
      → r ≡ err e
      → (e ≡ value_error) ⊎ (e ≡ data_error)
      → (r ≡ err value_error) ⊎ (r ≡ err data_error)
  one_of r e raised (inl same) = inl (rw (← same) raised)
  one_of r e raised (inr same) = inr (rw (← same) raised)

get-found :
    (id : Uuid) (w : World) (e : Error)
    → (ProductService.get id w).0 ≡ err e
    → e ≡ product_not_found
unfolding ProductService.get CatalogTable.get ◌>>=◌
get-found id w e h = elim (Option-cases (find (is_product id) w.db.products)) [
  | inl missing ↦ let eq = (rw missing at h) in ground arith
  | inr (p, found) ↦ let eq = (rw found at h) in absurd (cc eq)
]

module _ (env : Env) (pg : Enforces env) (malformed : List ℕ → Bool) where
  -- Where the database enforces the constraints and the tables are sound: an update of a product that
  -- gets past the authentication is answered with 500 only if its body asks for an update that the
  -- product service ends with the ValueError of a link that `urlparse` cannot read, or with the refusal
  -- of PostgreSQL or its driver to store a value.
  pub update_product-status :
      (admin : AdminIdentity) (id : Uuid) (body : ProductPatchRequest) (w : World)
      → IsSound w.db
      → (respond (endpoint env malformed (ok admin) (patch id body) w)).0 ≡ 500
      → (u : ProductUpdate) × (to_update body ≡ some u)
        × (((ProductService.update env malformed id u w).0 ≡ err value_error)
            ⊎ ((ProductService.update env malformed id u w).0 ≡ err data_error))
  unfolding endpoint ◌>>=◌
  update_product-status admin id body w s h = elim (Bool-cases (accepts_patch body)) [
    | inr bad ↦ let e = (rw bad at h) in absurd (omega arith)
    | inl good ↦ elim (Option-cases (to_update body)) [
      | inl null ↦ let e = (rw (good, null) at h) in absurd (omega arith)
      | inr (u, asked) ↦ elim (Bool-cases (is_empty_patch body)) [
        | inl empty ↦
            let h' = (rw (good, asked, empty) at h) in
            let (e, raised, is500) = responded 200 (ProductService.get id w) (omega arith) h' in
            let miss = get-found id w e raised in
            let bad : or_else (status_code product_not_found) 500 ≡ 500 = rw (← miss) is500 in
            absurd (app_error-status product_not_found refl bad)
        | inr changed ↦
            let h' = (rw (good, asked, changed) at h) in
            let (e, raised, is500) =
              responded 200 (ProductService.update env malformed id u w) (omega arith) h' in
            let (stars, usdt) = accepted_update body u good asked in
            let why =
              foreseen_status e (update-IsForeseen env pg malformed id u w e s stars usdt raised)
                is500 in
            (u, asked, one_of _ e raised why)
      ]
    ]
  ]

  -- Where the database enforces the constraints: a request to create a product that gets past the
  -- authentication is answered with 500 only if the product service ends it with the ValueError of a
  -- link that `urlparse` cannot read, or with the refusal of PostgreSQL or its driver to store a value,
  -- provided that no product bears the identifier drawn for the new one.
  pub create_product-status :
      (admin : AdminIdentity) (body : ProductCreateRequest) (w : World)
      → all_of (λ q. not (env.uuid4 w.tick == q.id)) w.db.products ≡ true
      → (respond (endpoint env malformed (ok admin) (post body) w)).0 ≡ 500
      → ((ProductService.create env malformed (to_draft body) w).0 ≡ err value_error)
        ⊎ ((ProductService.create env malformed (to_draft body) w).0 ≡ err data_error)
  unfolding endpoint ◌>>=◌ to_draft
  create_product-status admin body w fresh h = elim (Bool-cases (accepts_create body)) [
    | inr bad ↦ let e = (rw bad at h) in absurd (omega arith)
    | inl good ↦
        let h' = (rw good at h) in
        let (e, raised, is500) =
          responded 201 (ProductService.create env malformed (to_draft body) w) (omega arith) h' in
        let (priced, stars, usdt) = accepted_draft body good in
        let why =
          foreseen_status e
            (create-IsForeseen env pg malformed (to_draft body) w e priced stars usdt fresh raised)
            is500 in
        one_of _ e raised why
  ]

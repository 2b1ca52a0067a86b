-- ===== src/Payment/HandOver.antt =====
-- `_deliver` of backend/app/services/delivery.py: what a delivery that succeeds leaves behind, and what
-- a delivery of a delivered purchase does.
use tg_bot.Sound.Rows.{IsSound, IsPurchaseRow}
use tg_bot.Base.{
  All-find, ◌+◌, ◌≡◌, refl, subst, ap, ◌∙◌, Bool, true, false, Option, none, some, find, is_some,
  arith, inl, inr, Bool-cases, Option-cases,
}
use tg_bot.Domain.{
  Uuid, delivered, is_delivered, Purchase, DeliveryResult, already_delivered, succeeded,
  delivery_lock_key,
}
use tg_bot.World.{Env, World, ok, ◌>>=◌, locked, has_id, is_product, is_user}
use tg_bot.World.Inversion.{bind-ok, pure-ok, unit_of_work-ok, locked-ok}
use tg_bot.Repository.PurchaseTable
use tg_bot.Repository.CatalogTable
use tg_bot.Services.PurchaseService
use tg_bot.Services.DeliveryService.{
  Context, load_context, record_delivery, hand_over, deliver, deliver_purchase,
}
use tg_bot.Payment.Stored.{IsStored, mark_delivered-ok}

is_some-some : {A : Type 0} (o : Option A) → is_some o ≡ true → (a : A) × (o ≡ some a)
is_some-some none h = cc
is_some-some (some a) h = (a, refl)

-- The context of a purchase: its row, its product and its buyer, and nothing is changed.
pub load_context-ok :
    (id : Uuid) (w : World) (c : Context) (w' : World)
    → load_context id w ≡ (ok c, w')
    → (find (has_id id) w.db.purchases ≡ some c.purchase) × (w ≡ w')
unfolding load_context PurchaseTable.get CatalogTable.get CatalogTable.get_user ◌>>=◌
load_context-ok id w c w' h = elim (Option-cases (find (has_id id) w.db.purchases)) [
  | inl missing ↦ let bad = (rw missing at h) in absurd (cc)
  | inr (p, e) ↦ elim (Option-cases (find (is_product p.product_id) w.db.products)) [
    | inl missing ↦ let bad = (rw (e, missing) at h) in absurd (cc)
    | inr (product, ep) ↦ elim (Option-cases (find (is_user p.user_id) w.db.users)) [
      | inl missing ↦ let bad = (rw (e, ep, missing) at h) in absurd (cc)
      | inr (user, eu) ↦
          let done = (rw (e, ep, eu) at h) in
          let same : p ≡ c.purchase = ground arith in (e ∙ ap some same, ground arith)
    ]
  ]
]

-- On sound tables the context of a stored purchase is always found: its product and its buyer exist.
pub load_context_sound :
    (w : World) (q : Purchase)
    → IsSound w.db
    → IsStored w q
    → (c : Context) × (load_context q.id w ≡ (ok c, w))
      × (c.purchase ≡ q)
      × (find (is_product q.product_id) w.db.products ≡ some c.product)
      × (find (is_user q.user_id) w.db.users ≡ some c.user)
unfolding load_context PurchaseTable.get CatalogTable.get CatalogTable.get_user ◌>>=◌
load_context_sound w q s e =
    let row =
      All-find (IsPurchaseRow w.db.products w.db.users) (has_id q.id) w.db.purchases q s.purchases
        e in
    let (product, ep) = is_some-some (find (is_product q.product_id) w.db.products) row.product in
    let (user, eu) = is_some-some (find (is_user q.user_id) w.db.users) row.buyer in
    (record { purchase = q; product = product; user = user }, rw (e, ep, eu), refl, ep, eu)

-- The purchase with this id is stored as delivered.
abbrev pub IsDelivered : World → Uuid → Type 0
IsDelivered w id =
    (q : Purchase) × (find (has_id id) w.db.purchases ≡ some q) × (q.status ≡ delivered)

module _ (env : Env) where
  record_delivery-ok :
      (c : Context) (id : Uuid) (result : DeliveryResult) (w : World) (r : DeliveryResult)
      (w' : World)
      → is_delivered c.purchase.status ≡ false
      → record_delivery env c id result w ≡ (ok r, w')
      → succeeded r ≡ true
      → IsDelivered w' id
  unfolding record_delivery PurchaseService.mark_delivered
  record_delivery-ok c id result w r w' fresh h good = elim (Bool-cases (succeeded result)) [
    | inl reached ↦
        let (q, w₁, marking, rest) = bind-ok _ _ w r w' (rw (reached, fresh) at h) in
        let (store, at_id, status) =
          mark_delivered-ok env id _ none w q w₁ (unit_of_work-ok _ w q w₁ marking) in
        let (equal, here) = pure-ok result r w₁ w' rest in
        (
          q,
          subst (λ v. find (has_id id) v.db.purchases ≡ some q) here
              (subst (λ k. find (has_id k) w₁.db.purchases ≡ some q) at_id store),
          status,
        )
    | inr lost ↦
        let (equal, here) = pure-ok result r w w' (rw lost at h) in
        let bad = (rw equal at lost) in absurd (cc (bad, good))
  ]

  hand_over-ok :
      (id : Uuid) (repeat : Bool) (w : World) (r : DeliveryResult) (w' : World)
      → hand_over env id repeat false w ≡ (ok r, w')
      → succeeded r ≡ true
      → IsDelivered w' id
  unfolding hand_over
  hand_over-ok id repeat w r w' h good =
      let (c, w₁, loading, rest) = bind-ok _ _ w r w' h in
      let (found, here) = load_context-ok id w c w₁ loading in
      elim (Bool-cases (is_delivered c.purchase.status)) [
        | inl done ↦
            let (equal, there) = pure-ok _ r w₁ w' (rw done at rest) in
            (
              c.purchase,
              subst (λ v. find (has_id id) v.db.purchases ≡ some c.purchase) (here ∙ there) found,
              ground arith,
            )
        | inr fresh ↦
            let (_, w₂, guarded, more) = bind-ok _ _ w₁ r w' (rw fresh at rest) in
            let (result, w₃, sending, last) = bind-ok _ _ w₂ r w' more in
            record_delivery-ok c id result w₃ r w' fresh last good
      ]

  -- A delivery that succeeds leaves the purchase stored as delivered.
  pub deliver_purchase-ok :
      (id : Uuid) (w : World) (r : DeliveryResult) (w' : World)
      → deliver_purchase env id w ≡ (ok r, w')
      → succeeded r ≡ true
      → IsDelivered w' id
  unfolding deliver_purchase deliver
  deliver_purchase-ok id w r w' h good =
      let (free, body) = locked-ok env _ _ w r w' h in
      hand_over-ok id false (record w { tick = w.tick + 1 }) r w' body good

  -- A stored purchase that is delivered already is not delivered again: nothing is sent or changed.
  pub deliver_purchase-delivered :
      (w : World) (q : Purchase)
      → IsSound w.db
      → IsStored w q
      → q.status ≡ delivered
      → env.busy w.tick (delivery_lock_key q.id) ≡ false
      → deliver_purchase env q.id w ≡ (
        ok (record { status = already_delivered; purchase_id = q.id; attempts = 0; error = none }),
        record w { tick = w.tick + 1 },
      )
  unfolding deliver_purchase deliver hand_over locked ◌>>=◌
  deliver_purchase-delivered w q s e status free =
      let (c, loaded, same, _, _) = load_context_sound (record w { tick = w.tick + 1 }) q s e in
      let done : is_delivered c.purchase.status ≡ true = ground arith in rw (free, loaded, done)

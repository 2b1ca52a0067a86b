-- ===== src/Payment/Accepted.antt =====
-- Which rows of the purchases PostgreSQL takes.
use tg_bot.Base.{
  ◌≡◌, refl, Bool, true, false, String, Option, none, some, List, [], ◌∷◌, All, All-select,
  All-find, all_of, find, ◌==◌, str_eq, eq_iff, arith, inl, inr, Bool-cases, Option-cases,
}
use tg_bot.Errors.{
  Constraint, pk_purchases, uq_purchases_provider_external_id, uq_purchases_user_product_paid,
  uq_purchases_telegram_charge_id, amount_positive, paid_at_present, delivery_complete,
  fk_purchases_user_id, fk_purchases_product_id,
}
use tg_bot.Domain.{Purchase}
use tg_bot.World.{Env, Enforces, Db, purchase_holds, has_id, same_text}
use tg_bot.Repository.PurchaseTable.{without}
use tg_bot.Sound.Rows.{Apart, AreApart, IsPurchaseRow}

module _ {A : Type 0} where
  pub all_of-All :
      (P : A → Type 0) (t : A → Bool)
      → ((x : A) → P x → t x ≡ true)
      → (xs : List A) → All P xs
      → all_of t xs ≡ true
  all_of-All P t f [] h = refl
  all_of-All P t f (x ∷ xs) h = let e = f x h.0 in rw e (all_of-All P t f xs h.1)

  pub All-both :
      (P Q R : A → Type 0)
      → ((x : A) → P x → Q x → R x)
      → (xs : List A) → All P xs
      → All Q xs
      → All R xs
  All-both P Q R f [] h k = tt
  All-both P Q R f (x ∷ xs) h k = (f x h.0 k.0, All-both P Q R f xs h.1 k.1)

  pub absent-All : (t : A → Bool) (xs : List A) → find t xs ≡ none → All (λ x. t x ≡ false) xs
  absent-All t [] e = tt
  absent-All t (x ∷ xs) e = elim (Bool-cases (t x)) [
    | inl hit ↦ absurd (ground arith)
    | inr miss ↦ (miss, absent-All t xs (rw miss at e))
  ]

pub str_eq_comm : (a b : String) → str_eq a b ≡ str_eq b a
str_eq_comm a b = ground (arith, eq_iff a b, eq_iff b a)

same_text_comm : (a b : Option String) → same_text a b ≡ same_text b a
same_text_comm none none = refl
same_text_comm none (some b) = refl
same_text_comm (some a) none = refl
same_text_comm (some a) (some b) = str_eq_comm a b

Apart-comm : (p q : Purchase) → Apart p q → Apart q p
Apart-comm p q a = record {
  ids = let h = a.ids in ground arith;
  invoices = let h = a.invoices in ground (arith, str_eq_comm p.external_id q.external_id);
  owners = let h = a.owners in ground arith;
  charges = rw (same_text_comm q.telegram_charge_id p.telegram_charge_id) a.charges;
}

-- A stored row stands apart from all the others.
pub Apart-from_others :
    (p : Purchase) (ps : List Purchase)
    → AreApart ps
    → find (has_id p.id) ps ≡ some p
    → All (Apart p) (without p.id ps)
Apart-from_others p [] h e = tt
Apart-from_others p (r ∷ ps) h e = elim (Bool-cases (r.id == p.id)) [
  | inl hit ↦ let same : r ≡ p = ground arith in rw hit (All-select (Apart p) _ ps (rw same at h.0))
  | inr miss ↦
      let there = (rw miss at e) in
      let apart = All-find (Apart r) (has_id p.id) ps p h.0 there in
      rw miss (Apart-comm r p apart, Apart-from_others p ps h.1 there)
]

-- Every constraint holds of a row that fits.
fits-holds :
    (db : Db) (rows : List Purchase) (p : Purchase)
    → All (Apart p) rows
    → IsPurchaseRow db.products db.users p
    → (c : Constraint) → purchase_holds c db rows p ≡ true
unfolding purchase_holds
fits-holds db rows p a f pk_purchases =
    all_of-All (Apart p) _ (λ q h. let e = h.ids in ground arith) rows a
fits-holds db rows p a f uq_purchases_provider_external_id =
    all_of-All (Apart p) _ (λ q h. let e = h.invoices in ground arith) rows a
fits-holds db rows p a f uq_purchases_user_product_paid =
    all_of-All (Apart p) _ (λ q h. let e = h.owners in ground arith) rows a
fits-holds db rows p a f uq_purchases_telegram_charge_id =
    all_of-All (Apart p) _ (λ q h. let e = h.charges in ground arith) rows a
fits-holds db rows p a f amount_positive = let h = f.amount in ground arith
fits-holds db rows p a f paid_at_present = f.paid
fits-holds db rows p a f delivery_complete = f.delivered
fits-holds db rows p a f fk_purchases_user_id = f.buyer
fits-holds db rows p a f fk_purchases_product_id = f.product
fits-holds db rows p a f _ = refl

module _ (env : Env) (pg : Enforces env) where
  -- PostgreSQL takes a row that fits.
  pub fits-accepted :
      (db : Db) (rows : List Purchase) (p : Purchase)
      → All (Apart p) rows
      → IsPurchaseRow db.products db.users p
      → env.purchase_violation db rows p ≡ none
  fits-accepted db rows p a f = elim (Option-cases (env.purchase_violation db rows p)) [
    | inl accepted ↦ accepted
    | inr (c, refused) ↦
        let bad = pg.purchase_blamed db rows p c refused in
        let good = fits-holds db rows p a f c in absurd (cc (bad, good))
  ]

-- ===== src/Sound/Writes.antt =====
-- Every guarded write of the purchase table keeps the tables sound and every purchase on its way.
use tg_bot.Base.{
  ◌+◌, String, ◌≡◌, refl, sym, subst, Bool, true, false, not, Option, none, some, List, find,
  find-test, All-select, ◌==◌, if◌then◌else◌, arith, inl, inr, Bool-cases, Option-cases,
}
use tg_bot.Domain.{
  Uuid, DateTime, paid, delivered, refunded, is_delivered, is_refunded, Purchase, grants,
  PurchaseDraft,
}
use tg_bot.World.{Env, Enforces, World, Run, ◌>>=◌, translating, has_id}
use tg_bot.Repository.PurchaseTable.{
  without, truthy, translate, lock, write, update, insert, create, moment_or_now, note_charge, pay,
  mark_paid, mark_delivered, mark_refunded,
}
use tg_bot.Sound.Rows.{AreApart-select, accepted-Apart, accepted-IsPurchaseRow}
use tg_bot.Sound.Lookup.{find-write, find-insert}
use tg_bot.Sound.Evolution.{
  Keeps-raise, db-raising, Follows, Follows-refl, Later, Evolves, Evolves-refl, Keeps, Keeps-pure,
  keeps_rules,
}

-- `m` changes the tables as an action may, wherever `p` is the stored row of its id.
record KeepsRow {A : Type 0} (p : Purchase) (m : Run A) : Type 0 where
  at : (w : World) → find (has_id p.id) w.db.purchases ≡ some p → Evolves w.db (m w).1.db

module _ {A : Type 0} (p : Purchase) where
  KeepsRow-if :
      (b : Bool) (m n : Run A)
      → (b ≡ true → KeepsRow p m)
      → (b ≡ false → KeepsRow p n)
      → KeepsRow p (if b then m else n)
  KeepsRow-if true m n km kn = km refl
  KeepsRow-if false m n km kn = kn refl

  KeepsRow-Keeps : (m : Run A) → Keeps m → KeepsRow p m
  KeepsRow-Keeps m k = record { at = λ w e. k.at w }

found_row :
    (id : Uuid) (p : Purchase) (ps : List Purchase)
    → find (has_id id) ps ≡ some p
    → find (has_id p.id) ps ≡ some p
found_row id p ps e =
    let same : p.id ≡ id = let t = find-test (has_id id) ps p e in ground arith in
    subst (λ k. find (has_id k) ps ≡ some p) (sym same) e

Keeps-lock :
    {A : Type 0} (id : Uuid) (f : Purchase → Run A)
    → ((p : Purchase) → KeepsRow p (f p))
    → Keeps (lock id >>= f)
unfolding lock ◌>>=◌
Keeps-lock id f k = record {
  at = λ w. elim (Option-cases (find (has_id id) w.db.purchases)) [
    | inl missing ↦ rw missing (Evolves-refl w.db)
    | inr (p, e) ↦ rw e ((k p).at w (found_row id p w.db.purchases e))
  ];
}

module _ (env : Env) (pg : Enforces env) where
  update-KeepsRow : (p p' : Purchase) → p'.id ≡ p.id → Follows p p' → KeepsRow p (update env p')
  unfolding update write ◌>>=◌
  update-KeepsRow p p' same f = record {
    at = λ w e.
        elim (Option-cases (env.purchase_violation w.db (without p'.id w.db.purchases) p')) [
          | inr (c, refused) ↦ rw refused (Evolves-refl w.db)
          | inl accepted ↦ rw accepted (record {
            sound = λ s. record {
              purchases = (
                accepted-IsPurchaseRow env pg w.db _ p' accepted,
                All-select _ _ w.db.purchases s.purchases,
              );
              apart = (
                accepted-Apart env pg w.db _ p' accepted,
                AreApart-select _ w.db.purchases s.apart,
              );
              products = s.products;
              products_apart = s.products_apart;
            };
            purchases = λ id q eq. rw find-write (written w id q e eq);
          })
        ];
  }
    where
      written :
          (w : World) (id : Uuid) (q : Purchase)
          → find (has_id p.id) w.db.purchases ≡ some p
          → find (has_id id) w.db.purchases ≡ some q
          → Later q (if p'.id == id then some p' else find (has_id id) w.db.purchases)
      written w id q e eq = elim (Bool-cases (p'.id == id)) [
        | inl hit ↦
            let at_id : p.id ≡ id = ground arith in
            let old : p ≡ q = let e' = rw at_id at e in ground arith in
            rw hit (p', refl, rw (← old) f)
        | inr miss ↦ rw miss (q, eq, Follows-refl q)
      ]

  insert-Keeps : (p : Purchase) → Keeps (insert env p)
  unfolding insert write ◌>>=◌
  insert-Keeps p = record {
    at = λ w. elim (Option-cases (env.purchase_violation w.db w.db.purchases p)) [
      | inr (c, refused) ↦ rw refused (Evolves-refl w.db)
      | inl accepted ↦ rw accepted (
          let apart = accepted-Apart env pg w.db w.db.purchases p accepted in
          record {
            sound = λ s. record {
              purchases = (accepted-IsPurchaseRow env pg w.db _ p accepted, s.purchases);
              apart = (apart, s.apart);
              products = s.products;
              products_apart = s.products_apart;
            };
            purchases = λ id q eq. (q, find-insert id p q w.db.purchases apart eq, Follows-refl q);
          })
    ];
  }

  pub moment_or_now-Keeps : (t : Option DateTime) → Keeps (moment_or_now env t)
  unfolding moment_or_now
  moment_or_now-Keeps none = search keeps_rules
  moment_or_now-Keeps (some t) = search keeps_rules

  pub create-Keeps : (draft : PurchaseDraft) → Keeps (create env draft)
  unfolding create
  create-Keeps draft = search (keeps_rules, insert-Keeps)

  KeepsRow-moment :
      {A : Type 0} (p : Purchase) (t : Option DateTime) (f : DateTime → Run A)
      → ((m : DateTime) → KeepsRow p (f m))
      → KeepsRow p (moment_or_now env t >>= f)
  unfolding moment_or_now ◌>>=◌
  KeepsRow-moment p none f k = record { at = λ w e. (k _).at (record w { tick = w.tick + 1 }) e }
  KeepsRow-moment p (some t) f k = k t

  KeepsRow-translating :
      {A : Type 0} (p : Purchase) (m : Run A) → KeepsRow p m → KeepsRow p (translating translate m)
  unfolding translating
  KeepsRow-translating p m k = record { at = λ w e. rw db-raising (k.at w e) }

  note_charge-KeepsRow :
      (p : Purchase) (charge : Option String) → KeepsRow p (note_charge env p charge)
  unfolding note_charge
  note_charge-KeepsRow p charge =
      let p' = record p { telegram_charge_id = charge } in
      KeepsRow-if p _ _ _ (λ _. update-KeepsRow p p' refl (ground arith))
        (λ _. KeepsRow-Keeps p _ (Keeps-pure p))

  pay-KeepsRow :
      (p : Purchase) (moment : DateTime) (charge : Option String)
      → grants p ≡ false
      → is_refunded p.status ≡ false
      → KeepsRow p (pay env p moment charge)
  unfolding pay
  pay-KeepsRow p moment charge unpaid kept = KeepsRow-translating p _ (
      update-KeepsRow p
        (record p {
          status = paid;
          paid_at = some moment;
          telegram_charge_id = if truthy charge then charge else p.telegram_charge_id;
        })
        refl (ground arith))

  pub mark_paid-Keeps :
      (id : Uuid) (t : Option DateTime) (charge : Option String) → Keeps (mark_paid env id t charge)
  unfolding mark_paid
  mark_paid-Keeps id t charge = Keeps-lock id _ λ p.
      KeepsRow-if p _ _ _ (λ _. note_charge-KeepsRow p charge)
        (λ unpaid.
          KeepsRow-if p _ _ _ (λ _. KeepsRow-Keeps p _ (Keeps-raise _))
            (λ kept. KeepsRow-moment p t _ (λ m. pay-KeepsRow p m charge unpaid kept)))

  deliver_at-KeepsRow :
      (p : Purchase) (url : String) (moment : DateTime)
      → is_delivered p.status ≡ false
      → not (grants p) ≡ false
      → KeepsRow p (
          update env
            (record p { status = delivered; delivered_url = some url; delivered_at = some moment }))
  deliver_at-KeepsRow p url moment fresh owned =
      update-KeepsRow p
        (record p { status = delivered; delivered_url = some url; delivered_at = some moment }) refl
        (ground arith)

  pub mark_delivered-Keeps :
      (id : Uuid) (url : String) (t : Option DateTime) → Keeps (mark_delivered env id url t)
  unfolding mark_delivered
  mark_delivered-Keeps id url t = Keeps-lock id _ λ p.
      KeepsRow-if p _ _ _ (λ _. KeepsRow-Keeps p _ (Keeps-pure p))
        (λ fresh.
          KeepsRow-if p _ _ _ (λ _. KeepsRow-Keeps p _ (Keeps-raise _))
            (λ owned. KeepsRow-moment p t _ (λ m. deliver_at-KeepsRow p url m fresh owned)))

  pub mark_refunded-Keeps : (id : Uuid) → Keeps (mark_refunded env id)
  unfolding mark_refunded
  mark_refunded-Keeps id = Keeps-lock id _ λ p.
      KeepsRow-if p _ _ _ (λ _. KeepsRow-Keeps p _ (Keeps-pure p))
        (λ _. update-KeepsRow p (record p { status = refunded }) refl (ground arith))

-- ===== src/Payment/Stored.antt =====
-- What the guarded writes of backend/app/infrastructure/db/repositories/purchases.py store.
use tg_bot.Errors.{Error}
use tg_bot.Base.{
  ◌≡◌, refl, sym, subst, true, false, not, String, Option, none, some, ◌∷◌, find, find-test,
  is_some, ◌==◌, arith, inl, inr, Bool-cases, Option-cases, ◌&&◌,
}
use tg_bot.Domain.{Uuid, DateTime, delivered, is_delivered, is_refunded, Purchase, grants}
use tg_bot.World.{Env, World, ok, ◌>>=◌, raise, has_id}
use tg_bot.World.Inversion.{bind-ok, pure-ok, or_raise-ok, translating-ok}
use tg_bot.Repository.PurchaseTable.{
  truthy, without, lock, write, update, note_charge, pay, mark_paid, mark_delivered,
}
use tg_bot.Sound.Lookup.{find-write}

-- `p` is the stored row of its id.
abbrev pub IsStored : World → Purchase → Type 0
IsStored w p = find (has_id p.id) w.db.purchases ≡ some p

pub find_id :
    (id : Uuid) (p : Purchase) (w : World) → find (has_id id) w.db.purchases ≡ some p → p.id ≡ id
find_id id p w e = let t = find-test (has_id id) w.db.purchases p e in ground arith

pub found-IsStored :
    (id : Uuid) (p : Purchase) (w : World) → find (has_id id) w.db.purchases ≡ some p → IsStored w p
found-IsStored id p w e =
    subst (λ k. find (has_id k) w.db.purchases ≡ some p) (sym (find_id id p w e)) e

pub lock-ok :
    (id : Uuid) (w : World) (p : Purchase) (w' : World)
    → lock id w ≡ (ok p, w')
    → (find (has_id id) w.db.purchases ≡ some p) × (w ≡ w')
unfolding lock
lock-ok id w p w' h = or_raise-ok _ _ w w' p h

pub raise-not_ok : {A : Type 0} (e : Error) (a : A) (w w' : World) → raise e w ≡ (ok a, w') → ⊥
unfolding raise
raise-not_ok e a w w' h = cc

module _ (env : Env) where
  update-ok :
      (p : Purchase) (w : World) (q : Purchase) (w' : World)
      → update env p w ≡ (ok q, w')
      → (q ≡ p) × IsStored w' p
  unfolding update write ◌>>=◌
  update-ok p w q w' h =
      elim (Option-cases (env.purchase_violation w.db (without p.id w.db.purchases) p)) [
        | inr (c, refused) ↦ let bad = (rw refused at h) in absurd (cc)
        | inl accepted ↦
            let done = (rw accepted at h) in
            let same : q ≡ p = ground arith in
            let store : w'.db.purchases ≡ p ∷ without p.id w.db.purchases = ground arith in
            (same, rw store (rw find-write (let t : (p.id == p.id) ≡ true = ground arith in rw t)))
      ]

  -- What a confirmed payment leaves behind.
  pub record IsPaidRow (charge : Option String) (id : Uuid) (w : World) (q : Purchase)
      : Type 0 where
    pub stored : IsStored w q
    pub same_id : q.id ≡ id
    pub access : grants q ≡ true
    pub noted : (truthy charge && not (is_some q.telegram_charge_id)) ≡ false

  update-IsPaidRow :
      (charge : Option String) (p : Purchase) (w : World) (q : Purchase) (w' : World)
      → grants p ≡ true
      → (truthy charge && not (is_some p.telegram_charge_id)) ≡ false
      → update env p w ≡ (ok q, w')
      → IsPaidRow charge p.id w' q
  update-IsPaidRow charge p w q w' access noted h =
      let (same, store) = update-ok p w q w' h in
      subst (IsPaidRow charge p.id w') (sym same)
        (record { stored = store; same_id = refl; access = access; noted = noted })

  truthy-is_some : (c : Option String) → truthy c ≡ true → is_some c ≡ true
  truthy-is_some none h = cc
  truthy-is_some (some s) h = refl

  note_charge-ok :
      (p : Purchase) (charge : Option String) (w : World) (q : Purchase) (w' : World)
      → IsStored w p
      → grants p ≡ true
      → note_charge env p charge w ≡ (ok q, w')
      → IsPaidRow charge p.id w' q
  unfolding note_charge
  note_charge-ok p charge w q w' store access h =
      elim (Bool-cases (truthy charge && not (is_some p.telegram_charge_id))) [
        | inl fresh ↦
            update-IsPaidRow charge (record p { telegram_charge_id = charge }) w q w' access
              (ground (arith, truthy-is_some charge)) (rw fresh at h)
        | inr known ↦
            let (same, here) = pure-ok p q w w' (rw known at h) in
            subst (IsPaidRow charge p.id w') same (record {
              stored = subst (λ v. IsStored v p) here store;
              same_id = refl;
              access = access;
              noted = known;
            })
      ]

  pay-ok :
      (p : Purchase) (moment : DateTime) (charge : Option String) (w : World) (q : Purchase)
      (w' : World)
      → pay env p moment charge w ≡ (ok q, w')
      → IsPaidRow charge p.id w' q
  unfolding pay
  pay-ok p moment charge w q w' h =
      update-IsPaidRow charge _ w q w' refl (ground (arith, truthy-is_some charge))
        (translating-ok _ _ w q w' h)

  -- A payment that is confirmed leaves a stored purchase that grants access and carries a charge if
  -- one came with the payment.
  pub mark_paid-ok :
      (id : Uuid) (t : Option DateTime) (charge : Option String) (w : World) (q : Purchase)
      (w' : World)
      → mark_paid env id t charge w ≡ (ok q, w')
      → IsPaidRow charge id w' q
  unfolding mark_paid
  mark_paid-ok id t charge w q w' h =
      let (p, w₁, locked, rest) = bind-ok _ _ w q w' h in
      let (found, same) = lock-ok id w p w₁ locked in
      let store = subst (λ v. IsStored v p) same (found-IsStored id p w found) in
      subst (λ k. IsPaidRow charge k w' q) (find_id id p w found)
        (elim (Bool-cases (grants p)) [
          | inl owned ↦ note_charge-ok p charge w₁ q w' store owned (rw owned at rest)
          | inr unpaid ↦ elim (Bool-cases (is_refunded p.status)) [
            | inl back ↦ let bad = (rw (unpaid, back) at rest) in absurd (raise-not_ok _ _ _ _ bad)
            | inr kept ↦
                let (m, w₂, asked, paying) = bind-ok _ _ w₁ q w' (rw (unpaid, kept) at rest) in
                pay-ok p m charge w₂ q w' paying
          ]
        ])

  -- A recorded delivery leaves the purchase stored as delivered.
  pub mark_delivered-ok :
      (id : Uuid) (url : String) (t : Option DateTime) (w : World) (q : Purchase) (w' : World)
      → mark_delivered env id url t w ≡ (ok q, w')
      → IsStored w' q × (q.id ≡ id) × (q.status ≡ delivered)
  unfolding mark_delivered
  mark_delivered-ok id url t w q w' h =
      let (p, w₁, locked, rest) = bind-ok _ _ w q w' h in
      let (found, same) = lock-ok id w p w₁ locked in
      let store = subst (λ v. IsStored v p) same (found-IsStored id p w found) in
      let at_id = find_id id p w found in
      elim (Bool-cases (is_delivered p.status)) [
        | inl done ↦
            let (equal, here) = pure-ok p q w₁ w' (rw done at rest) in
            subst (λ r. IsStored w' r × (r.id ≡ id) × (r.status ≡ delivered)) equal
              (subst (λ v. IsStored v p) here store, at_id, ground arith)
        | inr fresh ↦ elim (Bool-cases (not (grants p))) [
          | inl unpaid ↦ let bad = (rw (fresh, unpaid) at rest) in absurd (raise-not_ok _ _ _ _ bad)
          | inr owned ↦
              let (m, w₂, asked, writing) = bind-ok _ _ w₁ q w' (rw (fresh, owned) at rest) in
              let (equal, kept) = update-ok _ w₂ q w' writing in
              subst (λ r. IsStored w' r × (r.id ≡ id) × (r.status ≡ delivered)) (sym equal)
                (kept, at_id, refl)
        ]
      ]

-- ===== src/Sound/Expiry.antt =====
-- The UPDATE of `expire_pending` keeps the tables sound, and touches only what is due.
use tg_bot.Base.{◌≡◌, some, List, [], ◌∷◌, map, find, All, arith, inl, inr, Bool-cases, ◌==◌}
use tg_bot.Domain.{Uuid, DateTime, Product, User, Purchase}
use tg_bot.World.{has_id}
use tg_bot.Repository.PurchaseTable.{expire, expire_pending}
use tg_bot.Sound.Rows.{IsPurchaseRow, Apart, AreApart}
use tg_bot.Sound.Evolution.{Follows, Keeps}

module _ (t : DateTime) where
  expire-Apart : (p q : Purchase) → Apart p q → Apart (expire t p) (expire t q)
  expire-Apart p q a = record {
    ids = a.ids;
    invoices = a.invoices;
    owners = let h = a.owners in ground arith;
    charges = a.charges;
  }

  expire-All-Apart :
      (p : Purchase) (ps : List Purchase)
      → All (Apart p) ps
      → All (Apart (expire t p)) (map (expire t) ps)
  expire-All-Apart p [] h = tt
  expire-All-Apart p (q ∷ ps) h = (expire-Apart p q h.0, expire-All-Apart p ps h.1)

  expire-AreApart : (ps : List Purchase) → AreApart ps → AreApart (map (expire t) ps)
  expire-AreApart [] h = tt
  expire-AreApart (p ∷ ps) h = (expire-All-Apart p ps h.0, expire-AreApart ps h.1)

  expire-IsPurchaseRow :
      (products : List Product) (users : List User) (ps : List Purchase)
      → All (IsPurchaseRow products users) ps
      → All (IsPurchaseRow products users) (map (expire t) ps)
  expire-IsPurchaseRow products users [] h = tt
  expire-IsPurchaseRow products users (p ∷ ps) h = (
    record {
      amount = h.0.amount;
      paid = let k = h.0.paid in ground arith;
      delivered = let k = h.0.delivered in ground arith;
      buyer = h.0.buyer;
      product = h.0.product;
    },
    expire-IsPurchaseRow products users ps h.1,
  )

  expire-Follows : (p : Purchase) → Follows p (expire t p)
  expire-Follows p = ground arith

  pub find-expire :
      (id : Uuid) (ps : List Purchase) (p : Purchase)
      → find (has_id id) ps ≡ some p
      → find (has_id id) (map (expire t) ps) ≡ some (expire t p)
  find-expire id [] p e = ground arith
  find-expire id (q ∷ ps) p e = elim (Bool-cases (q.id == id)) [
    | inl hit ↦ let same : q ≡ p = ground arith in rw (hit, same)
    | inr miss ↦ rw miss (find-expire id ps p (rw miss at e))
  ]

  pub expire_pending-Keeps : Keeps (expire_pending t)
  unfolding expire_pending
  expire_pending-Keeps = record {
    at = λ w. record {
      sound = λ s. record {
        purchases = expire-IsPurchaseRow w.db.products w.db.users w.db.purchases s.purchases;
        apart = expire-AreApart w.db.purchases s.apart;
        products = s.products;
        products_apart = s.products_apart;
      };
      purchases = λ id p e. (expire t p, find-expire id w.db.purchases p e, expire-Follows p);
    };
  }

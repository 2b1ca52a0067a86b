-- ===== src/Sound/Catalog.antt =====
-- The writes of the product and user tables keep the tables sound.
use tg_bot.Base.{
  ℕ, ◌≡◌, true, false, not, List, [], ◌∷◌, length, select, find, find-select, is_some, ltb, All,
  All-map, All-select, ◌==◌, arith, inl, inr, Bool-cases, Option-cases,
}
use tg_bot.Domain.{
  Uuid, Product, User, Purchase, ProductDraft, ProductUpdate, UserDraft, apply_changes,
}
use tg_bot.World.{Env, Enforces, ◌>>=◌, is_product, is_user}
use tg_bot.Repository.CatalogTable.{without, sold, columns, delete, write, create, update, upsert}
use tg_bot.Sound.Rows.{
  IsPurchaseRow, IsProductRow, AreProductsApart, AreProductsApart-select, accepted-ProductsApart,
  accepted-IsProductRow,
}
use tg_bot.Sound.Evolution.{
  Keeps-or_raise, Keeps-if, Keeps-pure, Keeps-translating, Follows-refl, Evolves-refl, Keeps,
  Keeps-bind, Keeps-raise_if, Keeps-ask, Keeps-gets, keeps_rules,
}

-- A purchase row stays a row where its buyer and its product stay known.
move_row :
    (products products' : List Product) (users users' : List User) (ps : List Purchase)
    → ((p : Purchase)
        → is_some (find (is_user p.user_id) users) ≡ true
        → is_some (find (is_user p.user_id) users') ≡ true)
    → All
        (λ p.
          is_some (find (is_product p.product_id) products) ≡ true
          → is_some (find (is_product p.product_id) products') ≡ true)
        ps
    → All (IsPurchaseRow products users) ps
    → All (IsPurchaseRow products' users') ps
move_row products products' users users' [] u c h = tt
move_row products products' users users' (p ∷ ps) u c h = (
  record {
    amount = h.0.amount;
    paid = h.0.paid;
    delivered = h.0.delivered;
    buyer = u p h.0.buyer;
    product = c.0 h.0.product;
  },
  move_row products products' users users' ps u c.1 h.1,
)

always {ℓ} : {A : Type ℓ} (P : A → Type 0) → ((a : A) → P a) → (xs : List A) → All P xs
always P f [] = tt
always P f (x ∷ xs) = (f x, always P f xs)

known_product :
    (p : Product) (id : Uuid) (rows : List Product)
    → is_some (find (is_product id) rows) ≡ true
    → is_some (find (is_product id) (p ∷ without p.id rows)) ≡ true
known_product p id rows h = elim (Bool-cases (p.id == id)) [
  | inl hit ↦ rw hit
  | inr miss ↦
      rw (miss, find-select (λ q. not (q.id == p.id)) (is_product id) rows (λ q e. ground arith)) h
]

known_user :
    (u : User) (id : ℕ) (rows : List User)
    → is_some (find (is_user id) rows) ≡ true
    → is_some (find (is_user id) (u ∷ select (λ v. not (v.telegram_id == u.telegram_id)) rows))
      ≡ true
known_user u id rows h = elim (Bool-cases (u.telegram_id == id)) [
  | inl hit ↦ rw hit
  | inr miss ↦
      rw
        (
          miss,
          find-select (λ q. not (q.telegram_id == u.telegram_id)) (is_user id) rows
              (λ q e. ground arith),
        )
        h
]

unsold :
    (id : Uuid) (ps : List Purchase)
    → ltb 0 (length (select (λ p. p.product_id == id) ps)) ≡ false
    → All (λ p. (p.product_id == id) ≡ false) ps
unsold id [] h = tt
unsold id (p ∷ ps) h = elim (Bool-cases (p.product_id == id)) [
  | inl hit ↦ let bad = (rw hit at h) in absurd (ground arith)
  | inr miss ↦ (miss, unsold id ps (rw miss at h))
]

kept_product :
    (id j : Uuid) (rows : List Product)
    → (j == id) ≡ false
    → is_some (find (is_product j) rows) ≡ true
    → is_some (find (is_product j) (without id rows)) ≡ true
kept_product id j rows ne h =
    rw (find-select (λ q. not (q.id == id)) (is_product j) rows (λ q e. ground arith)) h

pub delete-Keeps : (id : Uuid) → Keeps (delete id)
unfolding delete ◌>>=◌
delete-Keeps id = record {
  at = λ w. elim (Option-cases (find (is_product id) w.db.products)) [
    | inl missing ↦ rw missing (Evolves-refl w.db)
    | inr (p, e) ↦ elim (Bool-cases (ltb 0 (sold id w))) [
      | inl any ↦ rw (e, any) (Evolves-refl w.db)
      | inr free ↦
          rw (e, free)
            (record {
              sound = λ s. record {
                purchases =
                    move_row w.db.products (without id w.db.products) w.db.users w.db.users
                      w.db.purchases (λ q h. h)
                      (All-map _ _ (λ q ne h. kept_product id q.product_id w.db.products ne h)
                        w.db.purchases (unsold id w.db.purchases free))
                      s.purchases;
                apart = s.apart;
                products = All-select IsProductRow _ w.db.products s.products;
                products_apart = AreProductsApart-select _ w.db.products s.products_apart;
              };
              purchases = λ j q h. (q, h, Follows-refl q);
            })
    ]
  ];
}

pub upsert-Keeps : (env : Env) (draft : UserDraft) → Keeps (upsert env draft)
unfolding upsert
upsert-Keeps env draft = Keeps-bind _ _ (Keeps-raise_if _ _) λ _.
    Keeps-bind _ _ (Keeps-ask _) λ now. Keeps-bind _ _ (Keeps-gets _) λ before. record {
      at = λ w. record {
        sound = λ s. record {
          purchases =
              move_row w.db.products w.db.products w.db.users _ w.db.purchases
                (λ q h. known_user _ q.user_id w.db.users h) (always _ (λ q h. h) w.db.purchases)
                s.purchases;
          apart = s.apart;
          products = s.products;
          products_apart = s.products_apart;
        };
        purchases = λ j q h. (q, h, Follows-refl q);
      };
    }

module _ (env : Env) (pg : Enforces env) where
  -- A product row that is written beside others, which still hold every product but perhaps its own.
  write-Keeps :
      (others : List Product → List Product) (p : Product)
      → ((ps : List Product) (id : Uuid)
          → is_some (find (is_product id) ps) ≡ true
          → is_some (find (is_product id) (p ∷ others ps)) ≡ true)
      → ((ps : List Product) → All IsProductRow ps → All IsProductRow (others ps))
      → ((ps : List Product) → AreProductsApart ps → AreProductsApart (others ps))
      → Keeps (write env others p)
  unfolding write
  write-Keeps others p known rows apart = record {
    at = λ w. elim (Bool-cases (env.unstorable p)) [
      | inl unfit ↦ rw unfit (Evolves-refl w.db)
      | inr sent ↦ elim (Option-cases (env.product_violation (others w.db.products) p)) [
        | inr (c, refused) ↦ rw (sent, refused) (Evolves-refl w.db)
        | inl accepted ↦
            rw (sent, accepted)
              (record {
                sound = λ s. record {
                  purchases =
                      move_row w.db.products (p ∷ others w.db.products) w.db.users w.db.users
                        w.db.purchases (λ q h. h)
                        (always _ (λ q h. known w.db.products q.product_id h) w.db.purchases)
                        s.purchases;
                  apart = s.apart;
                  products = (
                    accepted-IsProductRow env pg (others w.db.products) p accepted,
                    rows w.db.products s.products,
                  );
                  products_apart = (
                    accepted-ProductsApart env pg (others w.db.products) p accepted,
                    apart w.db.products s.products_apart,
                  );
                };
                purchases = λ j q h. (q, h, Follows-refl q);
              })
      ]
    ];
  }

  insert-Keeps : (p : Product) → Keeps (write env (λ ps. ps) p)
  insert-Keeps p = write-Keeps (λ ps. ps) p (λ ps id h. ground arith) (λ ps h. h) (λ ps h. h)

  replace-Keeps : (p : Product) → Keeps (write env (without p.id) p)
  replace-Keeps p =
      write-Keeps (without p.id) p (λ ps id h. known_product p id ps h)
        (λ ps h. All-select IsProductRow _ ps h) (λ ps h. AreProductsApart-select _ ps h)

  pub create-Keeps : (draft : ProductDraft) → Keeps (create env draft)
  unfolding create
  create-Keeps draft = search (keeps_rules, insert-Keeps)

  pub update-Keeps : (id : Uuid) (changes : ProductUpdate) → Keeps (update env id changes)
  unfolding update
  update-Keeps id changes = Keeps-bind _ _ (Keeps-gets _) λ found.
      Keeps-bind _ _ (Keeps-or_raise _ found) λ current. Keeps-if _ _ _ (Keeps-pure _) (
        Keeps-bind _ _ (Keeps-ask _) λ now.
          Keeps-bind _ _
            (Keeps-translating _ _ (
              replace-Keeps
                (record (apply_changes (columns changes) current) { updated_at = now })))
            (λ _. Keeps-pure _))

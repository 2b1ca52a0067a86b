-- ===== src/Tests/Products.antt =====
-- The theorems on the texts of a product and on its changes, at the guide.
use tg_bot.Base.{
  ◌≡◌, ◌↔◌, refl, Bool, not, ◌&&◌, all_of, ◌==◌, true, false, String, none, some, List, ℕ,
}
use tg_bot.Errors.{invalid_slug, slug_already_exists, invalid_price}
use tg_bot.Domain.{unset, given, ProductUpdate, ProductDraft}
use tg_bot.Domain.Slug.{matches_slug_pattern, is_valid_slug}
use tg_bot.World.{product_holds, ok, err, ◌>>=◌}
use tg_bot.Texts.Strip.{strip}
use tg_bot.Texts.Slugs.{normalise_slug, normalise_slug-strip}
use tg_bot.Texts.Urls.{
  split_netloc, split_scheme, IsWebAddress, cleaned, validate_delivery_url,
  validate_delivery_url-IsWebAddress,
}
use tg_bot.Services.ProductService.{
  left_unpriced, prepare_changes, prepare_draft, change, update, create,
}
use tg_bot.Repository.CatalogTable
use tg_bot.Catalog.Refusals.{IsForeseen}
use tg_bot.Catalog.Changes.{update-IsForeseen, create-IsForeseen}
use tg_bot.Tests.Model.{shop_env, shop_env-Enforces, shop}
use tg_bot.Tests.Soundness.{shop-IsSound}

normalise_slug-strip_example :
    ((normalise_slug " my-guide\n" ≡ ok "my-guide") ↔ (
      (◌≡◌ {A = String} "my-guide" (strip " my-guide\n"))
      × (matches_slug_pattern "my-guide" ≡ true)))
    × ((normalise_slug " my-guide\n" ≡ err invalid_slug)
        ↔ (matches_slug_pattern (strip " my-guide\n") ≡ false))
    × (normalise_slug (strip " my-guide\n") ≡ normalise_slug " my-guide\n")
normalise_slug-strip_example = normalise_slug-strip " my-guide\n" "my-guide"

-- a bracket without its counterpart
abbrev pub unbalanced : List ℕ → Bool
unbalanced host = not (all_of (λ c. not (c == b'[')) host) && all_of (λ c. not (c == b']')) host

validate_delivery_url-IsWebAddress_example :
    (validate_delivery_url unbalanced " HTTPS://example.com/g " ≡ ok "HTTPS://example.com/g") ↔ (
      (strip " HTTPS://example.com/g " ≡ "HTTPS://example.com/g")
      × IsWebAddress (cleaned (strip " HTTPS://example.com/g "))
      × (unbalanced (split_netloc (split_scheme (cleaned (strip " HTTPS://example.com/g "))).1)
          ≡ false))
validate_delivery_url-IsWebAddress_example =
    validate_delivery_url-IsWebAddress unbalanced " HTTPS://example.com/g " "HTTPS://example.com/g"

-- an update that takes away the guide's only price
abbrev pub free_guide : ProductUpdate
free_guide = record {
  slug = unset;
  title = given " Guide ";
  description = unset;
  delivery_url = unset;
  photo_file_id = unset;
  price_stars = given none;
  price_usdt = unset;
  is_active = unset;
}

update-IsForeseen_example : IsForeseen invalid_price
unfolding update prepare_changes change left_unpriced CatalogTable.get ◌>>=◌
update-IsForeseen_example =
    update-IsForeseen shop_env shop_env-Enforces unbalanced 1 free_guide shop invalid_price
      shop-IsSound refl refl refl

-- a second product under the slug of the guide
abbrev second_guide : ProductDraft
second_guide = record {
  slug = " guide ";
  title = "Guide";
  description = "";
  delivery_url = "https://example.com/2";
  photo_file_id = none;
  price_stars = some 1;
  price_usdt = none;
  is_active = true;
}

create-IsForeseen_example : IsForeseen slug_already_exists
unfolding create prepare_draft normalise_slug is_valid_slug validate_delivery_url strip
    CatalogTable.create CatalogTable.write CatalogTable.translate matches_slug_pattern product_holds
    ◌>>=◌
create-IsForeseen_example =
    create-IsForeseen shop_env shop_env-Enforces unbalanced second_guide shop slug_already_exists
      refl refl refl refl refl

-- ===== src/Tests/Api.antt =====
-- The theorems on the administration's endpoints, at a link that `urlparse` cannot read.
use tg_bot.Base.{◌≡◌, ◌⊎◌, ◌↔◌, refl, none, some, Option, true}
use tg_bot.Errors.{value_error, data_error, status_code}
use tg_bot.Domain.{unset, given, ProductUpdate}
use tg_bot.Domain.Slug.{matches_slug_pattern, is_valid_slug}
use tg_bot.World.{err, ◌>>=◌}
use tg_bot.Services.ProductService
use tg_bot.Texts.Strip.{strip}
use tg_bot.Texts.Slugs.{normalise_slug}
use tg_bot.Texts.Urls.{validate_delivery_url}
use tg_bot.Admin.Tokens.{access, Claims, AdminIdentity}
use tg_bot.Api.Schemas.{
  ProductPatchRequest, ProductCreateRequest, accepts_patch, accepts_create, is_empty_patch,
  to_update, to_draft,
}
use tg_bot.Api.Bodies.{as_body, to_update-as_body}
use tg_bot.Api.Endpoints.{delete, endpoint, answer_admin}
use tg_bot.Api.Access.{IsAdmitted, answer_admin-IsAdmitted}
use tg_bot.Api.Statuses.{update_product-status, create_product-status}
use tg_bot.Tests.Model.{shop_env, shop_env-Enforces, shop}
use tg_bot.Tests.Soundness.{shop-IsSound}
use tg_bot.Tests.Products.{unbalanced, free_guide}
use tg_bot.Tests.Tokens.{service, settings, nothing}

to_update-as_body_example :
    (to_update (as_body free_guide) ≡ some free_guide) ↔ (as_body free_guide ≡ as_body free_guide)
to_update-as_body_example = to_update-as_body free_guide (as_body free_guide)

abbrev root : AdminIdentity
root = record { username = "root"; token_id = "a1"; token_type = access }

abbrev session : Option Claims
session =
    some
      (record { sub = some "root"; kind = some access; iat = some 0; jti = some "a1"; exp = 900 })

answer_admin-IsAdmitted_example :
    (answer_admin shop_env unbalanced service settings nothing 60 session (delete 1) shop
      ≡ (401, shop))
    ⊎ IsAdmitted service settings nothing 60 session
answer_admin-IsAdmitted_example =
    answer_admin-IsAdmitted shop_env unbalanced service settings nothing 60 session (delete 1) shop

-- a link with a bracket too many
abbrev bracket : ProductPatchRequest
bracket = record {
  slug = unset;
  title = unset;
  description = unset;
  delivery_url = given (some "https://[x");
  photo_file_id = unset;
  price_stars = unset;
  price_usdt = unset;
  is_active = unset;
}

update_product-status_example :
    (u : ProductUpdate) × (to_update bracket ≡ some u)
    × (((ProductService.update shop_env unbalanced 1 u shop).0 ≡ err value_error)
        ⊎ ((ProductService.update shop_env unbalanced 1 u shop).0 ≡ err data_error))
unfolding endpoint accepts_patch is_empty_patch to_update ProductService.update
    ProductService.prepare_changes validate_delivery_url strip status_code ◌>>=◌
update_product-status_example =
    update_product-status shop_env shop_env-Enforces unbalanced root 1 bracket shop shop-IsSound
      refl

abbrev bracketed : ProductCreateRequest
bracketed = record {
  slug = "second";
  title = "Second";
  description = "";
  delivery_url = "https://[x";
  photo_file_id = none;
  price_stars = some 1;
  price_usdt = none;
  is_active = true;
}

create_product-status_example :
    ((ProductService.create shop_env unbalanced (to_draft bracketed) shop).0 ≡ err value_error)
    ⊎ ((ProductService.create shop_env unbalanced (to_draft bracketed) shop).0 ≡ err data_error)
unfolding endpoint accepts_create to_draft ProductService.create ProductService.prepare_draft
    normalise_slug is_valid_slug matches_slug_pattern validate_delivery_url strip status_code ◌>>=◌
create_product-status_example =
    create_product-status shop_env shop_env-Enforces unbalanced root bracketed shop refl refl

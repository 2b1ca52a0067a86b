-- ===== src/Api/Endpoints.antt =====
-- backend/app/api/v1/endpoints/products.py and purchases.py without the listings, behind
-- `get_current_admin` of backend/app/api/deps.py, with the statuses that the handlers of
-- backend/app/api/errors.py give to errors. An endpoint returns the status of its answer.
use tg_bot.Base.{ℕ, Bool, Option, none, some, or_else, List, if◌then◌else◌}
use tg_bot.Errors.{invalid_token, status_code}
use tg_bot.Domain.{Uuid, ProductUpdate}
use tg_bot.World.{Env, World, Result, ok, err, Run, ◌>>◌, pure, lift}
use tg_bot.Services.ProductService
use tg_bot.Services.CheckoutService
use tg_bot.Admin.Tokens.{access, AdminIdentity, Outside, Settings, authenticate}
use tg_bot.Api.Schemas.{
  ProductCreateRequest, accepts_create, to_draft, ProductPatchRequest, accepts_patch,
  is_empty_patch, to_update,
}

pub data AdminRequest : Type 0 where
  post : ProductCreateRequest → AdminRequest
  patch : Uuid → ProductPatchRequest → AdminRequest
  read delete verify resend : Uuid → AdminRequest

-- `_handle_app_error`, and `_handle_unexpected_error` for what is no `AppError`
abbrev pub respond : Result ℕ × World → ℕ × World
respond (ok status, w) = (status, w)
respond (err e, w) = (or_else (status_code e) 500, w)

module _ {Store Token : Type 0} (out : Outside Store Token) (settings : Settings) where
  -- none stands for a missing header, or one without a token
  unfoldable pub get_current_admin : Store → ℕ → Option Token → Result AdminIdentity
  get_current_admin s now none = err invalid_token
  get_current_admin s now (some token) = authenticate out settings s now token access

module _ (env : Env) (malformed : List ℕ → Bool) where
  -- the body of `update_product`, on a body whose fields passed
  abbrev pub apply_patch : Uuid → Bool → Option ProductUpdate → Run ℕ
  apply_patch id empty none = pure 422
  apply_patch id empty (some u) =
      if empty
      then ProductService.get id >> pure 200
      else ProductService.update env malformed id u >> pure 200

  -- the parameter `admin: CurrentAdmin`, which FastAPI resolves before it looks at the errors of a body
  abbrev pub current_admin : Result AdminIdentity → Run ℕ → Run ℕ
  current_admin admin body = lift admin >> body

  unfoldable pub create_product : Result AdminIdentity → ProductCreateRequest → Run ℕ
  create_product admin body = current_admin admin (
      if accepts_create body
      then ProductService.create env malformed (to_draft body) >> pure 201
      else pure 422)

  unfoldable pub update_product : Result AdminIdentity → Uuid → ProductPatchRequest → Run ℕ
  update_product admin id body = current_admin admin (
      if accepts_patch body
      then apply_patch id (is_empty_patch body) (to_update body)
      else pure 422)

  unfoldable pub get_product : Result AdminIdentity → Uuid → Run ℕ
  get_product admin id = current_admin admin (ProductService.get id >> pure 200)

  unfoldable pub delete_product : Result AdminIdentity → Uuid → Run ℕ
  delete_product admin id = current_admin admin (ProductService.delete id >> pure 204)

  unfoldable pub verify_payment : Result AdminIdentity → Uuid → Run ℕ
  verify_payment admin id = current_admin admin (CheckoutService.verify_payment env id >> pure 200)

  unfoldable pub resend_delivery : Result AdminIdentity → Uuid → Run ℕ
  resend_delivery admin id = current_admin admin (CheckoutService.redeliver env id >> pure 200)

  unfoldable pub endpoint : Result AdminIdentity → AdminRequest → Run ℕ
  unfolding create_product update_product get_product delete_product verify_payment resend_delivery
  endpoint admin (post body) = create_product admin body
  endpoint admin (patch id body) = update_product admin id body
  endpoint admin (read id) = get_product admin id
  endpoint admin (delete id) = delete_product admin id
  endpoint admin (verify id) = verify_payment admin id
  endpoint admin (resend id) = resend_delivery admin id

  module _ {Store Token : Type 0} (out : Outside Store Token) (settings : Settings) where
    unfoldable pub answer_admin : Store → ℕ → Option Token → AdminRequest → World → ℕ × World
    answer_admin s now credentials request w =
        respond (endpoint (get_current_admin out settings s now credentials) request w)

-- ===== src/Subscriptions/Webhook.antt =====
-- The webhook of the payment provider: `verifySignature` of backend/src/modules/billing/billing.service.ts
-- and the handler of billing.controller.ts. A text is the list of its codes; the hash and the decoding
-- of hexadecimal texts are parameters.
use micro_erp_saas.Prelude.{
  ℕ, ◌≡◌, String, Bool, true, false, not, ◌&&◌, ◌||◌, Option, none, some, List, [], ◌∷◌, ◌++◌, ◌==◌,
  if◌then◌else◌, any_where,
}
use text.Mathlib.Text.{◌==◌ as str_eq}
use micro_erp_saas.Store.{Db, Request, Result, ok, err}
use micro_erp_saas.Dashboard.Export.{Text, codes}
use micro_erp_saas.Subscriptions.{process_payment}

-- `createHmac('sha256', secret).update(text).digest('hex')`, and `Buffer.from(text, 'hex')`.
pub record Hmac : Type 0 where
  pub digest : Text → Text → Text
  pub from_hex : Text → List ℕ

-- A digest is a text of hexadecimal digits.
pub record IsHmac (h : Hmac) : Type 0 where
  pub digits :
      (secret text : Text) → any_where (λ c. c == 44 || c == 61) (h.digest secret text) ≡ false
  pub some_digits : (secret text : Text) → (c : ℕ) × (s : Text) × (h.digest secret text ≡ c ∷ s)

-- A secret that is missing is the empty text.
pub record Environment : Type 0 where
  pub secret : Text
  pub is_production : Bool

-- `data?.id` of a body: missing, `null`, or a text.
pub data DataId : Type 0 where
  undefined null : DataId
  given : String → DataId

-- What the service reads of a body.
pub record WebhookBody : Type 0 where
  pub action : Option String
  pub type : Option String
  pub payment_id : DataId
  pub subscription_id : Option String
  pub raw_payload : String

abbrev pub is_empty : Text → Bool
is_empty [] = true
is_empty (c ∷ s) = false

abbrev pub same_text : Text → Text → Bool
same_text [] [] = true
same_text [] (d ∷ t) = false
same_text (c ∷ s) [] = false
same_text (c ∷ s) (d ∷ t) = c == d && same_text s t

-- `text.split(separator)`
abbrev pub add_head : ℕ → List Text → List Text
add_head c [] = (c ∷ []) ∷ []
add_head c (f ∷ fs) = (c ∷ f) ∷ fs

abbrev pub split : ℕ → Text → List Text
split separator [] = [] ∷ []
split separator (c ∷ s) =
    let rest = split separator s in if c == separator then [] ∷ rest else add_head c rest

-- `const [key, value] = parts`, with the empty text for what is missing.
abbrev pub key_of : List Text → Text
key_of [] = []
key_of (k ∷ parts) = k

abbrev pub value_of : List Text → Text
value_of (k ∷ v ∷ parts) = v
value_of _ = []

-- The value under a key in the parts of the header, of which the last one counts.
abbrev pub last_value : Text → List Text → Text → Text
last_value key [] found = found
last_value key (p ∷ ps) found =
    let pair = split 61 p in
    last_value key ps (if same_text (key_of pair) key then value_of pair else found)

abbrev pub id_text : DataId → Text
id_text undefined = codes "undefined"
id_text null = codes "null"
id_text (given s) = codes s

-- `id:${dataId};request-id:${requestId};ts:${ts};`
abbrev pub manifest : DataId → Text → Text → Text
manifest data_id request_id ts =
    codes "id:"
    ++ (id_text data_id
        ++ (codes ";request-id:" ++ (request_id ++ (codes ";ts:" ++ (ts ++ codes ";")))))

module _ (h : Hmac) (env : Environment) where
  abbrev pub matches : WebhookBody → Text → Text → Text → Bool
  matches body request_id ts v1 =
      not (is_empty ts || is_empty v1)
      && same_text (h.from_hex (h.digest env.secret (manifest body.payment_id request_id ts)))
          (h.from_hex v1)

  abbrev pub check_header : WebhookBody → Text → Text → Bool
  check_header body signature request_id =
      let parts = split 44 signature in
      matches body request_id (last_value (codes "ts") parts []) (last_value (codes "v1") parts [])

  -- `verifySignature`. Without a secret, only a service that is not in production accepts.
  unfoldable pub verify_signature : Text → Text → Option WebhookBody → Bool
  verify_signature signature request_id none = false
  verify_signature signature request_id (some body) =
      not (is_empty signature || is_empty request_id)
      && (if is_empty env.secret
          then not env.is_production
          else check_header body signature request_id)

  abbrev pub is_text : String → Option String → Bool
  is_text value none = false
  is_text value (some s) = str_eq s value

  -- The status of the answer to a processed payment: 200, or 500 for an error.
  abbrev pub status_of : Result Unit × Db → ℕ × Db
  status_of (ok u, db) = (200, db)
  status_of (err e, db) = (500, db)

  -- An identifier that is missing or empty is left out.
  abbrev pub process_id : Request → DataId → WebhookBody → Db → ℕ × Db
  process_id req undefined body db = (200, db)
  process_id req null body db = (200, db)
  process_id req (given payment) body db =
      let done = status_of (process_payment req payment body.subscription_id body.raw_payload db) in
      if str_eq payment "" then (200, db) else done

  abbrev pub process_event : Request → WebhookBody → Db → ℕ × Db
  process_event req body db =
      let done = process_id req body.payment_id body db in
      if is_text "payment.created" body.action || is_text "payment" body.type
      then done
      else (200, db)

  -- `handleMercadoPagoWebhook`: the status and the database.
  unfoldable pub handle_webhook : Request → Text → Text → WebhookBody → Db → ℕ × Db
  handle_webhook req signature request_id body db =
      let done = process_event req body db in
      if verify_signature signature request_id (some body) then done else (500, db)

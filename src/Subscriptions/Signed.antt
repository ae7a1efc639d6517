-- ===== src/Subscriptions/Signed.antt =====
-- Signed webhooks, and webhooks that are delivered again.
use micro_erp_saas.Prelude.{
  ℕ, ◌≡◌, refl, sym, ap, subst, ◌∙◌, true, false, ◌||◌, inl, inr, some, List, ◌∷◌, ◌++◌, ◌==◌,
  if◌then◌else◌, arith, any_where, Bool-cases,
}
use text.Mathlib.Text.{◌==◌ as str_eq}
use micro_erp_saas.Store.{Db, Request, Result, ok, err}
use micro_erp_saas.Store.Commit.{Result-cases}
use micro_erp_saas.Dashboard.Export.{Text}
use micro_erp_saas.Subscriptions.{process_payment}
use micro_erp_saas.Subscriptions.Payments.{process_payment-once}
use micro_erp_saas.Subscriptions.Webhook.{
  Hmac, Environment, WebhookBody, DataId, undefined, null, given, same_text, key_of, value_of,
  verify_signature, is_text, status_of, process_id, handle_webhook,
}

abbrev Lacks : ℕ → Text → Type 0
Lacks separator s = any_where (λ c. c == separator) s ≡ false

-- The header of the provider for a time and a digest.
abbrev pub signed_header : Text → Text → Text
signed_header ts v1 = 116 ∷ 115 ∷ 61 ∷ (ts ++ (44 ∷ 118 ∷ 49 ∷ 61 ∷ v1))

-- A text without commas and equals signs.
abbrev pub IsValue : Text → Type 0
IsValue s = any_where (λ c. c == 44 || c == 61) s ≡ false

module _ (ts v1 : Text) (t : IsValue ts) (v : IsValue v1) where
  -- What a part of the header makes of the value that was found before it.
  abbrev pick : Text → List Text → Text → Text
  pick key pair found = if same_text (key_of pair) key then value_of pair else found

process_id-once :
    (h : Hmac) (env : Environment) (req req' : Request) (payment : DataId) (body : WebhookBody)
    (db : Db)
    → req'.lock_granted ≡ true
    → (process_id h env req payment body db).0 ≡ 200
    → process_id h env req' payment body (process_id h env req payment body db).1
      ≡ (200, (process_id h env req payment body db).1)
process_id-once h env req req' undefined body db granted done = refl
process_id-once h env req req' null body db granted done = refl
process_id-once h env req req' (given payment) body db granted done =
    elim (Bool-cases (str_eq payment "")) [
      | inl empty ↦ rw empty refl
      | inr real ↦
          let first = process_payment req payment body.subscription_id body.raw_payload db in
          elim (Result-cases first.0) [
            | inl (u, paid) ↦
                let again =
                  process_payment-once req req' payment body.subscription_id body.raw_payload db
                    granted paid in
                let ran : first ≡ (ok u, first.1) = ap {A = Result Unit} (λ r. (r, first.1)) paid in
                let one : process_id h env req (given payment) body db ≡ (200, first.1) =
                  rw real (ap (status_of h env) ran) in
                let two : process_id h env req' (given payment) body first.1 ≡ (200, first.1) =
                  rw real (ap (status_of h env) again) in
                subst {A = ℕ × Db}
                  (λ r. process_id h env req' (given payment) body r.1 ≡ (200, r.1)) (sym one) two
            | inr (e, failed) ↦
                let ran : first ≡ (err e, first.1) =
                  ap {A = Result Unit} (λ r. (r, first.1)) failed in
                let one : process_id h env req (given payment) body db ≡ (500, first.1) =
                  rw real (ap (status_of h env) ran) in
                let bad : 500 ≡ 200 = sym (ap {A = ℕ × Db} (λ r. r.0) one) ∙ done in
                absurd (omega (arith, bad))
          ]
    ]

-- A webhook that was answered with status 200 is answered so again, and changes nothing, when it is
-- delivered once more and the lock of its tenant is granted then.
pub handle_webhook-once :
    (h : Hmac) (env : Environment) (req req' : Request) (signature request_id : Text)
    (body : WebhookBody) (db : Db)
    → req'.lock_granted ≡ true
    → (handle_webhook h env req signature request_id body db).0 ≡ 200
    → handle_webhook h env req' signature request_id body
        (handle_webhook h env req signature request_id body db).1
      ≡ (200, (handle_webhook h env req signature request_id body db).1)
unfolding handle_webhook
handle_webhook-once h env req req' signature request_id body db granted done =
    elim (Bool-cases (verify_signature h env signature request_id (some body))) [
      | inl valid ↦
          elim (Bool-cases
            (is_text h env "payment.created" body.action || is_text h env "payment" body.type)) [
              | inl event ↦
                  rw (valid, event)
                    (process_id-once h env req req' body.payment_id body db granted
                      (rw (valid, event) at done))
              | inr other ↦ rw (valid, other) refl
            ]
      | inr forged ↦ absurd (ground (arith, done, forged))
    ]

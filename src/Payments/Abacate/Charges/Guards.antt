-- ===== src/Payments/Abacate/Charges/Guards.antt =====
-- What is asked of the gateway, and what is made of its answers.
use theokit_plugins.Common.{
  ℤ, pos, String, true, false, Option, none, some, ◌||◌, length, ◌<◌, ◌≡◌, refl, sym, ◌∙◌, arith,
  ◌⊎◌, inl, inr, Bool-cases, Option-cases, if◌then◌else◌, string_eq,
}
use theokit_plugins.Common.Assoc.{get}
use theokit_plugins.Common.Async.{Attempt, returned, threw}
use theokit_plugins.Payments.Abacate.{
  Field, undefined, null, other, text, number, Object, Envelope, Parsed, Response, Call,
  provider_error, Options, by_id, get_method, post_method, checkout, no_body,
}
use theokit_plugins.Payments.Abacate.Answers.{IsOneCall, request-IsOneCall}
use theokit_plugins.Payments.Abacate.Charges.{
  CheckoutInput, CheckoutStatus, RefundInput, PaymentStatus, refunded, pending, paid, expired,
  cancelled, failed, unknown, status_map, or_unknown, text_or, amount_of, is_empty, is_charge,
  starts_with, is_embedded, is_subscription, not_brl, checkout_refusal, call_of, post, get_from,
  payload_of, checkout_path, checkout_result, with_text, create_checkout, status_result,
  status_path, retrieve_checkout, or_else, refund_result, refund, refund_of,
}

-- The field is a text, and not an empty one.
abbrev pub IsText : Field → String → Type 0
IsText f t = (f ≡ text t) × (is_empty t ≡ false)

with_text-IsText :
    {F A : Type 0} (code : String) (f : Field) (k : String → A) (a : A)
    → with_text {F = F} code f k ≡ returned a
    → (t : String) × IsText f t × (a ≡ k t)
with_text-IsText code undefined k a h = cc
with_text-IsText code null k a h = cc
with_text-IsText code other k a h = cc
with_text-IsText code (number n) k a h = cc
with_text-IsText code (text t) k a h = elim (Bool-cases (is_empty t)) [
  | inl empty ↦ absurd (ground arith)
  | inr full ↦ (t, (refl, full), ground arith)
]

refund_of-cases :
    (s : PaymentStatus) (a : Option ℤ)
    → ((s ≡ refunded) × (a ≡ some (refund_of s a))) ⊎ (refund_of s a ≡ pos 0)
refund_of-cases refunded (some n) = inl (refl, refl)
refund_of-cases refunded none = inr refl
refund_of-cases pending a = inr refl
refund_of-cases paid a = inr refl
refund_of-cases expired a = inr refl
refund_of-cases cancelled a = inr refl
refund_of-cases failed a = inr refl
refund_of-cases unknown a = inr refl

-- What a status says of the data that it was read from: a word that is not in the table is
-- unknown, and the refunded amount is the whole amount of a refunded resource, or 0.
abbrev pub IsStatus : (to_upper_case : String → String) → Object → CheckoutStatus → Type 0
IsStatus to_upper_case o r =
    (r.status ≡ or_unknown (get (to_upper_case (text_or "" (o "status"))) status_map))
    × (r.amount_in_cents ≡ amount_of (o "amount"))
    × (((r.status ≡ refunded) × (r.amount_in_cents ≡ some r.amount_refunded_in_cents))
        ⊎ (r.amount_refunded_in_cents ≡ pos 0))

module _ {W F : Type 0} (do_fetch : Call → W → Attempt F (Response F) × W)
    (parse_envelope : String → Parsed Envelope)
    (to_upper_case encode_uri_component : String → String) (opts : Options) where
  -- What the gateway can serve: hosted, in reais, with an item, and with just one for a
  -- subscription.
  pub record IsAdmissible (input : CheckoutInput) : Type 0 where
    pub hosted_only : is_embedded input.ui_mode ≡ false
    pub in_reais : (c : String) → input.currency ≡ some c → to_upper_case c ≡ "BRL"
    pub some_item : 0 < length input.items
    pub one_subscribed : is_subscription input.mode ≡ true → length input.items ≡ 1

  is_brl :
      (o : Option String)
      → not_brl do_fetch parse_envelope to_upper_case encode_uri_component opts o ≡ false
      → (c : String) → o ≡ some c
      → to_upper_case c ≡ "BRL"
  is_brl none h c e = cc
  is_brl (some d) h c e = ground (arith, string_eq.beq_iff (to_upper_case d) "BRL")

  refusal-IsAdmissible :
      (input : CheckoutInput)
      → checkout_refusal do_fetch parse_envelope to_upper_case encode_uri_component opts input
        ≡ none
      → IsAdmissible input
  unfolding checkout_refusal
  refusal-IsAdmissible input h = record {
    hosted_only = ground arith;
    in_reais = is_brl input.currency (ground arith);
    some_item = ground arith;
    one_subscribed = ground arith;
  }

  some_code : {code : String} → none ≡ some code → ⊥
  some_code h = cc

  brl_is :
      (o : Option String)
      → ((c : String) → o ≡ some c → to_upper_case c ≡ "BRL")
      → not_brl do_fetch parse_envelope to_upper_case encode_uri_component opts o ≡ false
  brl_is none h = refl
  brl_is (some d) h = ground (arith, string_eq.beq_iff (to_upper_case d) "BRL", h d refl)

  IsAdmissible-refusal :
      (input : CheckoutInput)
      → IsAdmissible input
      → checkout_refusal do_fetch parse_envelope to_upper_case encode_uri_component opts input
        ≡ none
  unfolding checkout_refusal
  IsAdmissible-refusal input v =
      ground (arith, v.hosted_only, brl_is input.currency v.in_reais, v.some_item, v.one_subscribed)

  -- Either the input is one that the gateway cannot serve, and is refused with a code before
  -- anything is sent, or it is one that the gateway can serve: then its items, methods, addresses,
  -- customer and metadata are sent once, to the path for its mode, and what is returned has the
  -- address that the gateway answered with, which is not empty.
  pub create_checkout-IsGuarded :
      (input : CheckoutInput) (w : W)
      → let refusal =
          checkout_refusal do_fetch parse_envelope to_upper_case encode_uri_component opts input in
        let created =
          create_checkout do_fetch parse_envelope to_upper_case encode_uri_component opts input w in
        ((IsAdmissible input → ⊥)
          × (code : String) × (refusal ≡ some code)
          × (created ≡ (threw (provider_error code), w)))
        ⊎ (IsAdmissible input
            × IsOneCall do_fetch parse_envelope
                (record {
                  method = post_method;
                  path =
                      if is_subscription input.mode
                      then "/subscriptions/create"
                      else "/checkouts/create";
                  payload =
                      checkout input.items opts.methods input.success_url input.cancel_url
                        input.customer_ref input.metadata;
                })
                (λ o r. IsText (o "url") r.url)
                w
                created)
  unfolding create_checkout post
  create_checkout-IsGuarded input w =
      elim (Option-cases
        (checkout_refusal do_fetch parse_envelope to_upper_case encode_uri_component opts input)) [
          | inl fine ↦ inr (
            refusal-IsAdmissible input fine,
            rw fine (
                request-IsOneCall do_fetch parse_envelope
                  (call_of
                    (checkout_path do_fetch parse_envelope to_upper_case encode_uri_component opts
                      input)
                    (payload_of do_fetch parse_envelope to_upper_case encode_uri_component opts
                      input))
                  "checkout_failed" (λ o r. IsText (o "url") r.url) w
                  (checkout_result do_fetch parse_envelope to_upper_case encode_uri_component opts)
                  (λ o r h.
                    let (t, full, e) =
                      with_text-IsText _ (o "url")
                        (λ url. record { id = text_or "" (o "id"); url = url }) r h in
                    rw e full)),
          )
          | inr (code, refused) ↦ inl (
            (λ fit. absurd (some_code (sym (IsAdmissible-refusal input fit) ∙ refused))),
            code,
            refused,
            rw refused refl,
          )
        ]

  -- A refund is sent once, under the path for the prefix of its reference, and what is returned
  -- has the id that the gateway answered with, under either of its two names, which is not empty.
  pub refund-IsOneCall :
      (input : RefundInput) (w : W)
      → IsOneCall do_fetch parse_envelope
          (call_of
            (if is_charge input.reference then "/transparents/refund" else "/checkouts/refund")
            (by_id input.reference input.reason))
          (λ o r.
            IsText (or_else (o "id") (o "refundPublicId")) r.id
            × (r.amount_in_cents ≡ amount_of (o "amount")))
          w
          (refund do_fetch parse_envelope to_upper_case encode_uri_component opts input w)
  unfolding refund post
  refund-IsOneCall input w =
      request-IsOneCall do_fetch parse_envelope
        (call_of (if is_charge input.reference then "/transparents/refund" else "/checkouts/refund")
          (by_id input.reference input.reason))
        "refund_failed"
        (λ o r.
          IsText (or_else (o "id") (o "refundPublicId")) r.id
          × (r.amount_in_cents ≡ amount_of (o "amount")))
        w (refund_result do_fetch parse_envelope to_upper_case encode_uri_component opts)
        (λ o r h.
          let (t, full, e) =
            with_text-IsText _ (or_else (o "id") (o "refundPublicId"))
              (λ id. record { id = id; amount_in_cents = amount_of (o "amount") }) r h in
          rw e (full, refl))

  status_result-IsStatus :
      (reference : String) (o : Object) (r : CheckoutStatus)
      → status_result do_fetch parse_envelope to_upper_case encode_uri_component opts reference o
        ≡ returned r
      → IsStatus to_upper_case o r
  status_result-IsStatus reference o r h =
      let status = or_unknown (get (to_upper_case (text_or "" (o "status"))) status_map) in
      let e : ◌≡◌ {A = CheckoutStatus}
          (record {
            id = text_or reference (o "id");
            status = status;
            amount_in_cents = amount_of (o "amount");
            amount_refunded_in_cents = refund_of status (amount_of (o "amount"));
          })
          r =
        ground arith in
      rw (← e) (refl, refl, refund_of-cases status (amount_of (o "amount")))

  -- Nothing is asked about a reference whose prefix the gateway does not give. Of any other, it is
  -- asked once, under the path for the prefix; a status that is not in the table is unknown, and
  -- the refunded amount is the whole amount of a refunded resource, and otherwise 0.
  pub retrieve_checkout-IsGuarded :
      (reference : String) (w : W)
      → let asked =
          retrieve_checkout do_fetch parse_envelope to_upper_case encode_uri_component opts
            reference w in
        ((is_charge reference || starts_with "bill_" reference ≡ false)
          × (asked ≡ (threw (provider_error "unknown_reference"), w)))
        ⊎ ((is_charge reference || starts_with "bill_" reference ≡ true)
            × IsOneCall do_fetch parse_envelope
                (record {
                  method = get_method;
                  path =
                      status_path do_fetch parse_envelope to_upper_case encode_uri_component opts
                        reference;
                  payload = no_body;
                })
                (λ o. IsStatus to_upper_case o)
                w
                asked)
  unfolding retrieve_checkout get_from
  retrieve_checkout-IsGuarded reference w =
      elim (Bool-cases (is_charge reference || starts_with "bill_" reference)) [
        | inl known ↦ inr (
          known,
          rw known (
              request-IsOneCall do_fetch parse_envelope
                (record {
                  method = get_method;
                  path =
                      status_path do_fetch parse_envelope to_upper_case encode_uri_component opts
                        reference;
                  payload = no_body;
                })
                "retrieve_failed" (λ o. IsStatus to_upper_case o) w
                (status_result do_fetch parse_envelope to_upper_case encode_uri_component opts
                  reference)
                (λ o r h. status_result-IsStatus reference o r h)),
        )
        | inr strange ↦ inl (strange, rw strange refl)
      ]

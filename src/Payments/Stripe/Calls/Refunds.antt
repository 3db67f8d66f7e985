-- ===== src/Payments/Stripe/Calls/Refunds.antt =====
-- What a refund and a cancellation ask of the client.
use theokit_plugins.Common.{
  ℤ, String, true, false, Option, none, some, ◌≡◌, ◌⊎◌, inl, inr, refl, sym, ap, ◌∙◌, if-both,
  string_eq,
}
use theokit_plugins.Common.Async.{returned, threw, proceed}
use theokit_plugins.Payments.Abacate.Charges.{
  RefundInput, RefundResult, Amount, fractional, whole, is_positive, starts_with,
}
use theokit_plugins.Payments.Stripe.{
  Session, Refund, Client, stripe_error, id_of, or_code, uncaught, coded-returned,
  uncaught-returned, returned_inj, threw_ne, proceed-went,
}
use theokit_plugins.Payments.Stripe.Calls.{
  through_session, resolve_payment_intent, ask_refund, create_refund, refund_positive,
  refund_partial, refund_result,
}

or_code-returned :
    {W F A : Type 0} (code : String) (o : Option A) (a : A) (w w' : W)
    → or_code {F = F} code o w ≡ (returned a, w')
    → (o ≡ some a) × (w ≡ w')
or_code-returned code none a w w' h = absurd (threw_ne (ap (λ z. z.0) h))
or_code-returned code (some b) a w w' h =
    (ap some (returned_inj (ap (λ z. z.0) h)), ap (λ z. z.1) h)

module _ {W F : Type 0} (client : Client W F) where
  -- The payment intent of a reference: that of the session, which is asked for, or the reference.
  abbrev pub IsIntent : String → W → String → W → Type 0
  IsIntent reference w intent v =
      ((starts_with "cs_" reference ≡ true)
        × (s : Session) × (client.retrieve_session reference false w ≡ (returned s, v))
        × (id_of (λ i. i.id) s.payment_intent ≡ some intent))
      ⊎ ((starts_with "cs_" reference ≡ false) × (intent ≡ reference) × (v ≡ w))

  through-IsIntent :
      (reference intent : String) (w v : W)
      → starts_with "cs_" reference ≡ true
      → through_session client
          (λ s. id_of (λ i. i.id) s.payment_intent)
          "nothing_to_refund"
          reference
          w
        ≡ (returned intent, v)
      → IsIntent reference w intent v
  through-IsIntent reference intent w v long h =
      let (s, u, asked, found) =
        proceed-went (uncaught (client.retrieve_session reference false w)) _ intent v h in
      let (there, same) = or_code-returned "nothing_to_refund" _ intent u v found in
      inl (long, s, uncaught-returned _ s v (asked ∙ ap (λ x. (returned s, x)) same), there)

  resolve_payment_intent-IsIntent :
      (reference intent : String) (w v : W)
      → resolve_payment_intent client reference w ≡ (returned intent, v)
      → IsIntent reference w intent v
  unfolding resolve_payment_intent
  resolve_payment_intent-IsIntent reference intent w v =
      if-both (λ p. p ≡ (returned intent, v) → IsIntent reference w intent v)
        (starts_with "cs_" reference) _ _ (λ long h. through-IsIntent reference intent w v long h)
        (λ short h. inr (short, sym (returned_inj (ap (λ z. z.0) h)), sym (ap (λ z. z.1) h)))

  -- One refund was asked for: of the amount (all of it, if there is none), for the payment intent
  -- of the reference, under the idempotency key of the input.
  pub record IsRefund (input : RefundInput) (amount : Option ℤ) (w : W) (r : RefundResult) (w' : W)
      : Type 0 where
    pub intent : String
    pub asked : W
    pub resolved : IsIntent input.reference w intent asked
    pub given : Refund
    pub answered :
        client.create_refund
          (record { payment_intent = intent; amount = amount; reason = input.reason })
          input.idempotency_key
          asked
        ≡ (returned given, w')
    pub is : r ≡ refund_result given

  refunded-IsRefund :
      (input : RefundInput) (amount : Option ℤ) (w w' : W) (r : RefundResult)
      → proceed (λ x v. (returned (refund_result x), v)) (create_refund client input amount w)
        ≡ (returned r, w')
      → IsRefund input amount w r w'
  unfolding create_refund
  refunded-IsRefund input amount w w' r h =
      let (x, v, made, is) = proceed-went (create_refund client input amount w) _ r w' h in
      let (intent, u, resolved, answered) =
        proceed-went (resolve_payment_intent client input.reference w)
          (ask_refund client input amount) x v made in
      record {
        intent = intent;
        asked = u;
        resolved = resolve_payment_intent-IsIntent input.reference intent w u resolved;
        given = x;
        answered =
            coded-returned "refund_failed" _ x w'
              (answered ∙ ap (λ y. (returned x, y)) (ap (λ z. z.1) is));
        is = sym (returned_inj (ap (λ z. z.0) is));
      }

  -- A partial refund of an amount that is not a positive whole number asks nothing and throws; one
  -- that is returned was asked for once, for the whole number that it is.
  pub refund_partial-IsRefund :
      (input : RefundInput) (amount : Amount) (w : W)
      → (is_positive amount ≡ false
          → refund_partial client input amount w ≡ (threw (stripe_error "invalid_amount"), w))
        × ((r : RefundResult) (w' : W)
            → refund_partial client input amount w ≡ (returned r, w')
            → (n : ℤ) × (amount ≡ whole n)
              × (is_positive amount ≡ true)
              × IsRefund input (some n) w r w')
  unfolding refund_partial
  refund_partial-IsRefund input fractional w =
      ((λ h. refl), (λ r w' h. absurd (threw_ne (ap (λ z. z.0) h))))
  refund_partial-IsRefund input (whole n) w = (
    (λ h. rw h refl),
    (λ r w'.
        if-both
          (λ p.
            p ≡ (returned r, w')
            → (m : ℤ) × (whole n ≡ whole m)
              × (is_positive (whole n) ≡ true)
              × IsRefund input (some m) w r w')
          (is_positive (whole n)) (refund_positive client input (whole n) w)
          (threw (stripe_error "invalid_amount"), w)
          (λ enough h. (n, refl, enough, refunded-IsRefund input (some n) w w' r h))
          (λ short h. absurd (threw_ne (ap (λ z. z.0) h)))),
  )

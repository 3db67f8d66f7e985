-- ===== src/Payments/Stripe/Calls/Checkouts.antt =====
-- A checkout and its status.
use theokit_plugins.Common.{
  ℤ, pos, String, Bool, true, false, Option, none, some, [], ◌∷◌, ◌≡◌, ◌↔◌, refl, sym, subst, ap,
  ◌∙◌, arith, if◌then◌else◌, string_eq,
}
use theokit_plugins.Common.Async.{Attempt, returned, threw, proceed}
use theokit_plugins.Payments.Abacate.Charges.{
  CheckoutInput, CheckoutStatus, paid, refunded, is_embedded, is_empty,
}
use theokit_plugins.Payments.Stripe.{
  Session, Client, CheckoutForm, hosted_form, embedded_form, coded, params_of, form_of,
  session_form, form_of_session, with_secret, with_url, with_full_url, session_status, is_one_of,
  above_zero, Reference, absent, by_name, expanded, Charge, PaymentIntent, refunded_of, refunded_in,
  coded-returned, returned_inj, threw_ne, proceed-went,
}
use theokit_plugins.Payments.Stripe.Calls.{
  create_checkout, create_checkout_session, retrieve_checkout, status_of_session,
}

-- The address or the secret that the client goes on with.
abbrev pub field_of : CheckoutForm → String
field_of (hosted_form id url) = url
field_of (embedded_form id secret) = secret

-- Two outcomes agree when the first gives a form exactly if the second gives it, and its field is
-- not empty.
abbrev pub Agree : {E F : Type 0} → Attempt E CheckoutForm → Attempt F CheckoutForm → Type 0
Agree o o' =
    (f : CheckoutForm) → (o ≡ returned f) ↔ ((o' ≡ returned f) × (is_empty (field_of f) ≡ false))

guarded :
    {E A : Type 0} (b : Bool) (e : E) (g f : A)
    → ◌≡◌ {A = Attempt E A} (if b then threw e else returned g) (returned f)
    → (b ≡ false) × (g ≡ f)
guarded true e g f h = absurd (threw_ne h)
guarded false e g f h = (refl, returned_inj h)

open_guard :
    {E A : Type 0} (b : Bool) (e : E) (g f : A)
    → b ≡ false
    → g ≡ f
    → ◌≡◌ {A = Attempt E A} (if b then threw e else returned g) (returned f)
open_guard b e g f full is = rw full (ap returned is)

secret-Agree :
    {E F : Type 0} (e : E) (e' : F) (id : String) (o : Option String)
    → Agree (with_secret e id o) (with_secret e' id o)
secret-Agree e e' id none f = ((λ h. absurd (threw_ne h)), (λ h. absurd (threw_ne h.0)))
secret-Agree e e' id (some t) f = (
  (λ h.
      let (full, is) = guarded (is_empty t) e (embedded_form id t) f h in
      (
        open_guard (is_empty t) e' (embedded_form id t) f full is,
        subst (λ x. is_empty (field_of x) ≡ false) is full,
      )),
  (λ h.
      let (full, is) = guarded (is_empty t) e' (embedded_form id t) f h.0 in
      open_guard (is_empty t) e (embedded_form id t) f full is),
)

url-Agree :
    {E F : Type 0} (e : E) (e' : F) (id : String) (o : Option String)
    → Agree (with_full_url e id o) (with_url e' id o)
url-Agree e e' id none f = ((λ h. absurd (threw_ne h)), (λ h. absurd (threw_ne h.0)))
url-Agree e e' id (some t) f = (
  (λ h.
      let (full, is) = guarded (is_empty t) e (hosted_form id t) f h in
      (ap returned is, subst (λ x. is_empty (field_of x) ≡ false) is full)),
  (λ h.
      let is : hosted_form id t ≡ f = returned_inj h.0 in
      open_guard (is_empty t) e (hosted_form id t) f
        (subst (λ x. is_empty (field_of x) ≡ false) (sym is) h.1) is),
)

form-Agree :
    {F : Type 0} (b : Bool) (s : Session) → Agree (session_form {F = F} b s) (form_of {F = F} b s)
form-Agree true s = secret-Agree _ _ s.id s.client_secret
form-Agree false s = url-Agree _ _ s.id s.url

call-Agree :
    {W F : Type 0} (b : Bool) (p : Attempt F Session × W)
    → ((form_of_session b p).1 ≡ (proceed (λ s w. (form_of b s, w)) (coded "checkout_failed" p)).1)
      × Agree
          (form_of_session b p).0
          (proceed (λ s w. (form_of b s, w)) (coded "checkout_failed" p)).0
call-Agree b (returned s, w) = (refl, form-Agree b s)
call-Agree b (threw e, w) = (refl, λ f. ((λ h. absurd (threw_ne h)), (λ h. absurd (threw_ne h.0))))

-- The session of a client was paid: nothing of it was refunded, it has not expired, and its money
-- is there or not needed.
abbrev pub IsPaid : Session → ℤ → Type 0
IsPaid s n =
    (above_zero n ≡ false)
    × (is_one_of s.status ("expired" ∷ []) ≡ false)
    × (is_one_of (some s.payment_status) ("paid" ∷ "no_payment_required" ∷ []) ≡ true)

-- The amount is what was refunded of the session's charge, or 0 where the session has no expanded
-- intent or that no expanded charge.
pub record IsRefundOf (s : Session) (n : ℤ) : Type 0 where
  pub of_charge :
      (i : PaymentIntent) (c : Charge)
      → s.payment_intent ≡ expanded i
      → i.latest_charge ≡ expanded c
      → n ≡ c.amount_refunded
  pub without_charge :
      ((i : PaymentIntent) (c : Charge)
        → s.payment_intent ≡ expanded i
        → i.latest_charge ≡ expanded c
        → ⊥)
      → n ≡ pos 0

uncharged : (r : Reference Charge) → ((c : Charge) → r ≡ expanded c → ⊥) → refunded_of r ≡ pos 0
uncharged absent h = refl
uncharged (by_name id) h = refl
uncharged (expanded c) h = absurd (h c refl)

unpaid :
    (r : Reference PaymentIntent)
    → ((i : PaymentIntent) (c : Charge) → r ≡ expanded i → i.latest_charge ≡ expanded c → ⊥)
    → refunded_in r ≡ pos 0
unpaid absent h = refl
unpaid (by_name id) h = refl
unpaid (expanded i) h = uncharged i.latest_charge (λ c e. h i c refl e)

refunded_in-IsRefundOf : (s : Session) → IsRefundOf s (refunded_in s.payment_intent)
refunded_in-IsRefundOf s = record {
  of_charge = λ i c intent charge. rw (intent, charge) refl;
  without_charge = λ h. unpaid s.payment_intent h;
}

session_status-paid : (s : Session) (n : ℤ) → session_status s n ≡ paid → IsPaid s n
unfolding session_status
session_status-paid s n h = ground (arith, h)

session_status-refunded :
    (s : Session) (n : ℤ) → (session_status s n ≡ refunded) ↔ (above_zero n ≡ true)
unfolding session_status
session_status-refunded s n = ground arith

module _ {W F : Type 0} (client : Client W F) where
  -- Without an idempotency key, the adapter and the checkout helper ask the client for the same
  -- session and leave the same world, and the helper gives a form exactly if the adapter gives it
  -- with a URL or secret that is not empty.
  pub create_checkout_session-create_checkout :
      (to_lower_case : String → String) (input : CheckoutInput) (w : W)
      → input.idempotency_key ≡ none
      → ((create_checkout_session client (params_of to_lower_case input) w).1
          ≡ (create_checkout client to_lower_case input w).1)
        × Agree
            (create_checkout_session client (params_of to_lower_case input) w).0
            (create_checkout client to_lower_case input w).0
  unfolding create_checkout_session create_checkout
  create_checkout_session-create_checkout to_lower_case input w h = rw h (
      call-Agree (is_embedded input.ui_mode)
        (client.create_session (params_of to_lower_case input) none w))

  -- A status that is returned is of the session that the client gave for the reference: it is paid
  -- only if the money is there or not needed, the session has not expired and nothing was
  -- refunded, and it is refunded exactly if something was. What was refunded is read off the
  -- expanded charge of the expanded intent of the session, and is 0 without them.
  pub retrieve_checkout-IsPaid :
      (reference : String) (w w' : W) (st : CheckoutStatus)
      → retrieve_checkout client reference w ≡ (returned st, w')
      → (s : Session) × (client.retrieve_session reference true w ≡ (returned s, w'))
        × (st.id ≡ s.id)
        × (st.status ≡ paid → IsPaid s st.amount_refunded_in_cents)
        × ((st.status ≡ refunded) ↔ (above_zero st.amount_refunded_in_cents ≡ true))
        × IsRefundOf s st.amount_refunded_in_cents
  unfolding retrieve_checkout
  retrieve_checkout-IsPaid reference w w' st h =
      let (s, v, asked, given) =
        proceed-went (coded "retrieve_failed" (client.retrieve_session reference true w)) _ st w'
          h in
      let is : status_of_session s ≡ st = returned_inj (ap (λ z. z.0) given) in
      let there : v ≡ w' = ap (λ z. z.1) given in
      (
        s,
        coded-returned "retrieve_failed" _ s w' (asked ∙ ap (λ x. (returned s, x)) there),
        sym (ap (λ x. x.id) is),
        subst (λ x. x.status ≡ paid → IsPaid s x.amount_refunded_in_cents) is
            (session_status-paid s _),
        subst (λ x. (x.status ≡ refunded) ↔ (above_zero x.amount_refunded_in_cents ≡ true)) is
            (session_status-refunded s _),
        subst (λ x. IsRefundOf s x.amount_refunded_in_cents) is (refunded_in-IsRefundOf s),
      )

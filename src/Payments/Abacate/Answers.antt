-- ===== src/Payments/Abacate/Answers.antt =====
-- What a request returns, and when.
use theokit_plugins.Common.{
  String, Bool, true, false, Option, none, some, ◌≡◌, refl, arith, inl, inr, Bool-cases,
}
use theokit_plugins.Common.Async.{Attempt, returned, threw, proceed, Ends}
use theokit_plugins.Payments.Abacate.{
  Object, Envelope, Parsed, not_json, json_null, json, Response, Call, ProviderError, is_null,
  Answer, data_or_error, of_envelope, of_text, of_response, request,
}

module _ {W F : Type 0} (do_fetch : Call → W → Attempt F (Response F) × W)
    (parse_envelope : String → Parsed Envelope) where
  -- The gateway was reached and accepted the request, and its answer is an envelope without an
  -- error that has these data.
  pub record IsAnswered (sent : Attempt F (Response F)) (o : Object) : Type 0 where
    pub response : Response F
    pub body : String
    pub envelope : Envelope
    pub reached : sent ≡ returned response
    pub accepted : response.ok ≡ true
    pub read : response.text ≡ returned body
    pub parsed : parse_envelope body ≡ json envelope
    pub no_error : is_null envelope.error ≡ true
    pub has_data : envelope.data_field ≡ some o

  data_of :
      (code : String) (d : Option Object) (o : Object)
      → data_or_error do_fetch parse_envelope code d ≡ returned o
      → d ≡ some o
  data_of code none o e = cc
  data_of code (some p) o e = ground arith

  envelope_of :
      (ok : Bool) (code : String) (p : Parsed Envelope) (o : Object)
      → of_envelope do_fetch parse_envelope ok code p ≡ returned o
      → (ok ≡ true)
        × ((e : Envelope) × (p ≡ json e) × (is_null e.error ≡ true) × (e.data_field ≡ some o))
  envelope_of ok code not_json o e = cc
  envelope_of ok code json_null o e = cc
  envelope_of false code (json v) o e = cc
  envelope_of true code (json v) o e = elim (Bool-cases (is_null v.error)) [
    | inl fine ↦ (refl, (v, refl, fine, data_of code v.data_field o (rw fine at e)))
    | inr bad ↦ absurd (ground arith)
  ]

  text_of :
      (ok : Bool) (code : String) (t : Attempt F String) (o : Object)
      → of_text do_fetch parse_envelope ok code t ≡ returned o
      → (body : String) × (t ≡ returned body)
        × (of_envelope do_fetch parse_envelope ok code (parse_envelope body) ≡ returned o)
  text_of ok code (returned body) o h = (body, refl, h)
  text_of ok code (threw e) o h = cc

  answered :
      (sent : Attempt F (Response F)) (code : String) (o : Object)
      → of_response do_fetch parse_envelope code sent ≡ returned o
      → IsAnswered sent o
  answered (threw e) code o h = cc
  answered (returned r) code o h =
      let (body, read, e) = text_of r.ok code r.text o h in
      let (accepted, (envelope, parsed, no_error, has_data)) =
        envelope_of r.ok code (parse_envelope body) o e in
      record {
        response = r;
        body = body;
        envelope = envelope;
        reached = refl;
        accepted = accepted;
        read = read;
        parsed = parsed;
        no_error = no_error;
        has_data = has_data;
      }

  -- A request returns the data of an answer that was accepted, without an error, and no others;
  -- it calls the gateway once.
  pub request-IsAnswered :
      (call : Call) (code : String) (w : W) (o : Object)
      → (request do_fetch parse_envelope call code w).0 ≡ returned o
      → IsAnswered (do_fetch call w).0 o
        × ((request do_fetch parse_envelope call code w).1 ≡ (do_fetch call w).1)
  unfolding request
  request-IsAnswered call code w o h = (answered (do_fetch call w).0 code o h, refl)

  -- One call of the gateway was made, and no other; what is returned is `Q` of the data that it
  -- answered with.
  abbrev pub IsOneCall :
      {A : Type 0} → Call → (Object → A → Type 0) → W → Attempt (ProviderError F) A × W → Type 0
  IsOneCall call Q w p =
      Ends
        (λ a w'.
          (w' ≡ (do_fetch call w).1) × ((o : Object) × IsAnswered (do_fetch call w).0 o × Q o a))
        (λ e w'. w' ≡ (do_fetch call w).1) p

  read_answer :
      {A : Type 0} (call : Call) (Q : Object → A → Type 0) (w : W) (o : Object)
      → IsAnswered (do_fetch call w).0 o
      → (r : Answer F A) → ((a : A) → r ≡ returned a → Q o a)
      → IsOneCall call Q w (r, (do_fetch call w).1)
  read_answer call Q w o h (returned a) k = (refl, (o, h, k a refl))
  read_answer call Q w o h (threw e) k = refl

  after_request :
      {A : Type 0} (call : Call) (Q : Object → A → Type 0) (w : W) (sent : Answer F Object)
      → ((o : Object) → sent ≡ returned o → IsAnswered (do_fetch call w).0 o)
      → (k : Object → Answer F A) → ((o : Object) (a : A) → k o ≡ returned a → Q o a)
      → IsOneCall call Q w (proceed (λ o w'. (k o, w')) (sent, (do_fetch call w).1))
  after_request call Q w (threw e) h k l = refl
  after_request call Q w (returned o) h k l = read_answer call Q w o (h o refl) (k o) (l o)

  -- A request and the reading of its answer.
  pub request-IsOneCall :
      {A : Type 0} (call : Call) (code : String) (Q : Object → A → Type 0) (w : W)
      (k : Object → Answer F A)
      → ((o : Object) (a : A) → k o ≡ returned a → Q o a)
      → IsOneCall call Q w
          (proceed (λ o w'. (k o, w')) (request do_fetch parse_envelope call code w))
  unfolding request
  request-IsOneCall call code Q w k l =
      after_request call Q w (of_response do_fetch parse_envelope code (do_fetch call w).0)
        (answered (do_fetch call w).0 code) k l

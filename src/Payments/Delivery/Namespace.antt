-- ===== src/Payments/Delivery/Namespace.antt =====
-- The key under which an event is claimed, `${namespace}:${event.id}`.
use Prim.Native.Char.{Char, code}
use Prim.Native.String
use Prim.Native.String.{[], ◌∷◌}
use text.Mathlib.TextLemmas.{nil-append, cons-append, append_assoc}
use theokit_plugins.Common.{String, ◌≡◌, ◌≢◌, refl, ap, ◌∙◌, sym, ap₂}
use theokit_plugins.Payments.Delivery.{event_key}

abbrev pub NoColon : String → Type 0
NoColon [] = Unit
NoColon (c ∷ s) = (code c ≢ b':') × NoColon s

key_nil : (id : String) → event_key [] id ≡ String.◌++◌ ":" id
unfolding event_key
key_nil id = nil-append _

colon_cons : (id : String) → (c : Char) × (code c ≡ b':') × (String.◌++◌ ":" id ≡ c ∷ id)
colon_cons id = (":", refl, rw (cons-append, nil-append) refl)

key_cons : (c : Char) (n id : String) → event_key (c ∷ n) id ≡ c ∷ event_key n id
unfolding event_key
key_cons c n id = cons-append c n _

tail_eq : (c d : Char) (s t : String) → c ∷ s ≡ d ∷ t → s ≡ t
tail_eq c d s t e = cc

head_eq : (c d : Char) (s t : String) → c ∷ s ≡ d ∷ t → c ≡ d
head_eq c d s t e = cc

-- Keys of namespaces without a colon do not collide: equal keys come from equal namespaces and
-- equal ids.
pub event_key-injective :
    (n m i j : String) → NoColon n → NoColon m → event_key n i ≡ event_key m j → (n ≡ m) × (i ≡ j)
event_key-injective [] [] i j p q e =
    (refl, tail_eq _ _ i j (sym (key_nil i ∙ (colon_cons i).2) ∙ e ∙ key_nil j ∙ (colon_cons j).2))
event_key-injective [] (d ∷ m) i j p q e =
    let (c, colon, key) = colon_cons i in
    let same = head_eq c d i (event_key m j) (sym (key_nil i ∙ key) ∙ e ∙ key_cons d m j) in
    absurd (q.0 (ap code (sym same) ∙ colon))
event_key-injective (c ∷ n) [] i j p q e =
    let (d, colon, key) = colon_cons j in
    let same = head_eq c d (event_key n i) j (sym (key_cons c n i) ∙ e ∙ key_nil j ∙ key) in
    absurd (p.0 (ap code same ∙ colon))
event_key-injective (c ∷ n) (d ∷ m) i j p q e =
    let both = sym (key_cons c n i) ∙ e ∙ key_cons d m j in
    let (names, ids) = event_key-injective n m i j p.1 q.1 (tail_eq c d _ _ both) in
    (ap₂ String.◌∷◌ (head_eq c d _ _ both) names, ids)

-- A colon in a gateway's name makes two keys meet: the events `c` of `a:b` and `b:c` of `a`.
pub event_key_collision :
    (a b c : String)
    → event_key (String.◌++◌ a (String.◌++◌ ":" b)) c
      ≡ event_key a (String.◌++◌ b (String.◌++◌ ":" c))
unfolding event_key
event_key_collision a b c = rw (append_assoc, append_assoc) refl

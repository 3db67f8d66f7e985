-- ===== src/Common/Async.antt =====
-- An `async` function as a state transformer that returns or throws. `W` is whatever the function
-- can reach: the stores, the transport, the clock.
use mathlib.Core.Path.{◌≡◌, refl}
use mathlib.Core.Logic.{◌⊎◌, inl, inr}

pub data Attempt (E A : Type 0) : Type 0 where
  returned : A → Attempt E A
  threw : E → Attempt E A

abbrev pub Async : Type 0 → Type 0 → Type 0 → Type 0
Async W E A = W → Attempt E A × W

-- What follows a call: it runs on a value, and an error passes it by.
abbrev pub proceed : {W E A B : Type 0} → (A → Async W E B) → Attempt E A × W → Attempt E B × W
proceed f (returned a, w) = f a w
proceed f (threw e, w) = (threw e, w)

infixl 5 ◌>>=◌ ◌>>◌
abbrev pub ◌>>=◌ : {W E A B : Type 0} → Async W E A → (A → Async W E B) → Async W E B
◌>>=◌ m f w = proceed f (m w)

abbrev pub ◌>>◌ : {W E A B : Type 0} → Async W E A → Async W E B → Async W E B
m >> k = m >>= λ _. k

abbrev pub pure : {W E A : Type 0} → A → Async W E A
pure a w = (returned a, w)

abbrev pub throw : {W E A : Type 0} → E → Async W E A
throw e w = (threw e, w)

-- `try { … } catch`: the outcome as a value.
abbrev pub attempt : {W E F A : Type 0} → Async W E A → Async W F (Attempt E A)
attempt m w = let (r, w') = m w in (returned r, w')

-- `try { … } catch (e) { … }`: what follows the body, on its outcome.
abbrev pub caught : {W E A : Type 0} → (E → Async W E A) → Attempt E A × W → Attempt E A × W
caught h (returned a, w) = (returned a, w)
caught h (threw e, w) = h e w

-- `finally { … }`: it runs on either outcome, and an error of its own replaces the outcome.
abbrev pub then_keep :
    {E A : Type 0} {W : Type 0} → Attempt E A → Attempt E (Unit {0}) × W → Attempt E A × W
then_keep r (returned _, w) = (r, w)
then_keep r (threw e, w) = (threw e, w)

abbrev pub finally : {W E A : Type 0} → Async W E (Unit {0}) → Attempt E A × W → Attempt E A × W
finally f (r, w) = then_keep r (f w)

-- The run of an async function keeps a predicate of the state, whether it returns or throws.
abbrev pub Keeps : {W E A : Type 0} → (W → Type 0) → Async W E A → Type 0
Keeps {W} P m = (w : W) → P w → P (m w).1

pub Keeps-proceed :
    {W E A B : Type 0} (P : W → Type 0) (p : Attempt E A × W) (f : A → Async W E B)
    → P p.1
    → ((a : A) → Keeps P (f a))
    → P (proceed f p).1
Keeps-proceed P (returned a, w) f h k = k a w h
Keeps-proceed P (threw e, w) f h k = h

pub Keeps-bind :
    {W E A B : Type 0} (P : W → Type 0) (m : Async W E A) (f : A → Async W E B)
    → Keeps P m
    → ((a : A) → Keeps P (f a))
    → Keeps P (m >>= f)
Keeps-bind P m f h k w l = Keeps-proceed P (m w) f (h w l) k

pub Keeps-caught :
    {W E A : Type 0} (P : W → Type 0) (p : Attempt E A × W) (h : E → Async W E A)
    → P p.1
    → ((e : E) → Keeps P (h e))
    → P (caught h p).1
Keeps-caught P (returned a, w) h k l = k
Keeps-caught P (threw e, w) h k l = l e w k

pub Keeps-then_keep :
    {W E A : Type 0} (P : W → Type 0) (r : Attempt E A) (q : Attempt E (Unit {0}) × W)
    → P q.1
    → P (then_keep r q).1
Keeps-then_keep P r (returned _, w) h = h
Keeps-then_keep P r (threw e, w) h = h

-- How a run ends: a value with a state of `Q`, or an error with a state of `R`.
abbrev pub Ends : {W E A : Type 0} → (A → W → Type 0) → (E → W → Type 0) → Attempt E A × W → Type 0
Ends Q R (returned a, w) = Q a w
Ends Q R (threw e, w) = R e w

pub Ends-state :
    {W E A : Type 0} (P : W → Type 0) (p : Attempt E A × W) → P p.1 → Ends (λ a. P) (λ e. P) p
Ends-state P (returned a, w) h = h
Ends-state P (threw e, w) h = h

pub Ends-weaker :
    {W E A : Type 0} (Q : A → W → Type 0) {R R' : E → W → Type 0}
    → ((e : E) (w : W) → R e w → R' e w)
    → (p : Attempt E A × W) → Ends Q R p
    → Ends Q R' p
Ends-weaker Q weaker (returned a, w) h = h
Ends-weaker Q weaker (threw e, w) h = weaker e w h

pub Ends-proceed :
    {W E A B : Type 0} {Q : A → W → Type 0} {R : E → W → Type 0} (Q' : B → W → Type 0)
    (R' : E → W → Type 0) (p : Attempt E A × W) (f : A → Async W E B)
    → Ends Q R p
    → ((a : A) (w : W) → Q a w → Ends Q' R' (f a w))
    → ((e : E) (w : W) → R e w → R' e w)
    → Ends Q' R' (proceed f p)
Ends-proceed Q' R' (returned a, w) f h k l = k a w h
Ends-proceed Q' R' (threw e, w) f h k l = l e w h

pub Ends-caught :
    {W E A : Type 0} {R : E → W → Type 0} (Q : A → W → Type 0) (R' : E → W → Type 0)
    (p : Attempt E A × W) (c : E → Async W E A)
    → Ends Q R p
    → ((e : E) (w : W) → R e w → Ends Q R' (c e w))
    → Ends Q R' (caught c p)
Ends-caught Q R' (returned a, w) c h k = h
Ends-caught Q R' (threw e, w) c h k = k e w h

Ends-then_keep :
    {W E A : Type 0} (Q R : W → Type 0) (r : Attempt E A) (q : Attempt E (Unit {0}) × W)
    → Q q.1
    → R q.1
    → Ends (λ a. Q) (λ e. R) (then_keep r q)
Ends-then_keep Q R (returned a) (returned _, w) h k = h
Ends-then_keep Q R (threw e) (returned _, w) h k = k
Ends-then_keep Q R r (threw e, w) h k = k

Ends-then_keep_threw :
    {W E : Type 0} (A : Type 0) (Q R : W → Type 0) (e : E) (q : Attempt E (Unit {0}) × W)
    → R q.1
    → Ends {A = A} (λ a. Q) (λ e. R) (then_keep (threw e) q)
Ends-then_keep_threw A Q R e (returned _, w) h = h
Ends-then_keep_threw A Q R e (threw d, w) h = h

-- What the `finally` keeps on both of its ends, whichever the body had.
pub Ends-finally :
    {W E A : Type 0} (Q R : W → Type 0) (f : Async W E (Unit {0})) (p : Attempt E A × W)
    → Ends (λ a. Q) (λ e. R) p
    → ((w : W) → Q w → R w)
    → Keeps Q f
    → Keeps R f
    → Ends (λ a. Q) (λ e. R) (finally f p)
Ends-finally Q R f (returned a, w) h weaker kq kr =
    Ends-then_keep Q R (returned a) (f w) (kq w h) (weaker _ (kq w h))
Ends-finally Q R f (threw e, w) h weaker kq kr = Ends-then_keep_threw _ Q R e (f w) (kr w h)

pub Attempt-cases :
    {E A : Type 0} (r : Attempt E A) → ((a : A) × (r ≡ returned a)) ⊎ ((e : E) × (r ≡ threw e))
Attempt-cases (returned a) = inl (a, refl)
Attempt-cases (threw e) = inr (e, refl)

-- A step that returns hands its value and its state on.
pub proceed-returned :
    {W E A B : Type 0} (p : Attempt E A × W) {a : A} (f : A → Async W E B)
    → p.0 ≡ returned a
    → proceed f p ≡ f a p.1
proceed-returned (returned b, w) f h = cc
proceed-returned (threw e, w) f h = cc

-- A step that throws ends the whole.
pub proceed-threw :
    {W E A B : Type 0} (p : Attempt E A × W) {e : E} (f : A → Async W E B)
    → p.0 ≡ threw e
    → proceed f p ≡ (threw e, p.1)
proceed-threw (returned b, w) f h = cc
proceed-threw (threw d, w) f h = cc

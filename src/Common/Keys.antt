-- ===== src/Common/Keys.antt =====
-- Equality of keys as an interface, with its instances at texts and numbers.
use Prim.Native.Nat.{ℕ}
use Prim.Native.String.{String}
use mathlib.Core.Path.{◌≡◌, refl}
use mathlib.Core.Logic.{◌↔◌, ◌≢◌}
use mathlib.Core.Bool.{Bool, true, false, ◌&&◌}
use mathlib.Core.List.{List, [], ◌∷◌}
use native.Mathlib.Omega.{arith}
use text.Mathlib.Text.{◌==◌ as str_eq}
use text.Mathlib.TextEquality.{eq_iff}
use theokit_plugins.Common.Tests.{nat_beq, nat_beq_iff}

pub record Eq (A : Type 0) : Type 0 where
  pub beq : A → A → Bool
  pub beq_iff : (a b : A) → (beq a b ≡ true) ↔ (a ≡ b)

infix 50 ◌==◌
abbrev pub ◌==◌ : {A : Type 0} ⦃e : Eq A⦄ → A → A → Bool
◌==◌ ⦃e⦄ = e.beq

instance abbrev pub nat_eq : Eq ℕ
nat_eq = record { beq = nat_beq; beq_iff = nat_beq_iff }

instance abbrev pub string_eq : Eq String
string_eq = record { beq = str_eq; beq_iff = eq_iff }

pub beq_self : {A : Type 0} ⦃e : Eq A⦄ (a : A) → (a == a) ≡ true
beq_self ⦃e⦄ a = (e.beq_iff a a).1 refl

pub beq_ne : {A : Type 0} ⦃e : Eq A⦄ (a b : A) → a ≢ b → (a == b) ≡ false
beq_ne ⦃e⦄ a b h = ground (arith, e.beq_iff a b)

abbrev pub codes_beq : List ℕ → List ℕ → Bool
codes_beq [] [] = true
codes_beq [] (d ∷ ds) = false
codes_beq (c ∷ cs) [] = false
codes_beq (c ∷ cs) (d ∷ ds) = nat_beq c d && codes_beq cs ds

pub codes_beq_iff : (cs ds : List ℕ) → (codes_beq cs ds ≡ true) ↔ (cs ≡ ds)
codes_beq_iff [] [] = ground arith
codes_beq_iff [] (d ∷ ds) = ground arith
codes_beq_iff (c ∷ cs) [] = ground arith
codes_beq_iff (c ∷ cs) (d ∷ ds) = ground (arith, codes_beq_iff cs ds)

instance abbrev pub codes_eq : Eq (List ℕ)
codes_eq = record { beq = codes_beq; beq_iff = codes_beq_iff }

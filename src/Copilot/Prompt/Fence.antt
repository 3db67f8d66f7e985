-- ===== src/Copilot/Prompt/Fence.antt =====
-- No marker of the fence is left in what it encloses.
use theokit_plugins.Common.{
  ℕ, zero, suc, ◌<◌, ◌≤◌, Bool, false, List, [], ◌∷◌, ◌||◌, length, ◌==◌, codes_eq, ltb, ◌≡◌, ◌≢◌,
  refl, ap, ◌∙◌, arith, Bool-cases, inl, inr,
}
use theokit_plugins.Common.Text.{codes, begins}
use theokit_plugins.Copilot.Prompt.{
  open_mark, close_mark, remove_marks, without, strip_once, strip, sanitized,
}

-- The text has the mark somewhere in it.
abbrev pub contains : List ℕ → List ℕ → Bool
contains m [] = begins m []
contains m (c ∷ cs) = begins m (c ∷ cs) || contains m cs

module _ (c : ℕ) (cs : List ℕ) where
  length-remove_marks : (skip : ℕ) (s : List ℕ) → length (remove_marks c cs skip s) ≤ length s
  unfolding remove_marks
  length-remove_marks skip [] = ground arith
  length-remove_marks (suc skip) (d ∷ ds) = ground (arith, length-remove_marks skip ds)
  length-remove_marks zero (d ∷ ds) =
      ground (arith, length-remove_marks zero ds, length-remove_marks (length cs) ds)

  -- A removal that shortens nothing had nothing to remove, and then changes nothing.
  full_length-clean :
      (s : List ℕ) → length s ≤ length (remove_marks c cs zero s) → contains (c ∷ cs) s ≡ false
  unfolding remove_marks
  full_length-clean [] h = refl
  full_length-clean (d ∷ ds) h =
      ground (arith, full_length-clean ds, length-remove_marks (length cs) ds)

  remove_marks-clean : (s : List ℕ) → contains (c ∷ cs) s ≡ false → remove_marks c cs zero s ≡ s
  unfolding remove_marks
  remove_marks-clean [] h = refl
  remove_marks-clean (d ∷ ds) h = ground (arith, remove_marks-clean ds)

abbrev open_rest : List ℕ
open_rest = codes "<<UNTRUSTED_USER_INPUT>>>"

abbrev close_rest : List ℕ
close_rest = codes "<<END_UNTRUSTED_USER_INPUT>>>"

-- A text with neither marker in it.
abbrev pub IsClean : List ℕ → Type 0
IsClean s = (contains open_mark s ≡ false) × (contains close_mark s ≡ false)

strip_once-clean : (s : List ℕ) → IsClean s → strip_once s ≡ s
unfolding strip_once
strip_once-clean s (o, c) =
    ap (without close_mark) (remove_marks-clean b'<' open_rest s o)
    ∙ remove_marks-clean b'<' close_rest s c

strip_once-same : (s : List ℕ) → length s ≤ length (strip_once s) → IsClean s
unfolding strip_once
strip_once-same s h =
    let less = length-remove_marks b'<' close_rest zero (without open_mark s) in
    let o = full_length-clean b'<' open_rest s (omega (arith, h, less)) in
    let whole = remove_marks-clean b'<' open_rest s o in
    (o, full_length-clean b'<' close_rest s (rw whole at h))

-- A turn that changes the text shortens it.
strip_once-shorter : (s : List ℕ) → strip_once s ≢ s → length (strip_once s) < length s
strip_once-shorter s h = elim (Bool-cases (ltb (length (strip_once s)) (length s))) [
  | inl shorter ↦ ground arith
  | inr longer ↦ absurd (h (strip_once-clean s (strip_once-same s (ground arith))))
]

strip-IsClean : (fuel : ℕ) (s : List ℕ) → length s < fuel → IsClean (strip fuel s)
unfolding strip
strip-IsClean zero s lt = absurd (omega arith)
strip-IsClean (suc fuel) s lt = elim (Bool-cases (strip_once s == s)) [
  | inl same ↦
      let stays : strip_once s ≡ s = (codes_eq.beq_iff (strip_once s) s).0 same in
      rw same (strip_once-same s (rw stays (omega arith)))
  | inr changed ↦
      let shorter = strip_once-shorter s (λ e. ground (arith, codes_eq.beq_iff (strip_once s) s)) in
      rw changed (strip-IsClean fuel (strip_once s) (omega (arith, shorter)))
]

-- What the fence encloses holds neither of its markers, nested as they may be in the input: the
-- loop ends within one turn more than the text is long. A text without markers is kept as it is.
pub sanitized-IsClean :
    (text : List ℕ) → IsClean (sanitized text) × (IsClean text → sanitized text ≡ text)
unfolding sanitized strip
sanitized-IsClean text = (
  strip-IsClean (suc (length text)) text (omega arith),
  (λ clean. rw ((codes_eq.beq_iff (strip_once text) text).1 (strip_once-clean text clean)) refl),
)

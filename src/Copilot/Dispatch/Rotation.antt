-- ===== src/Copilot/Dispatch/Rotation.antt =====
-- The rotation moves once for a frame, whatever the number of copilots that see it.
use theokit_plugins.Common.{
  ℕ, zero, suc, ◌+◌, ◌%◌, String, false, some, List, [], ◌∷◌, length, get_elem?, nat_beq, string_eq,
  nat_eq, ◌≡◌, ◌≢◌, refl, subst, ap, arith, All, Option-cases, inl, inr, beq_self, beq_ne,
}
use theokit_plugins.Common.Assoc.{get, get-set}
use theokit_plugins.Copilot.Dispatch.{
  round_robin, Decision, Rota, cursor_or_zero, one_of, advance, cached_or_advance, apply_dispatcher,
}

-- Every one of `calls` copilots of the room asks about the same frame.
unfoldable pub ask : (calls : ℕ) → List String → String → ℕ → Rota → List (List String) × Rota
unfolding apply_dispatcher
ask zero copilots room frame rota = ([], rota)
ask (suc calls) copilots room frame rota =
    let (chosen, rota') = apply_dispatcher round_robin copilots room frame rota in
    let (answers, after) = ask calls copilots room frame rota' in (chosen ∷ answers, after)

-- Frame after frame, each asked about by every copilot of the room in turn.
unfoldable pub ask_frames : List String → String → List ℕ → Rota → List (List (List String)) × Rota
unfolding ask
ask_frames copilots room [] rota = ([], rota)
ask_frames copilots room (frame ∷ frames) rota =
    let (answers, rota') = ask (length copilots) copilots room frame rota in
    let (rest, after) = ask_frames copilots room frames rota' in (answers ∷ rest, after)

abbrev pub turn_of : String → Rota → ℕ
turn_of room rota = cursor_or_zero (get room rota.cursors)

-- The frame is not the one that the room's memo is about.
abbrev pub IsNew : String → ℕ → Rota → Type 0
IsNew room frame rota = (d : Decision) → get room rota.decisions ≡ some d → d.frame ≢ frame

abbrev pub IsMemo : String → ℕ → List String → Rota → Type 0
IsMemo room frame chosen rota =
    get room rota.decisions ≡ some (record { frame = frame; chosen = chosen })

abbrev pub AllSame : {A : Type 0} → A → ℕ → List A → Type 0
AllSame a n xs = (length xs ≡ n) × All (λ x. x ≡ a) xs

module _ (c d : String) (rest : List String) (room : String) where
  memo-ask :
      (calls frame : ℕ) (chosen : List String) (rota : Rota)
      → IsMemo room frame chosen rota
      → AllSame chosen calls (ask calls (c ∷ d ∷ rest) room frame rota).0
        × ((ask calls (c ∷ d ∷ rest) room frame rota).1 ≡ rota)
  unfolding ask apply_dispatcher
  memo-ask zero frame chosen rota memo = ((refl, tt), refl)
  memo-ask (suc calls) frame chosen rota memo =
      let ((n, same), stays) = memo-ask calls frame chosen rota memo in
      rw (memo, beq_self ⦃e = nat_eq⦄ frame) ((ap suc n, (refl, same)), stays)

  advance-new :
      (frame : ℕ) (rota : Rota)
      → IsNew room frame rota
      → cached_or_advance (get room rota.decisions) (c ∷ d ∷ rest) room frame rota
        ≡ advance (c ∷ d ∷ rest) room frame rota
  advance-new frame rota new = elim (Option-cases (get room rota.decisions)) [
    | inl none_yet ↦ rw none_yet refl
    | inr (e, old) ↦
        let apart : nat_beq e.frame frame ≡ false = beq_ne ⦃e = nat_eq⦄ e.frame frame (new e old) in
        rw (old, apart) refl
  ]

  advance-facts :
      (frame : ℕ) (rota : Rota)
      → let chosen =
          one_of (get_elem? (c ∷ d ∷ rest) (turn_of room rota % length (c ∷ d ∷ rest))) in
        let after = advance (c ∷ d ∷ rest) room frame rota in
        (after.0 ≡ chosen)
        × (turn_of room after.1 ≡ turn_of room rota % length (c ∷ d ∷ rest) + 1)
        × IsMemo room frame chosen after.1
  unfolding advance
  advance-facts frame rota = rw (get-set, get-set, beq_self room) (refl, refl, refl)

  -- The first copilot to see a new frame moves the rotation; the others are told its choice.
  ask-new :
      (calls frame : ℕ) (rota : Rota)
      → IsNew room frame rota
      → let n = length (c ∷ d ∷ rest) in
        let after = (ask (suc calls) (c ∷ d ∷ rest) room frame rota).1 in
        let chosen = one_of (get_elem? (c ∷ d ∷ rest) (turn_of room rota % n)) in
        AllSame chosen (suc calls) (ask (suc calls) (c ∷ d ∷ rest) room frame rota).0
        × (turn_of room after ≡ turn_of room rota % n + 1)
        × IsMemo room frame chosen after
  unfolding ask apply_dispatcher
  ask-new calls frame rota new =
      let (same, turn, memo) = advance-facts frame rota in
      let ((n, all), stays) =
        memo-ask calls frame _ (advance (c ∷ d ∷ rest) room frame rota).1 memo in
      rw (advance-new frame rota new, stays) ((ap suc n, (same, all)), turn, memo)

-- No frame comes twice in a row.
abbrev pub IsChanging : ℕ → List ℕ → Type 0
IsChanging f [] = Unit
IsChanging f (g ∷ gs) = (f ≢ g) × IsChanging g gs

-- The answers go round: each frame has one copilot, the same for all who ask, and the next frame
-- has the next copilot, from the first again after the last.
abbrev pub IsRotation : List String → ℕ → List (List (List String)) → Type 0
IsRotation copilots turn [] = Unit
IsRotation copilots turn (answers ∷ rest) =
    AllSame (one_of (get_elem? copilots (turn % length copilots))) (length copilots) answers
    × IsRotation copilots (turn % length copilots + 1) rest

module _ (c d : String) (rest : List String) (room : String) where
  -- In a room of two copilots or more, where every frame is asked about by each copilot in turn
  -- and no frame comes twice in a row, every frame has exactly one copilot chosen, the same in
  -- every copilot's answer, and the choice goes round the room from where it stood.
  pub ask_frames-IsRotation :
      (frames : List ℕ) (frame : ℕ) (rota : Rota)
      → IsNew room frame rota
      → IsChanging frame frames
      → IsRotation
          (c ∷ d ∷ rest)
          (turn_of room rota)
          (ask_frames (c ∷ d ∷ rest) room (frame ∷ frames) rota).0
  unfolding ask_frames
  ask_frames-IsRotation [] frame rota new k =
      let (same, turn, memo) = ask-new c d rest room (suc (length rest)) frame rota new in
      (same, tt)
  ask_frames-IsRotation (g ∷ gs) frame rota new (apart, k) =
      let (same, turn, memo) = ask-new c d rest room (suc (length rest)) frame rota new in
      let after = (ask (length (c ∷ d ∷ rest)) (c ∷ d ∷ rest) room frame rota).1 in
      (
        same,
        subst (λ t. IsRotation (c ∷ d ∷ rest) t (ask_frames (c ∷ d ∷ rest) room (g ∷ gs) after).0)
            turn
            (ask_frames-IsRotation gs g after
              (λ e old same_frame. apart (ground (arith, memo, old, same_frame))) k),
      )

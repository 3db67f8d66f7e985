-- ===== src/Copilot/Dispatch.antt =====
-- packages/plugin-copilot/src/internal/runtime.ts: which copilots of a room answer a frame
-- (`applyDispatcher`), and the rotation's state over the registry's life. A frame is the number
-- of its object, since the memo compares frames by identity.
pub mod Rotation
use theokit_plugins.Common.{
  ℕ, suc, ◌+◌, ◌%◌, String, Bool, true, false, Option, none, some, List, [], ◌∷◌, length, get_elem?,
  nat_beq, if◌then◌else◌, ◌==◌, string_eq,
}
use theokit_plugins.Common.Assoc.{Assoc, get, set, delete}

-- `CopilotDispatcher`
pub data Dispatcher : Type 0 where
  first_wins round_robin every : Dispatcher
  custom : (List String → ℕ → List String) → Dispatcher

-- `roundRobinDecision`'s entries
pub record Decision : Type 0 where
  pub frame : ℕ
  pub chosen : List String

-- `roundRobinCursor` and `roundRobinDecision`
pub record Rota : Type 0 where
  pub cursors : Assoc String ℕ
  pub decisions : Assoc String Decision

abbrev pub cursor_or_zero : Option ℕ → ℕ
cursor_or_zero none = 0
cursor_or_zero (some n) = n

abbrev pub one_of : Option String → List String
one_of none = []
one_of (some id) = id ∷ []

-- The case 'round-robin', when nothing is cached for the frame.
unfoldable pub advance : List String → String → ℕ → Rota → List String × Rota
advance copilots room frame rota =
    let cursor = cursor_or_zero (get room rota.cursors) % length copilots in
    let chosen = one_of (get_elem? copilots cursor) in
    (
      chosen,
      record {
        cursors = set room (cursor + 1) rota.cursors;
        decisions = set room (record { frame = frame; chosen = chosen }) rota.decisions;
      },
    )

abbrev pub cached_or_advance :
    Option Decision → List String → String → ℕ → Rota → List String × Rota
cached_or_advance none copilots room frame rota = advance copilots room frame rota
cached_or_advance (some d) copilots room frame rota =
    if nat_beq d.frame frame then (d.chosen, rota) else advance copilots room frame rota

abbrev pub by_policy : Dispatcher → List String → String → ℕ → Rota → List String × Rota
by_policy (custom f) copilots room frame rota = (f copilots frame, rota)
by_policy every copilots room frame rota = (copilots, rota)
by_policy round_robin copilots room frame rota =
    cached_or_advance (get room rota.decisions) copilots room frame rota
by_policy first_wins copilots room frame rota = (one_of (get_elem? copilots 0), rota)

-- `applyDispatcher`
unfoldable pub apply_dispatcher : Dispatcher → List String → String → ℕ → Rota → List String × Rota
unfolding advance
apply_dispatcher dispatcher [] room frame rota = ([], rota)
apply_dispatcher dispatcher (c ∷ []) room frame rota = (c ∷ [], rota)
apply_dispatcher dispatcher (c ∷ d ∷ rest) room frame rota =
    by_policy dispatcher (c ∷ d ∷ rest) room frame rota

-- `registry`: each copilot's room, in order of registration.
unfoldable pub copilots_in_room : String → Assoc String String → List String
copilots_in_room room [] = []
copilots_in_room room ((id, r) ∷ rest) =
    let others = copilots_in_room room rest in if r == room then id ∷ others else others

abbrev prune_if_empty : String → List String → Rota → Rota
prune_if_empty room (c ∷ cs) rota = rota
prune_if_empty room [] rota = record {
  cursors = delete room rota.cursors;
  decisions = delete room rota.decisions;
}

-- The end of `unregisterCopilot`: the entry goes, and the rotation of a room that is left empty.
unfoldable pub unregister_copilot :
    String → Assoc String String × Rota → Bool × (Assoc String String × Rota)
unfolding copilots_in_room
unregister_copilot id (registry, rota) = elim (get id registry) [
  | none ↦ (false, (registry, rota))
  | some room ↦
      let left = delete id registry in
      (true, (left, prune_if_empty room (copilots_in_room room left) rota))
]

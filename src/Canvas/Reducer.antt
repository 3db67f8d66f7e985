-- ===== src/Canvas/Reducer.antt =====
-- packages/plugin-canvas/src/ui/canvas-reducer-handlers.ts: the state behind `useCanvas`.
pub mod History
use theokit_plugins.Common.{
  ℕ, String, Bool, true, false, not, Option, none, some, List, [], ◌∷◌, ◌++◌, filter, last, nat_beq,
  if◌then◌else◌, ◌==◌, string_eq,
}
use theokit_plugins.Common.Assoc.{Assoc, get, set, delete}
use theokit_plugins.Canvas.Artifact.{Artifact, CanvasError}
use theokit_plugins.Canvas.Store.{or_empty, has_version, sort_versions, put_versions}

pub record Pointer : Type 0 where
  pub id : String
  pub version : ℕ

pub record CanvasState : Type 0 where
  pub history : Assoc String (List Artifact)
  pub pointer : Option Pointer
  pub is_open : Bool
  pub error : Option CanvasError

pub data CanvasAction : Type 0 where
  show : Artifact → (auto_open : Bool) → CanvasAction
  select_existing : (id : String) → (version : ℕ) → CanvasAction
  hide : CanvasAction
  set_open : Bool → CanvasAction
  fail : CanvasError → CanvasAction
  clear_error : CanvasAction
  remove : (id : String) → (version : Option ℕ) → CanvasAction

unfoldable pub handle_show : CanvasState → Artifact → Bool → CanvasState
handle_show state a auto_open =
    let existing = or_empty (get a.id state.history) in
    let filtered = filter (λ b. not (has_version a.version b)) existing in
    record state {
      history = set a.id (sort_versions (filtered ++ a ∷ [])) state.history;
      pointer = some (record { id = a.id; version = a.version });
      is_open = if auto_open then true else state.is_open;
      error = none;
    }

-- `remaining[remaining.length - 1]?.version ?? 1`
abbrev pub last_version : Option Artifact → ℕ
last_version none = 1
last_version (some a) = a.version

abbrev pub moved : String → List Artifact → Option Pointer
moved id [] = none
moved id (a ∷ rest) = some (record { id = id; version = last_version (last (a ∷ rest)) })

abbrev pub resolve_pointer_after_remove : Option Pointer → String → List Artifact → Option Pointer
resolve_pointer_after_remove none id remaining = none
resolve_pointer_after_remove (some p) id remaining =
    if p.id == id then moved id remaining else some p

abbrev pub remaining_after : Option ℕ → List Artifact → List Artifact
remaining_after none existing = []
remaining_after (some v) existing = filter (λ a. not (has_version v a)) existing

abbrev remove_from : CanvasState → String → List Artifact → CanvasState
remove_from state id remaining = record state {
  history = put_versions id remaining state.history;
  pointer = resolve_pointer_after_remove state.pointer id remaining;
}

unfoldable pub handle_remove : CanvasState → String → Option ℕ → CanvasState
handle_remove state id version = elim (get id state.history) [
  | none ↦ state
  | some existing ↦ remove_from state id (remaining_after version existing)
]

unfoldable pub reducer : CanvasState → CanvasAction → CanvasState
unfolding handle_show handle_remove
reducer state (show a auto_open) = handle_show state a auto_open
reducer state (select_existing id version) = record state {
  pointer = some (record { id = id; version = version });
}
reducer state hide = record state { is_open = false }
reducer state (set_open o) = record state { is_open = o }
reducer state (fail e) = record state { error = some e }
reducer state clear_error = record state { error = none }
reducer state (remove id version) = handle_remove state id version

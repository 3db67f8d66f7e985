-- ===== src/Canvas/BusTests.antt =====
-- Three handlers on a bus, of which the second throws.
use theokit_plugins.Common.{
  ℕ, String, Bool, List, [], ◌∷◌, ◌++◌, map, nat_beq, ◌≡◌, refl, none, string_eq,
}
use theokit_plugins.Common.Assoc.{get, set, delete}
use theokit_plugins.Canvas.Artifact.{Artifact, epoch, markdown_of}
use theokit_plugins.Canvas.Bus.{
  create_artifact_bus, handlers_of, emit_each, emit, list_conversations, Op, subscribes,
  unsubscribes, emits, run_ops,
}
use theokit_plugins.Canvas.Bus.Subscribers.{IsBus, wanted, none_wanted, run_ops-IsBus}

abbrev page : Artifact
page = record {
  id = "a";
  session_id = none;
  title = "page";
  version = 1;
  created_at = epoch 1;
  payload = markdown_of "text";
}

abbrev second_throws : ℕ → Artifact → Bool
second_throws h a = nat_beq h 2

abbrev uses : List Op
uses =
    subscribes "c" 1
    ∷ subscribes "c" 2
    ∷ subscribes "c" 3
    ∷ subscribes "d" 1
    ∷ subscribes "c" 2
    ∷ unsubscribes "c" 1
    ∷ unsubscribes "d" 1
    ∷ emits "c" page
    ∷ []

uses_test :
    ((run_ops second_throws uses create_artifact_bus).called ≡ (2, page) ∷ (3, page) ∷ [])
    × ((run_ops second_throws uses create_artifact_bus).logged ≡ 2 ∷ [])
    × (list_conversations (run_ops second_throws uses create_artifact_bus) ≡ "c" ∷ [])
unfolding run_ops emit_each get set delete
uses_test = (refl, refl, refl)

run_ops-IsBus_example :
    IsBus (wanted uses none_wanted) (run_ops second_throws uses create_artifact_bus)
    × ((c : String) (a : Artifact)
        → let b = run_ops second_throws uses create_artifact_bus in
          (emit second_throws c a b).called ≡ b.called ++ map (λ h. (h, a)) (handlers_of c b))
run_ops-IsBus_example = run_ops-IsBus second_throws uses

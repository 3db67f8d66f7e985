-- ===== src/Canvas/Tests.antt =====
-- Small canvases, and the theorems at them.
use theokit_plugins.Common.{
  ℕ, pos, negsuc, ◌+ℤ◌, ◌↔◌, String, Bool, true, false, none, some, List, [], ◌∷◌, ◌+◌, ◌≡◌, refl,
  arith, length, ◌≤◌, string_eq,
}
use theokit_plugins.Common.Assoc.{get, set, delete}
use theokit_plugins.Common.Async.{returned, threw}
use theokit_plugins.Common.Sort.{sort_by, sort_down, Descending}
use theokit_plugins.Canvas.Artifact.{
  Artifact, epoch, markdown_of, version_taken, not_found, payload_ok, is_artifact,
  validate_artifact, opens_svg,
}
use theokit_plugins.Canvas.Store.{
  ById, mem_insert, mem_get, mem_next_version, mem_delete, mem_list, ListFilter, every, time_of,
  slice, rows_of, mem_matches_filter,
}
use theokit_plugins.Canvas.Store.Invariant.{
  Write, insert, remove, run_writes, run_writes-IsStored, IsStored,
}
use theokit_plugins.Canvas.Reducer
use theokit_plugins.Canvas.Reducer.{CanvasState, reducer}
use theokit_plugins.Canvas.Reducer.History.{IsHistory, reducer-IsHistory}
use theokit_plugins.Canvas.Store.Listing.{mem_list_page}
use theokit_plugins.Canvas.Store.Shown.{IsShown, IsMap}
use theokit_plugins.Canvas.Store.Unrepeated.{Unrepeated}
use theokit_plugins.Canvas.Store.Rows.{In}
use theokit_plugins.Canvas.Store.Versions.{mem_get-mem_insert}

abbrev dated : String → Bool
dated s = true

abbrev note : String → ℕ → Artifact
note id v = record {
  id = id;
  session_id = none;
  title = "note";
  version = v;
  created_at = epoch (v + 10);
  payload = markdown_of "text";
}

runs : Unit {0}
unfolding mem_list rows_of mem_matches_filter sort_down mem_insert validate_artifact is_artifact
    payload_ok get set delete sort_by mem_get mem_delete mem_next_version run_writes opens_svg
runs = tt

abbrev two : ById
two = ("a", note "a" 1 ∷ note "a" 2 ∷ []) ∷ []

insert_tests :
    (mem_insert dated [] (note "a" 1) ≡ returned (note "a" 1, ("a", note "a" 1 ∷ []) ∷ []))
    × (mem_insert dated two (note "a" 2) ≡ threw (version_taken "a" 2))
    × (mem_delete two "a" (some 3) ≡ threw (not_found "a" (some 3)))
    × (mem_next_version two "a" ≡ 3)
    × (opens_svg "  <SVG >" ≡ true)
    × (opens_svg "<svgx" ≡ false)
unfolding runs
insert_tests = (refl, refl, refl, refl, refl, refl)

abbrev one : ById
one = ("a", note "a" 1 ∷ []) ∷ []

abbrev writes : List Write
writes = insert (note "a" 1) ∷ insert (note "b" 1) ∷ insert (note "a" 2) ∷ remove "b" none ∷ []

run_writes-IsStored_example : IsStored dated (run_writes dated writes [])
run_writes-IsStored_example = run_writes-IsStored dated writes

mem_get-mem_insert_example : mem_get two "a" (some 1) ≡ some (note "a" 1)
unfolding runs
mem_get-mem_insert_example = mem_get-mem_insert dated one two (note "a" 2) (note "a" 2) "a" 1 refl

abbrev newest_two : ListFilter
newest_two = record {
  session_id = none;
  kind = none;
  mode = none;
  offset = none;
  limit = some (pos 2);
}

abbrev read_date : String → ℕ
read_date s = 0

writes-IsStored : IsStored dated two
unfolding runs
writes-IsStored = run_writes-IsStored dated (insert (note "a" 1) ∷ insert (note "a" 2) ∷ [])

two-IsMap : IsMap two
unfolding get
two-IsMap = (refl, tt)

mem_list_test :
    (mem_list read_date two newest_two ≡ note "a" 2 ∷ [])
    × (mem_list read_date two (record newest_two { mode = some every; limit = some (pos 1) })
        ≡ note "a" 2 ∷ [])
    × (mem_list read_date two (record newest_two { mode = some every; offset = some (negsuc 0) })
        ≡ [])
unfolding runs
mem_list_test = (refl, refl, refl)

mem_list_page_example :
    (rows : List Artifact) × Descending (λ a. time_of read_date a.created_at) rows
    × Unrepeated rows
    × ((a : Artifact) → In a rows ↔ IsShown newest_two two a)
    × (mem_list read_date two newest_two ≡ slice (pos 0) (pos 0 +ℤ pos 2) rows)
    × ((o l : ℕ) → pos 0 ≡ pos o → pos 2 ≡ pos l → length (mem_list read_date two newest_two) ≤ l)
mem_list_page_example = mem_list_page dated read_date two newest_two writes-IsStored two-IsMap

abbrev shown : CanvasState
shown = record {
  history = two;
  pointer = some (record { id = "a"; version = 2 });
  is_open = true;
  error = none;
}

shown-IsHistory : IsHistory shown
unfolding get
shown-IsHistory = record { ordered = (((omega arith, tt), (tt, tt)), tt); pointed = λ e. cc }

reducer-IsHistory_example :
    IsHistory (reducer shown (theokit_plugins.Canvas.Reducer.remove "a" (some 2)))
reducer-IsHistory_example =
    reducer-IsHistory shown (theokit_plugins.Canvas.Reducer.remove "a" (some 2)) shown-IsHistory tt

-- ===== src/Canvas/Reducer/History.antt =====
-- The history keeps its buckets in order, and the pointer stays on something that is there.
use theokit_plugins.Common.{
  ℕ, String, Bool, false, not, Option, none, some, List, [], ◌∷◌, ◌++◌, filter, last, ◌==◌,
  string_eq, ◌≡◌, ◌≢◌, refl, subst, sym, arith, find, All, Option-cases, Bool-cases, inl, inr,
  beq_self, any,
}
use theokit_plugins.Common.Assoc.{Assoc, get, Each, Each-get, Each-set, Each-delete, get-set}
use theokit_plugins.Common.Sort.{Strict, sort_by_snoc-Strict, filter-Strict, find-sort_by}
use theokit_plugins.Canvas.Artifact.{Artifact}
use theokit_plugins.Canvas.Store.{or_empty, has_version, put_versions}
use theokit_plugins.Canvas.Store.Versions.{find-append, get-put_versions}
use theokit_plugins.Canvas.Reducer.{
  Pointer, CanvasState, CanvasAction, show, select_existing, hide, set_open, fail, clear_error,
  remove, handle_show, handle_remove, remaining_after, last_version, resolve_pointer_after_remove,
  moved, reducer,
}

abbrev pub versions_of : CanvasState → String → List Artifact
versions_of s id = or_empty (get id s.history)

-- A version that is in the history.
abbrev pub Holds : Assoc String (List Artifact) → String → ℕ → Type 0
Holds history id v = find (has_version v) (or_empty (get id history)) ≢ none

abbrev pub Points : Assoc String (List Artifact) → Option Pointer → Type 0
Points history none = Unit
Points history (some p) = Holds history p.id p.version

pub record IsHistory (s : CanvasState) : Type 0 where
  pub ordered : Each (λ id vs. Strict (λ (a : Artifact). a.version) vs) s.history
  pub pointed : Points s.history s.pointer

-- What an action asks of the caller: a selection is of a version that is there.
abbrev pub IsAllowed : CanvasState → CanvasAction → Type 0
IsAllowed s (select_existing id v) = Holds s.history id v
IsAllowed s action = Unit

abbrev pub IsOrdered : Assoc String (List Artifact) → Type 0
IsOrdered = Each (λ id vs. Strict (λ (a : Artifact). a.version) vs)

ordered_bucket :
    (history : Assoc String (List Artifact)) (id : String)
    → IsOrdered history
    → Strict (λ (a : Artifact). a.version) (or_empty (get id history))
ordered_bucket history id h = elim (Option-cases (get id history)) [
  | inl missing ↦ rw missing tt
  | inr (vs, found) ↦
      rw found (Each-get (λ id vs. Strict (λ (a : Artifact). a.version) vs) id history h found)
]

apart_filtered :
    (v : ℕ) (vs : List Artifact) → All (λ b. b.version ≢ v) (filter (λ b. not (has_version v b)) vs)
apart_filtered v [] = tt
apart_filtered v (b ∷ vs) = ground (arith, apart_filtered v vs)

any_filtered :
    (v : ℕ) (vs : List Artifact)
    → any (has_version v) (filter (λ b. not (has_version v b)) vs) ≡ false
any_filtered v [] = refl
any_filtered v (b ∷ vs) = ground (arith, any_filtered v vs)

last_found :
    (a : Artifact) (vs : List Artifact) (b : Artifact)
    → last (a ∷ vs) ≡ some b
    → find (has_version b.version) (a ∷ vs) ≢ none
last_found a [] b e = ground arith
last_found a (c ∷ vs) b e = ground (arith, last_found c vs b e)

last_there : (a : Artifact) (vs : List Artifact) → (b : Artifact) × (last (a ∷ vs) ≡ some b)
last_there a [] = (a, refl)
last_there a (c ∷ vs) = last_there c vs

show-IsHistory :
    (s : CanvasState) (a : Artifact) (o : Bool) → IsHistory s → IsHistory (handle_show s a o)
unfolding handle_show
show-IsHistory s a o h =
    let vs = filter (λ b. not (has_version a.version b)) (versions_of s a.id) in
    let key = λ (b : Artifact). b.version in
    record {
      ordered =
          Each-set (λ id vs. Strict (λ (a : Artifact). a.version) vs) a.id _ s.history h.ordered
            (sort_by_snoc-Strict key vs a
              (filter-Strict key _ (versions_of s a.id) (ordered_bucket s.history a.id h.ordered))
              (apart_filtered a.version (versions_of s a.id)));
      pointed =
          rw
            (
              get-set,
              beq_self a.id,
              find-sort_by key a.version (vs ++ a ∷ []),
              find-append a.version vs a (any_filtered a.version _),
            )
            (ground arith);
    }

put_versions-IsOrdered :
    (id : String) (vs : List Artifact) (history : Assoc String (List Artifact))
    → IsOrdered history
    → Strict (λ (a : Artifact). a.version) vs
    → IsOrdered (put_versions id vs history)
put_versions-IsOrdered id [] history h k =
    Each-delete (λ id vs. Strict (λ (a : Artifact). a.version) vs) id history h
put_versions-IsOrdered id (a ∷ vs) history h k =
    Each-set (λ id vs. Strict (λ (a : Artifact). a.version) vs) id (a ∷ vs) history h k

remaining-ordered :
    (version : Option ℕ) (vs : List Artifact)
    → Strict (λ (a : Artifact). a.version) vs
    → Strict (λ (a : Artifact). a.version) (remaining_after version vs)
remaining-ordered none vs h = tt
remaining-ordered (some v) vs h = filter-Strict (λ (a : Artifact). a.version) _ vs h

moved-Points :
    (id : String) (remaining : List Artifact) (history : Assoc String (List Artifact))
    → Points (put_versions id remaining history) (moved id remaining)
moved-Points id [] history = tt
moved-Points id (a ∷ vs) history =
    let (b, e) = last_there a vs in
    let there =
      subst (λ o. find (has_version (last_version o)) (a ∷ vs) ≢ none) (sym e)
        (last_found a vs b e) in
    rw (get-set, beq_self id) there

-- The pointer after a removal is at what is left of the id, if there is any.
put_versions-Points :
    (id : String) (remaining : List Artifact) (history : Assoc String (List Artifact))
    (pointer : Option Pointer)
    → Points history pointer
    → Points (put_versions id remaining history) (resolve_pointer_after_remove pointer id remaining)
put_versions-Points id remaining history none h = tt
put_versions-Points id remaining history (some p) h = elim (Bool-cases (p.id == id)) [
  | inl same ↦ rw same (moved-Points id remaining history)
  | inr other ↦
      let apart : (id == p.id) ≡ false =
        ground (arith, string_eq.beq_iff p.id id, string_eq.beq_iff id p.id) in
      rw (other, get-put_versions id p.id remaining history, apart) h
]

remove-IsHistory :
    (s : CanvasState) (id : String) (version : Option ℕ)
    → IsHistory s
    → IsHistory (handle_remove s id version)
unfolding handle_remove
remove-IsHistory s id version h = elim (Option-cases (get id s.history)) [
  | inl missing ↦ rw (missing, handle_remove) h
  | inr (vs, found) ↦
      let left = remaining_after version vs in
      let key = λ (a : Artifact). a.version in
      let sorted =
        Each-get (λ id vs. Strict (λ (a : Artifact). a.version) vs) id s.history h.ordered found in
      rw (found, handle_remove)
        (record {
          ordered =
              put_versions-IsOrdered id left s.history h.ordered
                (remaining-ordered version vs sorted);
          pointed = put_versions-Points id left s.history s.pointer h.pointed;
        })
]

-- No action breaks the history: its buckets stay in strictly ascending order of version, and the
-- pointer is at a version that is there, where the caller selects one that is there.
pub reducer-IsHistory :
    (s : CanvasState) (action : CanvasAction)
    → IsHistory s
    → IsAllowed s action
    → IsHistory (reducer s action)
unfolding reducer
reducer-IsHistory s (show a o) h k = show-IsHistory s a o h
reducer-IsHistory s (select_existing id v) h k = record { ordered = h.ordered; pointed = k }
reducer-IsHistory s hide h k = record { ordered = h.ordered; pointed = h.pointed }
reducer-IsHistory s (set_open o) h k = record { ordered = h.ordered; pointed = h.pointed }
reducer-IsHistory s (fail e) h k = record { ordered = h.ordered; pointed = h.pointed }
reducer-IsHistory s clear_error h k = record { ordered = h.ordered; pointed = h.pointed }
reducer-IsHistory s (remove id version) h k = remove-IsHistory s id version h

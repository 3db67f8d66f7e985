-- ===== src/Canvas/Store.antt =====
-- packages/plugin-canvas/src/store.ts, the in-memory store: `byId` maps an id to its versions, in
-- ascending order. A method returns its result and the new map, or throws and leaves the map.
-- `date_parse` is `Date.parse`, in milliseconds since 1970 (earlier dates are left out).
pub mod Invariant
pub mod Versions
pub mod Rows
pub mod Shown
pub mod Unrepeated
pub mod Listing
use theokit_plugins.Common.{
  ℕ, String, Bool, true, false, not, Option, none, some, List, [], ◌∷◌, ◌++◌, ◌+◌, ◌&&◌, any,
  filter, find, last, take, drop, length, nat_beq, if◌then◌else◌, ◌==◌, string_eq, reverse, ◌-◌,
  suc, ℤ, pos, negsuc, ◌+ℤ◌,
}
use theokit_plugins.Common.Assoc.{Assoc, get, set, delete, values}
use theokit_plugins.Common.Async.{Attempt, returned, threw}
use theokit_plugins.Common.Sort.{sort_by, sort_down}
use theokit_plugins.Canvas.Artifact.{
  Artifact, Kind, kind_of, CanvasError, version_taken, not_found, markdown, code, diff, svg,
  whiteboard_scene, slide_deck, mermaid, html, image, iso, epoch, CreatedAt, validate_artifact,
}

abbrev pub ById : Type 0
ById = Assoc String (List Artifact)

abbrev pub or_empty : Option (List Artifact) → List Artifact
or_empty none = []
or_empty (some vs) = vs

abbrev pub has_version : ℕ → Artifact → Bool
has_version v a = nat_beq a.version v

abbrev pub sort_versions : List Artifact → List Artifact
sort_versions = sort_by (λ a. a.version)

module _ (is_datetime : String → Bool) where
  -- `memInsert`
  abbrev insert_valid : ById → Attempt CanvasError Artifact → Attempt CanvasError (Artifact × ById)
  insert_valid by_id (threw e) = threw e
  insert_valid by_id (returned a) =
      let existing = or_empty (get a.id by_id) in
      if any (has_version a.version) existing
      then threw (version_taken a.id a.version)
      else returned (a, set a.id (sort_versions (existing ++ a ∷ [])) by_id)

  unfoldable pub mem_insert : ById → Artifact → Attempt CanvasError (Artifact × ById)
  mem_insert by_id artifact = insert_valid by_id (validate_artifact is_datetime artifact)

-- `memGet`
unfoldable pub mem_get : ById → String → Option ℕ → Option Artifact
mem_get by_id id none = last (or_empty (get id by_id))
mem_get by_id id (some v) = find (has_version v) (or_empty (get id by_id))

-- `getVersions`
unfoldable pub mem_versions : ById → String → List Artifact
mem_versions by_id id = or_empty (get id by_id)

abbrev next_of : Option Artifact → ℕ
next_of none = 1
next_of (some a) = a.version + 1

-- `memNextVersion`
unfoldable pub mem_next_version : ById → String → ℕ
mem_next_version by_id id = next_of (last (or_empty (get id by_id)))

-- `if (next.length === 0) byId.delete(id) else byId.set(id, next)`
abbrev pub put_versions : String → List Artifact → ById → ById
put_versions id [] by_id = delete id by_id
put_versions id (a ∷ rest) by_id = set id (a ∷ rest) by_id

abbrev remove_version : ById → String → ℕ → List Artifact → Attempt CanvasError ById
remove_version by_id id v versions =
    let next = filter (λ a. not (has_version v a)) versions in
    if nat_beq (length next) (length versions)
    then threw (not_found id (some v))
    else returned (put_versions id next by_id)

-- `memDelete`
unfoldable pub mem_delete : ById → String → Option ℕ → Attempt CanvasError ById
mem_delete by_id id version = elim (get id by_id) [
  | none ↦ elim version [ none ↦ returned by_id | some v ↦ threw (not_found id none) ]
  | some versions ↦ elim version [
    | none ↦ returned (delete id by_id)
    | some v ↦ remove_version by_id id v versions
  ]
]

pub data ListMode : Type 0 where
  latest every : ListMode

pub record ListFilter : Type 0 where
  pub session_id : Option String
  pub kind : Option Kind
  pub mode : Option ListMode
  pub offset : Option ℤ
  pub limit : Option ℤ

abbrev pub or_else : {A : Type 0} → Option A → A → A
or_else none d = d
or_else (some a) d = a

abbrev pub session_is : String → Option String → Bool
session_is s none = false
session_is s (some t) = t == s

abbrev pub rank : Kind → ℕ
rank = elim [
  | markdown ↦ 0
  | code ↦ 1
  | diff ↦ 2
  | svg ↦ 3
  | whiteboard_scene ↦ 4
  | slide_deck ↦ 5
  | mermaid ↦ 6
  | html ↦ 7
  | image ↦ 8
]

abbrev pub wanted_session : Option String → Artifact → Bool
wanted_session none a = true
wanted_session (some s) a = session_is s a.session_id

abbrev pub wanted_kind : Option Kind → Artifact → Bool
wanted_kind none a = true
wanted_kind (some k) a = nat_beq (rank (kind_of a.payload)) (rank k)

-- `memMatchesFilter`
unfoldable pub mem_matches_filter : ListFilter → Artifact → Bool
mem_matches_filter f a = wanted_session f.session_id a && wanted_kind f.kind a

abbrev pub one_of : Option Artifact → List Artifact
one_of none = []
one_of (some a) = a ∷ []

abbrev pub candidates : ListMode → List Artifact → List Artifact
candidates latest versions = one_of (last versions)
candidates every versions = versions

-- The loop that fills `rows`.
unfoldable pub rows_of : ListFilter → List (List Artifact) → List Artifact
unfolding mem_matches_filter
rows_of f [] = []
rows_of f (versions ∷ rest) =
    filter (mem_matches_filter f) (candidates (or_else f.mode latest) versions) ++ rows_of f rest

-- `Array.prototype.slice`, where a negative position counts from the end.
abbrev pub at_position : (len : ℕ) → ℤ → ℕ
at_position len (pos n) = n
at_position len (negsuc n) = len - suc n

abbrev pub slice : {A : Type 0} → (start end : ℤ) → List A → List A
slice start end xs =
    let first = at_position (length xs) start in
    take (at_position (length xs) end - first) (drop first xs)

module _ (date_parse : String → ℕ) where
  abbrev pub time_of : CreatedAt → ℕ
  time_of (iso s) = date_parse s
  time_of (epoch n) = n

  -- `memList`
  unfoldable pub mem_list : ById → ListFilter → List Artifact
  unfolding rows_of sort_down
  mem_list by_id f =
      let offset = or_else f.offset (pos 0) in
      slice offset (offset +ℤ or_else f.limit (pos 200))
        (sort_down (λ a. time_of a.created_at) (rows_of f (values by_id)))

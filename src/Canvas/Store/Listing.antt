-- ===== src/Canvas/Store/Listing.antt =====
-- What `list` returns: a page of the rows that the filter asks for, the newest first.
use theokit_plugins.Common.{
  ℕ, ◌+◌, ◌-◌, ◌≤◌, pos, ◌+ℤ◌, String, Bool, List, drop, ◌≡◌, ◌↔◌, refl, arith, length,
  length-take-le, string_eq,
}
use theokit_plugins.Common.Assoc.{values}
use theokit_plugins.Common.Sort.{Descending, sort_down, sort_down-Descending}
use theokit_plugins.Canvas.Artifact.{Artifact}
use theokit_plugins.Canvas.Store.{ById, ListFilter, or_else, rows_of, time_of, mem_list, slice}
use theokit_plugins.Canvas.Store.Invariant.{IsStored}
use theokit_plugins.Canvas.Store.Rows.{In, In-sort_down, rows_of-IsRow}
use theokit_plugins.Canvas.Store.Shown.{IsMap, IsShown, IsRow-IsShown}
use theokit_plugins.Canvas.Store.Unrepeated.{Unrepeated, sort_down-Unrepeated, rows_of-Unrepeated}

module _ (is_datetime : String → Bool) where
  -- Over a store whose buckets are in order, a listing is the slice, from its offset (0 by
  -- default) on and of its limit (200 by default), of a list that has just the artifacts that the
  -- filter wants, each once, of each id the latest version or every version, the newest first; with an offset
  -- and a limit that are not negative, it has at most its limit of rows.
  pub mem_list_page :
      (date_parse : String → ℕ) (by_id : ById) (f : ListFilter)
      → IsStored is_datetime by_id
      → IsMap by_id
      → let offset = or_else f.offset (pos 0) in
        let limit = or_else f.limit (pos 200) in
        (rows : List Artifact) × Descending (λ a. time_of date_parse a.created_at) rows
        × Unrepeated rows
        × ((a : Artifact) → In a rows ↔ IsShown f by_id a)
        × (mem_list date_parse by_id f ≡ slice offset (offset +ℤ limit) rows)
        × ((o l : ℕ) → offset ≡ pos o → limit ≡ pos l → length (mem_list date_parse by_id f) ≤ l)
  unfolding mem_list
  mem_list_page date_parse by_id f v u =
      let key = λ (a : Artifact). time_of date_parse a.created_at in
      let rows = rows_of f (values by_id) in
      (
        sort_down key rows,
        sort_down-Descending key rows,
        sort_down-Unrepeated key rows (rows_of-Unrepeated is_datetime f by_id v u),
        (λ a.
            let (into, out) = In-sort_down key a rows in
            let (there, back) = rows_of-IsRow f by_id a in
            let (shown, row) = IsRow-IsShown is_datetime f by_id a v u in
            ((λ h. shown (there (into h))), (λ h. out (back (row h))))),
        refl,
        (λ o l first most.
            rw (first, most)
              (omega (arith, length-take-le (o + l - o) (drop o (sort_down key rows))))),
      )

-- ===== src/Client/Writing/Clone.antt =====
-- client/_writing.py: the ranges of a `clone`, with `_range` of client/_vector.py.
pub mod Send
pub mod Spans
pub mod Copies
use xrdclient.Prelude.{
  ℕ, zero, suc, ◌+◌, ◌-◌, ◌/◌, Bool, true, false, not, List, [], ◌∷◌, Option, none, some, ℤ, pos,
  negsuc, ◌==◌, if◌then◌else◌, length, take, drop, max,
}
use xrdclient.Errors.{Bytes, Fault, Result, ok, err, server_error, value_error, unsupported, ◌>>=◌}
use xrdclient.Wire.Requests.File.{CloneItem}
use xrdclient.Client.Writing.{clone_max_ranges}

-- `CloneRange` of types.py
pub record CloneRange : Type 0 where
  pub offset : ℤ
  pub size : ℤ
  pub target_offset : Option ℤ

-- `CloneRange.destination`
abbrev pub destination : CloneRange → ℤ
destination r = elim r.target_offset [ none ↦ r.offset | some t ↦ t ]

-- the check of `_range`
abbrev pub checked : Bytes → ℤ → ℤ → ℤ → Result CloneItem
checked origin (pos offset) (pos size) (pos target) =
    ok (record { source = origin; offset = offset; size = size; target = target })
checked origin _ _ _ = err value_error

-- `_range` on every range
unfoldable pub ranges_of : Bytes → List CloneRange → Result (List CloneItem)
ranges_of origin [] = ok []
ranges_of origin (r ∷ ranges) = do
  item ← checked origin r.offset r.size (destination r)
  items ← ranges_of origin ranges
  ok (item ∷ items)

-- `if item.length`
abbrev pub filled : List CloneItem → List CloneItem
filled [] = []
filled (item ∷ items) = let rest = filled items in if item.size == 0 then rest else item ∷ rest

-- `_clone_items`, of a source of a size
unfoldable pub clone_items : Bytes → ℕ → Option (List CloneRange) → Result (List CloneItem)
unfolding ranges_of
clone_items origin size none =
    ok (filled (record { source = origin; offset = 0; size = size; target = 0 } ∷ []))
clone_items origin size (some ranges) = do items ← ranges_of origin ranges; ok (filled items)

-- `items[start : start + CLONE_MAX_RANGES]` for each start
unfoldable pub slices_from : ℕ → ℕ → List CloneItem → List (List CloneItem)
slices_from zero start items = []
slices_from (suc rounds) start items =
    take clone_max_ranges (drop start items) ∷ slices_from rounds (start + clone_max_ranges) items

abbrev pub clone_batches : List CloneItem → List (List CloneItem)
clone_batches items =
    slices_from ((length items + (clone_max_ranges - 1)) / clone_max_ranges) 0 items

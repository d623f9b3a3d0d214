-- ===== src/Tests/Clones.antt =====
-- Clones (client/_writing.py: `clone`) at concrete inputs.
use xrdclient.Prelude.{
  ℕ, ◌≤◌, ◌≡◌, refl, true, false, List, [], ◌∷◌, none, some, length, concat, All,
}
use xrdclient.Errors.{Bytes, ok}
use xrdclient.Wire.Requests.File.{CloneItem}
use xrdclient.Client.Writing.{Handle, clone_max_ranges}
use xrdclient.Client.Writing.Store.{Store}
use xrdclient.Client.Writing.Vectors.{put_all}
use xrdclient.Client.Writing.Clone.{clone_items, clone_batches}
use xrdclient.Client.Writing.Clone.Send.{clone}
use xrdclient.Client.Writing.Clone.Spans.{Span, given, asked, copies, IsAsked}
use xrdclient.Client.Writing.Clone.Copies.{copying, clone-copying}

abbrev file : Bytes
file = 10 ∷ 11 ∷ 12 ∷ 13 ∷ []

abbrev origin : Bytes
origin = 1 ∷ 2 ∷ 3 ∷ 4 ∷ []

-- a range that moves to the front, an empty one, and one that stays where it is
abbrev spans : List Span
spans =
    record { offset = 2; size = 2; target_offset = some 0 }
    ∷ record { offset = 9; size = 0; target_offset = none }
    ∷ record { offset = 1; size = 3; target_offset = none }
    ∷ []

abbrev opened : Handle Store
opened = record { server = λ i. 0; size_hint = 0; stat_known = true; checkpoint = false }

clone-copying_example :
    ((items : List CloneItem) × (clone_items origin 4 (given (some spans)) ≡ ok items)
      × All (IsAsked origin) items
      × (concat (clone_batches items) ≡ items)
      × All (λ (batch : List CloneItem). length batch ≤ clone_max_ranges) (clone_batches items))
    × ((g : Handle Store) × (clone (copying file) true origin 4 (given (some spans)) opened
          ≡ (ok 5, g))
        × ((i : ℕ)
            → g.server i ≡ put_all (copies file (asked origin 4 (some spans))) opened.server i))
clone-copying_example = clone-copying file origin 4 (some spans) opened refl

-- ===== src/Client/Writing/Clone/Spans.antt =====
-- What the ranges of a clone ask for, and what is left of them without the empty ones
-- (client/_writing.py: `_clone_items`).
use xrdclient.Prelude.{
  ℕ, ◌≤◌, ◌≡◌, refl, sym, ap, ◌∙◌, arith, List, [], ◌∷◌, Option, none, some, ℤ, pos, ◌==◌, map,
  sum_of, All, take, drop, Bool-cases, inl, inr,
}
use xrdclient.Errors.{Bytes, ok}
use xrdclient.Wire.Requests.File.{CloneItem}
use xrdclient.Client.Vector.{WriteChunk}
use xrdclient.Client.Writing.Clone.{CloneRange, destination, ranges_of, filled, clone_items}
use xrdclient.Client.Writing.Store.{Store, put_at, put_at-nil}
use xrdclient.Client.Writing.Vectors.{put_all, put_all-agree}

-- A range that is not negative.
pub record Span : Type 0 where
  pub offset : ℕ
  pub size : ℕ
  pub target_offset : Option ℕ

abbrev signed_target : Option ℕ → Option ℤ
signed_target none = none
signed_target (some t) = some (pos t)

abbrev range_of : Span → CloneRange
range_of r = record {
  offset = pos r.offset;
  size = pos r.size;
  target_offset = signed_target r.target_offset;
}

-- The ranges as the caller gives them, if any.
abbrev pub given : Option (List Span) → Option (List CloneRange)
given none = none
given (some spans) = some (map range_of spans)

abbrev target_of : Option ℕ → ℕ → ℕ
target_of none offset = offset
target_of (some t) offset = t

abbrev item_of : Bytes → Span → CloneItem
item_of origin r = record {
  source = origin;
  offset = r.offset;
  size = r.size;
  target = target_of r.target_offset r.offset;
}

-- What a caller asks to have copied, of a source of a size: these ranges, empty ones too, or the whole
-- source.
abbrev pub asked : Bytes → ℕ → Option (List Span) → List CloneItem
asked origin size none = record { source = origin; offset = 0; size = size; target = 0 } ∷ []
asked origin size (some spans) = map (item_of origin) spans

-- What a range puts where, of the bytes of another file.
abbrev pub copy_of : Bytes → CloneItem → WriteChunk
copy_of file item = record { offset = item.target; bytes = take item.size (drop item.offset file) }

abbrev pub copies : Bytes → List CloneItem → List WriteChunk
copies file [] = []
copies file (item ∷ items) = copy_of file item ∷ copies file items

abbrev pub range_size : CloneItem → ℕ
range_size item = item.size

destination-signed :
    (offset : ℕ) (size : ℤ) (target : Option ℕ)
    → destination
        (record { offset = pos offset; size = size; target_offset = signed_target target })
      ≡ pos (target_of target offset)
destination-signed offset size none = refl
destination-signed offset size (some t) = refl

ranges_of-asked :
    (origin : Bytes) (spans : List Span)
    → ranges_of origin (map range_of spans) ≡ ok (map (item_of origin) spans)
unfolding ranges_of
ranges_of-asked origin [] = refl
ranges_of-asked origin (r ∷ spans) =
    rw (destination-signed r.offset (pos r.size) r.target_offset, ranges_of-asked origin spans) refl

pub clone_items-asked :
    (origin : Bytes) (size : ℕ) (spans : Option (List Span))
    → clone_items origin size (given spans) ≡ ok (filled (asked origin size spans))
unfolding clone_items
clone_items-asked origin size none = refl
clone_items-asked origin size (some spans) = rw (ranges_of-asked origin spans) refl

pub filled-sum_of :
    (items : List CloneItem) → sum_of range_size (filled items) ≡ sum_of range_size items
filled-sum_of [] = refl
filled-sum_of (item ∷ items) = ground (arith, filled-sum_of items)

-- A range that is asked of the server: of that source, and not empty.
abbrev pub IsAsked : Bytes → CloneItem → Type 0
IsAsked origin item = (item.source ≡ origin) × (1 ≤ item.size)

filled-IsAsked :
    (origin : Bytes) (items : List CloneItem)
    → All (λ (item : CloneItem). item.source ≡ origin) items
    → All (IsAsked origin) (filled items)
filled-IsAsked origin [] h = tt
filled-IsAsked origin (item ∷ items) h = elim (Bool-cases (item.size == 0)) [
  | inl e ↦ rw e (filled-IsAsked origin items h.1)
  | inr e ↦ rw e ((h.0, ground (arith, e)), filled-IsAsked origin items h.1)
]

asked-source :
    (origin : Bytes) (spans : List Span)
    → All (λ (item : CloneItem). item.source ≡ origin) (map (item_of origin) spans)
asked-source origin [] = tt
asked-source origin (r ∷ spans) = (refl, asked-source origin spans)

pub asked-IsAsked :
    (origin : Bytes) (size : ℕ) (spans : Option (List Span))
    → All (IsAsked origin) (filled (asked origin size spans))
asked-IsAsked origin size none = filled-IsAsked origin (asked origin size none) (refl, tt)
asked-IsAsked origin size (some spans) =
    filled-IsAsked origin (asked origin size (some spans)) (asked-source origin spans)

-- An empty range puts nothing anywhere.
copy_of-nil :
    (file : Bytes) (item : CloneItem) (s : Store) (i : ℕ)
    → item.size ≡ 0
    → put_at item.target (take item.size (drop item.offset file)) s i ≡ s i
copy_of-nil file item s i e =
    ap (λ (n : ℕ). put_at item.target (take n (drop item.offset file)) s i) e
    ∙ put_at-nil item.target s i

pub filled-copies :
    (file : Bytes) (items : List CloneItem) (s : Store) (i : ℕ)
    → put_all (copies file (filled items)) s i ≡ put_all (copies file items) s i
filled-copies file [] s i = refl
filled-copies file (item ∷ items) s i =
    let after = put_at item.target (take item.size (drop item.offset file)) s in
    elim (Bool-cases (item.size == 0)) [
      | inl e ↦
          let empty : item.size ≡ 0 = ground (arith, e) in
          rw e (
            put_all-agree (copies file (filled items)) s after
              (λ j. sym (copy_of-nil file item s j empty)) i
            ∙ filled-copies file items after i)
      | inr e ↦ rw e (filled-copies file items after i)
    ]

-- ===== src/Client/Writing/Clone/Copies.antt =====
-- What a clone (client/_writing.py: `clone`) copies on a server that copies.
use xrdclient.Prelude.{
  Bool, leb, if◌then◌else◌, Bool-cases, inl, inr, ◌==◌, true, false, Option, ℕ, zero, suc, ◌+◌, ◌-◌,
  ◌/◌, ◌≤◌, ◌≡◌, refl, sym, ap, ◌∙◌, arith, List, [], ◌∷◌, ◌++◌, length, take, drop, concat, sum_of,
  max, All, drop_all, take-append-drop, drop-drop, length-take, sum_of-append,
}
use xrdclient.Errors.{Bytes, Result, ok, err, value_error, unsupported}
use xrdclient.Exec.{Exec, pure, lift, continue, refuse_if, ◌>>=◌, ◌>>◌}
use xrdclient.Wire.Requests.File.{CloneItem}
use xrdclient.Client.Vector.{WriteChunk, clone_extent}
use xrdclient.Client.Writing.{Handle, clone_max_ranges, no_checkpoint, unsupported_code, on_server}
use xrdclient.Client.Writing.Clone.{CloneRange, clone_items, slices_from, clone_batches, filled}
use xrdclient.Client.Writing.Clone.Spans.{
  Span, given, asked, copies, range_size, clone_items-asked, filled-sum_of, IsAsked, asked-IsAsked,
  filled-copies,
}
use xrdclient.Client.Writing.Clone.Send.{clone, invalidate_if, clone_all}
use xrdclient.Client.Writing.Store.{Store}
use xrdclient.Client.Writing.Vectors.{put_all, put_all-append}

-- A server that copies the ranges of a request, one after the other, and refuses too many of them.
abbrev pub copying : Bytes → List CloneItem → Exec Store (Unit {0})
copying file batch s =
    if leb (length batch) clone_max_ranges
    then (ok tt, put_all (copies file batch) s)
    else (err value_error, s)

slices-concat :
    (rounds start : ℕ) (items : List CloneItem)
    → rounds ≡ (length items - start + (clone_max_ranges - 1)) / clone_max_ranges
    → concat (slices_from rounds start items) ≡ drop start items
unfolding slices_from
slices-concat zero start items r = sym (drop_all start items (omega (arith, r)))
slices-concat (suc rounds) start items r =
    ap (λ (rest : List CloneItem). take clone_max_ranges (drop start items) ++ rest)
      (slices-concat rounds (start + clone_max_ranges) items (omega (arith, r))
        ∙ sym (drop-drop start clone_max_ranges items))
    ∙ take-append-drop clone_max_ranges (drop start items)

slices-few :
    (rounds start : ℕ) (items : List CloneItem)
    → All
        (λ (batch : List CloneItem). length batch ≤ clone_max_ranges)
        (slices_from rounds start items)
unfolding slices_from
slices-few zero start items = tt
slices-few (suc rounds) start items = (
  omega (arith, length-take clone_max_ranges (drop start items)),
  slices-few rounds (start + clone_max_ranges) items,
)

copies-append :
    (file : Bytes) (xs ys : List CloneItem)
    → copies file (xs ++ ys) ≡ copies file xs ++ copies file ys
copies-append file [] ys = refl
copies-append file (x ∷ xs) ys = rw (copies-append file xs ys)

clone_extent-sum_of : (batch : List CloneItem) → (clone_extent batch).0 ≡ sum_of range_size batch
unfolding clone_extent
clone_extent-sum_of [] = refl
clone_extent-sum_of (item ∷ batch) = omega (arith, clone_extent-sum_of batch)

clone_all-copying :
    (file : Bytes) (batches : List (List CloneItem)) (total high : ℕ) (s : Store)
    → All (λ (batch : List CloneItem). length batch ≤ clone_max_ranges) batches
    → (high' : ℕ) × (clone_all (copying file) batches (total, high) s ≡ (
      ok (total + sum_of range_size (concat batches), high'),
      put_all (copies file (concat batches)) s,
    ))
unfolding clone_all
clone_all-copying file [] total high s few =
    let same : total ≡ total + 0 = omega arith in (high, ap (λ (n : ℕ). (ok (n, high), s)) same)
clone_all-copying file (batch ∷ batches) total high s few =
    let more = concat batches in
    let extent = clone_extent batch in
    let (high', e) =
      clone_all-copying file batches (total + extent.0) (max high extent.1)
        (put_all (copies file batch) s) few.1 in
    let taken : leb (length batch) clone_max_ranges ≡ true = ground (arith, few.0) in
    let sum : total + extent.0 + sum_of range_size more
        ≡ total + sum_of range_size (batch ++ more) =
      omega (arith, clone_extent-sum_of batch, sum_of-append range_size batch more) in
    let stored : put_all (copies file more) (put_all (copies file batch) s)
        ≡ put_all (copies file (batch ++ more)) s =
      sym (put_all-append (copies file batch) (copies file more) s)
      ∙ ap (λ (cs : List WriteChunk). put_all cs s) (sym (copies-append file batch more)) in
    (
      high',
      rw taken e
          ∙ ap
              (λ (n : ℕ).
                (ok (n, high'), put_all (copies file more) (put_all (copies file batch) s)))
              sum
          ∙ ap (λ (u : Store). (ok (total + sum_of range_size (batch ++ more), high'), u)) stored,
    )

finished :
    (total high : ℕ) (f : Handle Store)
    → (g : Handle Store) × (invalidate_if (total, high) f ≡ (ok tt, g)) × (g.server ≡ f.server)
finished total high f = elim (Bool-cases (total == 0)) [
  | inl e ↦ (f, rw e refl, refl)
  | inr e ↦ (record f { size_hint = max f.size_hint high; stat_known = false }, rw e refl, refl)
]

batches-concat : (items : List CloneItem) → concat (clone_batches items) ≡ items
batches-concat items =
    slices-concat ((length items + (clone_max_ranges - 1)) / clone_max_ranges) 0 items (omega arith)

clone-items :
    (file origin : Bytes) (size : ℕ) (ranges : Option (List CloneRange)) (items : List CloneItem)
    (f : Handle Store)
    → f.checkpoint ≡ false
    → clone_items origin size ranges ≡ ok items
    → ((g : Handle Store) × (clone (copying file) true origin size ranges f
          ≡ (ok (sum_of range_size items), g))
        × (g.server ≡ put_all (copies file items) f.server))
unfolding clone
clone-items file origin size ranges items f open' ranged =
    let all = batches-concat items in
    let (high, e) =
      clone_all-copying file (clone_batches items) 0 0 f.server
        (slices-few ((length items + (clone_max_ranges - 1)) / clone_max_ranges) 0 items) in
    let total = sum_of range_size items in
    let stored = put_all (copies file items) f.server in
    let e' : clone_all (copying file) (clone_batches items) (0, 0) f.server
        ≡ (ok (total, high), stored) =
      e
      ∙ ap
          (λ (is : List CloneItem).
            (ok (0 + sum_of range_size is, high), put_all (copies file is) f.server))
          all
      ∙ ap (λ (n : ℕ). (ok (n, high), stored)) (let z : 0 + total ≡ total = omega arith in z) in
    let opened = record f { server = stored } in
    let (g, done, same) = finished total high opened in
    let rest : Unit {0} → Exec (Handle Store) ℕ = λ _.
      lift (clone_items origin size ranges) >>= λ items.
      (on_server (clone_all (copying file) (clone_batches items) (0, 0)) >>= λ sums.
      (invalidate_if sums >> pure sums.0)) in
    let checked : no_checkpoint f ≡ (ok tt, f) =
      ap (λ (b : Bool). refuse_if b (unsupported unsupported_code) f) open' in
    let sent : rest tt f ≡ (ok total, g) = rw (ranged, e', done) refl in
    (g, ap (λ (r : Result (Unit {0}) × Handle Store). continue r.0 r.1 rest) checked ∙ sent, same)

-- Where both files are open on one session and no checkpoint is open: a clone of ranges that are not
-- negative, or of the whole source, on a server that copies and takes at most 1024 ranges in a request.
-- It asks for ranges of that source that are not empty, at most 1024 in a request; it returns how many
-- bytes all the ranges have, and leaves in this file, at every index, what all the ranges of the other
-- one put there, one after the other.
pub clone-copying :
    (file origin : Bytes) (size : ℕ) (spans : Option (List Span)) (f : Handle Store)
    → f.checkpoint ≡ false
    → let all = asked origin size spans in
      ((items : List CloneItem) × (clone_items origin size (given spans) ≡ ok items)
        × All (IsAsked origin) items
        × (concat (clone_batches items) ≡ items)
        × All (λ (batch : List CloneItem). length batch ≤ clone_max_ranges) (clone_batches items))
      × ((g : Handle Store) × (clone (copying file) true origin size (given spans) f
            ≡ (ok (sum_of range_size all), g))
          × ((i : ℕ) → g.server i ≡ put_all (copies file all) f.server i))
clone-copying file origin size spans f open' =
    let all = asked origin size spans in
    let items = filled all in
    let ranged = clone_items-asked origin size spans in
    let (g, done, stored) = clone-items file origin size (given spans) items f open' ranged in
    (
      (
        items,
        ranged,
        asked-IsAsked origin size spans,
        batches-concat items,
        slices-few ((length items + (clone_max_ranges - 1)) / clone_max_ranges) 0 items,
      ),
      (
        g,
        done ∙ ap (λ (n : ℕ). (ok n, g)) (filled-sum_of all),
        λ i. ap (λ (u : Store). u i) stored ∙ filled-copies file all f.server i,
      ),
    )

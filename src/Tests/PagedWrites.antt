-- ===== src/Tests/PagedWrites.antt =====
-- Writes of an open file (client/_writing.py): paged ones, to a server that loses the first try of a
-- short one, and vector writes.
use xrdclient.Prelude.{
  ℕ, ◌+◌, ◌≤◌, ◌<◌, ◌≡◌, ◌⊎◌, inl, inr, refl, sym, ap, subst, ◌∙◌, arith, Bool, true, false, not,
  ◌&&◌, List, [], ◌∷◌, sum_of, Option, none, some, ℤ, pos, leb, ltb, ◌==◌, if◌then◌else◌, length,
  All, Bool-cases,
}
use xrdclient.Errors.{Bytes, Result, ok, err, value_error}
use xrdclient.Exec.{Exec}
use xrdclient.Wire.Buffer.{i64, skip, take_bytes, unpack_signed}
use xrdclient.Wire.Responses.{parse_pgwrite_cse, offsets}
use xrdclient.Pages.{Unpacked, unpack_pages}
use xrdclient.Pages.RoundTrip.{IsCrc}
use xrdclient.Client.Vector.{WriteChunk, bytes_of}
use xrdclient.Client.Writing.{Handle, PagedSend, reported, writev, pgwrite}
use xrdclient.Client.Writing.Store.{Store, put_at, put_at-before, put_at-behind}
use xrdclient.Client.Writing.Vectors.{put_all, storing, writev-storing}
use xrdclient.Client.Writing.Paged.{IsVerifying, IsNamed}
use xrdclient.Client.Writing.Intact.{IsAnswering, IsWithin, pgwrite-intact, pgwrite-returns}

abbrev toy_crc : Bytes → ℕ
toy_crc bytes = 7

toy_crc-IsCrc : IsCrc toy_crc
toy_crc-IsCrc = record { fits = λ bytes. omega arith }

-- a checksum-error trailer that names the page at offset 5
abbrev trailer : Bytes
trailer = 0 ∷ 0 ∷ 0 ∷ 0 ∷ 0 ∷ 0 ∷ 0 ∷ 0 ∷ 0 ∷ 0 ∷ 0 ∷ 0 ∷ 0 ∷ 0 ∷ 0 ∷ 5 ∷ []

trailer-names : reported trailer ≡ ok (pos 5 ∷ [])
unfolding reported parse_pgwrite_cse offsets skip i64 take_bytes unpack_signed
trailer-names = refl

abbrev loses : ℕ → Bytes → Bool
loses offset bytes = (offset == 5) && (leb 1 (length bytes) && leb (length bytes) 3)

abbrev reply : Option Unpacked → ℕ → Bool → Exec Store Bytes
reply none offset retry s = (err value_error, s)
reply (some u) offset retry s =
    if not retry && loses offset u.payload
    then (ok trailer, s)
    else (ok [], put_at offset u.payload s)

abbrev lossy : PagedSend Store
lossy offset wire retry s = reply (unpack_pages toy_crc wire offset) offset retry s

reply-stores :
    (bytes : Bytes) (offset : ℕ) (retry : Bool) (body : Bytes) (s t : Store) (corrupt : List ℤ)
    → reply (some (record { payload = bytes; corrupt = [] })) offset retry s ≡ (ok body, t)
    → reported body ≡ ok corrupt
    → (i : ℕ) → (t i ≡ put_at offset bytes s i) ⊎ IsNamed offset bytes corrupt i
reply-stores bytes offset retry body s t corrupt e rep i =
    let lost : Result Bytes × Store = (ok trailer, s) in
    let kept : Result Bytes × Store = (ok [], put_at offset bytes s) in
    let answer = λ (b : Bool). (if b then lost else kept) ≡ (ok body, t) in
    elim (Bool-cases (not retry && loses offset bytes)) [
      | inr e1 ↦ inl (sym (ap (λ (r : Result Bytes × Store). r.1 i) (subst answer e1 e)))
      | inl e1 ↦
          let e2 : lost ≡ (ok body, t) = subst answer e1 e in
          let same : t i ≡ s i = sym (ap (λ (r : Result Bytes × Store). r.1 i) e2) in
          let told : ok trailer ≡ ok body = ap (λ (r : Result Bytes × Store). r.0) e2 in
          let named : ok (pos 5 ∷ []) ≡ ok corrupt =
            sym trailer-names ∙ ap and_reported told ∙ rep in
          let where_at : offset ≡ 5 = ground (arith, e1) in
          subst (λ (cs : List ℤ). (t i ≡ put_at offset bytes s i) ⊎ IsNamed offset bytes cs i)
            (ok-inj (pos 5 ∷ []) corrupt named) (cases where_at (ground (arith, e1)) same)
    ]
  where
    and_reported : Result Bytes → Result (List ℤ)
    and_reported (ok b) = reported b
    and_reported (err x) = err x

    ok-inj : (a b : List ℤ) → (let r : Result (List ℤ) = ok a in r ≡ ok b) → a ≡ b
    ok-inj a b h = ground (arith, h)

    outside : (i < offset) ⊎ (offset + length bytes ≤ i) → put_at offset bytes s i ≡ s i
    outside (inl h) = put_at-before offset bytes s i h
    outside (inr h) = put_at-behind offset bytes s i h

    cases :
        offset ≡ 5
        → length bytes ≤ 3
        → t i ≡ s i
        → (t i ≡ put_at offset bytes s i) ⊎ IsNamed offset bytes (pos 5 ∷ []) i
    cases where_at short same = elim (Bool-cases (leb offset i && ltb i (offset + length bytes))) [
      | inl on ↦ inr (
          inl (
            omega (arith, where_at),
            ground (arith, on, where_at),
            ground (arith, on, where_at, short),
          ))
      | inr off ↦ inl (same ∙ sym (outside (ground (arith, off))))
    ]

lossy-IsVerifying : IsVerifying toy_crc lossy
lossy-IsVerifying = record {
  stores = λ offset wire retry bytes body s t corrupt unpacks sent.
      reply-stores bytes offset retry body s t corrupt
        (subst (λ (o : Option Unpacked). reply o offset retry s ≡ (ok body, t)) unpacks sent);
}

reported-nil : reported [] ≡ ok []
unfolding reported
reported-nil = refl

first_answer :
    (offset : ℕ) (bytes : Bytes) (s : Store)
    → (body : Bytes) × (t : Store) × (corrupt : List ℤ) × (reply
          (some (record { payload = bytes; corrupt = [] }))
          offset
          false
          s
        ≡ (ok body, t))
      × (reported body ≡ ok corrupt)
      × All (IsWithin offset bytes) corrupt
first_answer offset bytes s = elim (Bool-cases (loses offset bytes)) [
  | inl e ↦ (
    trailer,
    s,
    pos 5 ∷ [],
    rw e refl,
    trailer-names,
    ((ground (arith, e), ground (arith, e)), tt),
  )
  | inr e ↦ ([], put_at offset bytes s, [], rw e refl, reported-nil, tt)
]

lossy-IsAnswering : IsAnswering toy_crc lossy
lossy-IsAnswering = record {
  answers = λ offset wire bytes s unpacks.
      let (body, t, corrupt, sent, rep, within) = first_answer offset bytes s in
      (body, t, corrupt, rw unpacks sent, rep, within);
  takes = λ offset wire bytes s unpacks. ([], put_at offset bytes s, rw unpacks refl, reported-nil);
}

abbrev opened : Handle Store
opened = record { server = λ i. 0; size_hint = 0; stat_known = true; checkpoint = false }

abbrev triple : Bytes
triple = 1 ∷ 2 ∷ 3 ∷ []

pgwrite-returns_example :
    (g : Handle Store) × (pgwrite toy_crc lossy triple 5 opened ≡ (ok (length triple), g))
    × (g.stat_known ≡ false)
    × (5 + length triple ≤ g.size_hint)
pgwrite-returns_example =
    pgwrite-returns toy_crc lossy triple 5 opened toy_crc-IsCrc lossy-IsAnswering (omega arith)

lossy_run : (g : Handle Store) × (pgwrite toy_crc lossy triple 5 opened ≡ (ok (length triple), g))
lossy_run =
    let (g, e, _, _) =
      pgwrite-returns toy_crc lossy triple 5 opened toy_crc-IsCrc lossy-IsAnswering (omega arith) in
    (g, e)

pgwrite-intact_example :
    (length triple ≡ length triple)
    × ((i : ℕ) → lossy_run.0.server i ≡ put_at 5 triple opened.server i)
pgwrite-intact_example =
    pgwrite-intact toy_crc lossy triple 5 (length triple) opened lossy_run.0 toy_crc-IsCrc
      lossy-IsVerifying lossy_run.1

abbrev chunk : WriteChunk
chunk = record { offset = 7; bytes = triple }

-- written over the first
abbrev over_it : List WriteChunk
over_it = record { offset = 8; bytes = 9 ∷ [] } ∷ []

writev-storing_example :
    (g : Handle Store) × (writev storing (chunk ∷ over_it) opened
      ≡ (ok (sum_of bytes_of (chunk ∷ over_it)), g))
    × ((i : ℕ) → g.server i ≡ put_all (chunk ∷ over_it) opened.server i)
    × (g.stat_known ≡ false)
writev-storing_example = writev-storing chunk over_it opened refl

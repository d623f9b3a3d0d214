-- ===== src/Pages/RoundTrip.antt =====
-- Pages with their checksums (crypto/crc32c.py): what is packed is unpacked, without a complaint.
use xrdclient.Prelude.{
  drop_all, append-nil, Bool-cases, inl, inr, ltb, ltb→lt, sym, ap, ◌∙◌, drop-append, ℕ, zero, suc,
  ◌+◌, ◌*◌, ◌-◌, ◌/◌, ◌^◌, ◌≤◌, ◌<◌, ◌≡◌, refl, arith, [], ◌∷◌, ◌++◌, some, length, take, drop,
  take-append-drop, take-append_eq, drop-drop, length-take, length-drop, length-append, take_all,
}
use xrdclient.Errors.{Bytes}
use xrdclient.Wire.Requests.File.{paged_cap}
use xrdclient.Wire.Words.{to_be, of_be-to_be, length-to_be}
use xrdclient.Pages.{
  page_size, first_head, with_checked, pack_loop, pack_pages, unpack_loop, unpack_pages,
}

-- A checksum of 32 bits.
pub record IsCrc (crc32c : Bytes → ℕ) : Type 0 where
  pub fits : (bytes : Bytes) → crc32c bytes < 2 ^ 32

-- The pages that n bytes touch, where the first has room for `head`.
abbrev pub pages : ℕ → ℕ → ℕ
pages head zero = 0
pages head (suc n) = 1 + (suc n - head + 4095) / 4096

pages_again : (n : ℕ) → pages 4096 n ≡ (n + 4095) / 4096
pages_again zero = omega arith
pages_again (suc n) = omega arith

module _ (crc32c : Bytes → ℕ) (law : IsCrc crc32c) where
  unpack_page :
      (fuel head at : ℕ) (page more : Bytes)
      → take head (page ++ more) ≡ page
      → unpack_loop crc32c (suc fuel) head at (to_be 4 (crc32c page) ++ (page ++ more))
        ≡ with_checked crc32c
            (crc32c page)
            page
            at
            (unpack_loop crc32c fuel page_size (at + length page) more)
  unfolding unpack_loop to_be
  unpack_page fuel head at page more e =
      rw (of_be-to_be 4 (crc32c page) (law.fits page), e)
        (ap
          (λ (bs : Bytes).
            with_checked crc32c (crc32c page) page at
              (unpack_loop crc32c fuel page_size (at + length page) bs))
          (sym (drop-drop 4 (length page) (to_be 4 (crc32c page) ++ (page ++ more)))
            ∙ drop-append page more))

  -- One page in front of what is known to be unpacked.
  unpack_next :
      (fuel head at : ℕ) (page more payload : Bytes)
      → take head (page ++ more) ≡ page
      → ((k : ℕ)
          → length more ≤ k
          → unpack_loop crc32c k page_size (at + length page) more
            ≡ some (record { payload = payload; corrupt = [] }))
      → length (to_be 4 (crc32c page) ++ (page ++ more)) ≤ fuel
      → unpack_loop crc32c fuel head at (to_be 4 (crc32c page) ++ (page ++ more))
        ≡ some (record { payload = page ++ payload; corrupt = [] })
  unfolding to_be
  unpack_next zero head at page more payload e u enough = absurd (omega arith)
  unpack_next (suc fuel) head at page more payload e u enough =
      unpack_page fuel head at page more e
      ∙ rw (u fuel (omega (arith, length-append page more))) (ground arith)

  -- What the two loops make of a payload.
  abbrev Packs : ℕ → ℕ → ℕ → Bytes → Type 0
  Packs fuel head at bytes =
      (wire : Bytes) × (pack_loop crc32c fuel head bytes ≡ some wire)
      × (length wire ≡ length bytes + 4 * pages head (length bytes))
      × ((fuel' : ℕ)
          → length wire ≤ fuel'
          → unpack_loop crc32c fuel' head at wire ≡ some (record { payload = bytes; corrupt = [] }))

  -- A page is full, or the last one.
  page_again :
      (head fuel : ℕ) (bytes more : Bytes)
      → pack_loop crc32c fuel page_size (drop head bytes) ≡ some more
      → take head (take head bytes ++ more) ≡ take head bytes
  unfolding pack_loop
  page_again head fuel bytes more e = elim (Bool-cases (ltb (length bytes) head)) [
    | inl short ↦
        let gone : drop head bytes ≡ [] = drop_all head bytes (omega (arith, ltb→lt _ _ short)) in
        let last : more ≡ [] = ground (arith, e, gone) in
        rw last
          (rw append-nil (take_all head (take head bytes) (omega (arith, length-take head bytes))))
    | inr long ↦ take-append_eq head (take head bytes) more (ground (arith, length-take head bytes))
  ]

  pack_loop-Packs :
      (fuel head at : ℕ) (bytes : Bytes) → length bytes ≤ fuel → 1 ≤ head → Packs fuel head at bytes
  unfolding pack_loop unpack_loop
  pack_loop-Packs fuel head at [] enough room = ([], refl, refl, λ fuel' h. refl)
  pack_loop-Packs zero head at (b ∷ bs) enough room = absurd (omega arith)
  pack_loop-Packs (suc fuel) head at (b ∷ bs) enough room =
      let bytes = b ∷ bs in
      let page = take head bytes in
      let rest = drop head bytes in
      let (w, e, l, u) =
        pack_loop-Packs fuel page_size (at + length page) rest
          (omega (arith, length-drop head bytes)) (omega arith) in
      (
        to_be 4 (crc32c page) ++ (page ++ w),
        rw e refl,
        omega (
          arith,
          l,
          pages_again (length rest),
          length-append page w,
          length-take head bytes,
          length-drop head bytes,
          length-append (to_be 4 (crc32c page)) (page ++ w),
          length-to_be 4 (crc32c page),
        ),
        λ fuel' h.
            unpack_next fuel' head at page w rest (page_again head fuel bytes w e) u h
            ∙ rw (take-append-drop head bytes) refl,
      )

-- The pages that a request counts, and those that the loop makes.
pages_cap :
    (offset n : ℕ)
    → (n + 4 * pages (first_head offset) n ≤ paged_cap offset n)
      × (1 ≤ n → n + 4 * pages (first_head offset) n ≡ paged_cap offset n)
pages_cap offset zero = (ground arith, λ h. absurd (omega arith))
pages_cap offset (suc n) = (ground arith, λ h. ground arith)

-- With any checksum of 32 bits: what `pack_pages` makes of a payload, `unpack_pages` at the same
-- offset returns, with no page reported as corrupt. Both loops end. What goes over the wire is no
-- longer than the cap that a `PgRead` of as many bytes at that offset puts on its reply, and, unless
-- it is empty, exactly as long.
pub unpack_pages-pack_pages :
    (crc32c : Bytes → ℕ) (bytes : Bytes) (offset : ℕ)
    → IsCrc crc32c
    → (wire : Bytes) × (pack_pages crc32c bytes offset ≡ some wire)
      × (unpack_pages crc32c wire offset ≡ some (record { payload = bytes; corrupt = [] }))
      × (length wire ≤ paged_cap offset (length bytes))
      × (1 ≤ length bytes → length wire ≡ paged_cap offset (length bytes))
unfolding pack_pages unpack_pages
unpack_pages-pack_pages crc32c bytes offset law =
    let (wire, e, l, u) =
      pack_loop-Packs crc32c law (length bytes) (first_head offset) offset bytes (omega arith)
        (ground arith) in
    let (within, exact) = pages_cap offset (length bytes) in
    (wire, e, u (length wire) (omega arith), omega (arith, l, within), λ h. l ∙ exact h)

-- ===== src/Pages.antt =====
-- crypto/crc32c.py: pages of 4 KiB, each behind its CRC-32C. The checksum is a library's: it is a
-- parameter. The loops run on fuel and return none without it.
pub mod RoundTrip
use xrdclient.Prelude.{
  ℕ, zero, suc, ◌+◌, ◌-◌, ◌%◌, min, List, [], ◌∷◌, ◌++◌, Option, none, some, ltb, ◌==◌,
  if◌then◌else◌, length, take, drop, truthy,
}
use xrdclient.Errors.{Bytes}
use xrdclient.Wire.Words.{to_be, of_be}

-- `PAGE_SIZE`
abbrev pub page_size : ℕ
page_size = 4096

-- `page_span`
abbrev pub page_span : ℕ → ℕ → ℕ
page_span offset remaining = min remaining (page_size - offset % page_size)

-- the first value of `head`
abbrev pub first_head : ℕ → ℕ
first_head offset = if offset % page_size == 0 then page_size else page_size - offset % page_size

-- What `unpack_pages` returns.
pub record Unpacked : Type 0 where
  pub payload : Bytes
  pub corrupt : List ℕ

module _ (crc32c : Bytes → ℕ) where
  -- `crc32c(page).to_bytes(4, "big") + page`, in front of what the later rounds add
  abbrev pub with_page : Bytes → Option Bytes → Option Bytes
  with_page page none = none
  with_page page (some out) = some (to_be 4 (crc32c page) ++ (page ++ out))

  -- the loop of `pack_pages`, over `view[pos:]`
  unfoldable pub pack_loop : ℕ → ℕ → Bytes → Option Bytes
  pack_loop fuel head [] = some []
  pack_loop zero head (b ∷ bs) = none
  pack_loop (suc fuel) head (b ∷ bs) =
      with_page (take head (b ∷ bs)) (pack_loop fuel page_size (drop head (b ∷ bs)))

  unfoldable pub pack_pages : Bytes → ℕ → Option Bytes
  unfolding pack_loop
  pack_pages bytes offset = pack_loop (length bytes) (first_head offset) bytes

  -- one page, in front of what the later rounds add
  abbrev pub with_checked : ℕ → Bytes → ℕ → Option Unpacked → Option Unpacked
  with_checked want page at none = none
  with_checked want page at (some u) = some (record {
    payload = page ++ u.payload;
    corrupt = if crc32c page == want then u.corrupt else at ∷ u.corrupt;
  })

  -- the loop of `unpack_pages`, over `view[pos:]`
  unfoldable pub unpack_loop : ℕ → ℕ → ℕ → Bytes → Option Unpacked
  unfolding of_be
  unpack_loop fuel head at [] = some (record { payload = []; corrupt = [] })
  unpack_loop zero head at (b ∷ bs) = none
  unpack_loop (suc fuel) head at (b ∷ bs) =
      let page = take head (drop 4 (b ∷ bs)) in
      with_checked (of_be (take 4 (b ∷ bs))) page at
        (unpack_loop fuel page_size (at + length page) (drop (4 + length page) (b ∷ bs)))

  unfoldable pub unpack_pages : Bytes → ℕ → Option Unpacked
  unfolding unpack_loop
  unpack_pages bytes offset = unpack_loop (length bytes) (first_head offset) offset bytes

-- ===== src/Tests/Files.antt =====
-- Pages (crypto/crc32c.py), file requests (proto/_requests_io.py) and replies in parts at concrete
-- inputs.
use xrdclient.Prelude.{true, ℕ, ◌≤◌, ◌≡◌, refl, arith, List, [], ◌∷◌, some, length, replicate}
use xrdclient.Errors.{Bytes, ok}
use xrdclient.Wire.Words.{pack_unsigned, pack_signed}
use xrdclient.Wire.Buffer.{write_unsigned, write_signed}
use xrdclient.Wire.Frames.{Request}
use xrdclient.Wire.Frames.RoundTrip.{IsSendable}
use xrdclient.Wire.Requests.{plain}
use xrdclient.Wire.Requests.File.{readv_request, readahead_list, ReadChunk}
use xrdclient.Wire.Requests.Headers.{Asked, encoded, encoded-IsSendable}
use xrdclient.Pages.{pack_pages, unpack_pages}
use xrdclient.Pages.RoundTrip.{IsCrc, unpack_pages-pack_pages}
use xrdclient.Machine.Inbound.{route}
use xrdclient.Machine.Reassembly.{IsUnderWay, Delivered, oksofar, route-oksofar}
use xrdclient.Tests.{up, pending_write}

-- a checksum of 32 bits that does not look at its page
abbrev toy_crc : Bytes → ℕ
toy_crc bytes = 7

toy_crc-IsCrc : IsCrc toy_crc
toy_crc-IsCrc = record { fits = λ bytes. omega arith }

unpack_pages-pack_pages_example :
    (wire : Bytes) × (pack_pages toy_crc (1 ∷ 2 ∷ 3 ∷ []) 4095 ≡ some wire)
    × (unpack_pages toy_crc wire 4095 ≡ some (record { payload = 1 ∷ 2 ∷ 3 ∷ []; corrupt = [] }))
    × (length wire ≤ 11)
    × (1 ≤ 3 → length wire ≡ 11)
unpack_pages-pack_pages_example =
    unpack_pages-pack_pages toy_crc (1 ∷ 2 ∷ 3 ∷ []) 4095 toy_crc-IsCrc

abbrev readv : Request
readv = record (plain 3025 (replicate 16 0)) {
  reply_on_path = true;
  payload = 1 ∷ 2 ∷ 3 ∷ 4 ∷ 0 ∷ 0 ∷ 0 ∷ 5 ∷ 0 ∷ 0 ∷ 0 ∷ 0 ∷ 0 ∷ 0 ∷ 1 ∷ 0 ∷ [];
  reply_cap = 21;
}

abbrev ranges : List ReadChunk
ranges = record { fhandle = 1 ∷ 2 ∷ 3 ∷ 4 ∷ []; offset = 256; size = 5 } ∷ []

readv-encoded : encoded (Asked.for_readv ranges 0) ≡ ok readv
unfolding readv_request readahead_list write_unsigned write_signed pack_unsigned pack_signed
readv-encoded = refl

encoded-IsSendable_example : IsSendable readv
encoded-IsSendable_example =
    encoded-IsSendable (Asked.for_readv ranges 0) readv readv-encoded (omega arith)

up-IsUnderWay : IsUnderWay 4 pending_write up
up-IsUnderWay = record { up = refl; waits = refl }

route-oksofar_example :
    Delivered 4 pending_write
      ((1 ∷ 2 ∷ []) ∷ (3 ∷ []) ∷ [])
      (4 ∷ [])
      up
      (route 4 0 (4 ∷ []) (oksofar 4 ((1 ∷ 2 ∷ []) ∷ (3 ∷ []) ∷ []) up))
route-oksofar_example =
    route-oksofar 4 pending_write ((1 ∷ 2 ∷ []) ∷ (3 ∷ []) ∷ []) (4 ∷ []) up up-IsUnderWay refl

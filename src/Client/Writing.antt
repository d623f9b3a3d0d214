-- ===== src/Client/Writing.antt =====
-- client/_writing.py: vector writes, clones and paged writes of an open file.
--
-- What sends a request and waits for its answer changes the state of a server, of any type, and is a
-- parameter of each operation; so is the CRC-32C. A data path is the sender's choice.
pub mod Store
pub mod Paged
pub mod Intact
pub mod Vectors
pub mod Clone
use xrdclient.Prelude.{
  ℕ, zero, suc, ◌+◌, ◌-◌, Bool, true, false, not, ◌&&◌, List, [], ◌∷◌, Option, none, some, ℤ, pos,
  negsuc, ltb, leb, ◌==◌, if◌then◌else◌, length, take, drop, truthy, max,
}
use xrdclient.Errors.{
  Bytes, Fault, Result, ok, err, protocol_error, server_error, value_error, page_integrity,
  unsupported, page_outside,
}
use xrdclient.Exec.{Exec, pure, raise, lift, modify, refuse_if, ◌>>=◌, ◌>>◌}
use xrdclient.Pages.{page_span, pack_pages}
use xrdclient.Wire.Responses.{parse_pgwrite_cse}
use xrdclient.Wire.Requests.File.{CloneItem}
use xrdclient.Client.Vector.{WriteChunk, write_batches, clone_extent}

-- An open file: the server behind it, what is known of its size, whether a `stat` is kept, and whether
-- a checkpoint is open.
pub record Handle (S : Type 0) : Type 0 where
  pub server : S
  pub size_hint : ℕ
  pub stat_known : Bool
  pub checkpoint : Bool

abbrev pub pgw_max_retry : ℕ
pgw_max_retry = 3

abbrev pub clone_max_ranges : ℕ
clone_max_ranges = 1024

-- kXR_Unsupported and kXR_InvalidRequest
abbrev pub unsupported_code : ℕ
unsupported_code = 3013

abbrev pub invalid_request : ℕ
invalid_request = 3006

module _ {S : Type 0} where
  -- A request that is answered.
  abbrev pub on_server : {A : Type 0} → Exec S A → Exec (Handle S) A
  on_server m f = let (r, s) = m f.server in (r, record f { server = s })

  -- `_invalidate`
  abbrev pub invalidate : Bool → ℕ → Exec (Handle S) (Unit {0})
  invalidate exact high =
      modify λ f. record f {
        size_hint = if exact then high else max f.size_hint high;
        stat_known = false;
      }

  -- `if self._checkpoint: raise UnsupportedError`
  abbrev pub no_checkpoint : Exec (Handle S) (Unit {0})
  no_checkpoint f = refuse_if f.checkpoint (unsupported unsupported_code) f

-- `rp.parse_pgwrite_cse(result.data) if result.data else ()`
unfoldable pub reported : Bytes → Result (List ℤ)
unfolding parse_pgwrite_cse
reported [] = ok []
reported (b ∷ body) = parse_pgwrite_cse (b ∷ body)

-- kXR_pgwrite: where to, the pages with their checksums, and whether it is a retry.
abbrev pub PagedSend : Type 0 → Type 0
PagedSend S = ℕ → Bytes → Bool → Exec S Bytes

-- `pack_pages` returns for every input; `none` is a page whose checksum does not fit.
abbrev pub packed_or_error : Option Bytes → Result Bytes
packed_or_error none = err value_error
packed_or_error (some wire) = ok wire

-- the page that a retransmission resends
abbrev pub page_at : Bytes → ℕ → ℕ → Bytes
page_at bytes base page_offset =
    let start = page_offset - base in
    take (page_span page_offset (length bytes - start)) (drop start bytes)

module _ {S : Type 0} (crc32c : Bytes → ℕ) (send : PagedSend S) where
  -- `_pgwrite_once`
  unfoldable pub pgwrite_once : Bytes → ℕ → Bool → Exec S (List ℤ)
  unfolding pack_pages reported
  pgwrite_once bytes offset retry = do
    wire ← lift (packed_or_error (pack_pages crc32c bytes offset))
    body ← send offset wire retry
    lift (reported body)

  -- the loop of `_pgwrite_retry`
  unfoldable pub attempts : ℕ → Bytes → ℕ → Exec S (Unit {0})
  unfolding pgwrite_once
  attempts zero page page_offset = raise (page_integrity page_offset pgw_max_retry)
  attempts (suc n) page page_offset =
      let again = attempts n page page_offset in
      pgwrite_once page page_offset true >>= λ corrupt.
      if not (truthy corrupt) then pure tt else again

  -- `_pgwrite_retry`
  unfoldable pub pgwrite_retry : Bytes → ℕ → ℤ → Exec S (Unit {0})
  unfolding attempts
  pgwrite_retry bytes base (negsuc n) =
      raise (protocol_error (page_outside (negsuc n) (length bytes)))
  pgwrite_retry bytes base (pos p) =
      if leb base p && ltb (p - base) (length bytes)
      then attempts pgw_max_retry (page_at bytes base p) p
      else raise (protocol_error (page_outside (pos p) (length bytes)))

  -- for page_offset in corrupt
  unfoldable pub retry_all : Bytes → ℕ → List ℤ → Exec S (Unit {0})
  unfolding pgwrite_retry
  retry_all bytes base [] = pure tt
  retry_all bytes base (p ∷ corrupt) = pgwrite_retry bytes base p >> retry_all bytes base corrupt

  -- `pgwrite`
  unfoldable pub pgwrite : Bytes → ℕ → Exec (Handle S) ℕ
  unfolding pgwrite_once retry_all
  pgwrite [] offset = pure 0
  pgwrite (b ∷ bytes) offset = do
    corrupt ← on_server (pgwrite_once (b ∷ bytes) offset false)
    _ ← on_server (retry_all (b ∷ bytes) offset corrupt)
    _ ← invalidate false (offset + length (b ∷ bytes))
    pure (length (b ∷ bytes))

-- the inner loop of `writev`, over what a batch wrote
abbrev pub tally : List WriteChunk → ℕ × ℕ → ℕ × ℕ
tally [] sums = sums
tally (c ∷ batch) (total, high) =
    tally batch (total + length c.bytes, max high (c.offset + length c.bytes))

module _ {S : Type 0} (send : List WriteChunk → Exec S (Unit {0})) where
  -- the loop of `writev`
  unfoldable pub send_batches : List (List WriteChunk) → ℕ × ℕ → Exec S (ℕ × ℕ)
  send_batches [] sums = pure sums
  send_batches (batch ∷ batches) sums = send batch >> send_batches batches (tally batch sums)

  -- `writev`
  unfoldable pub writev : List WriteChunk → Exec (Handle S) ℕ
  unfolding send_batches write_batches
  writev [] = pure 0
  writev (c ∷ chunks) = do
    _ ← no_checkpoint
    (total, high) ← on_server (send_batches (write_batches (c ∷ chunks)) (0, 0))
    _ ← invalidate false high
    pure total

-- ===== src/Client/Vector.antt =====
-- client/_vector.py: how vector reads, vector writes and clones are cut to what a server accepts.
-- Offsets and lengths are natural numbers.
pub mod Reply
pub mod Read
pub mod Ceilings
pub mod Writes
pub mod Walks
pub mod Claims
pub mod Whole
use xrdclient.Prelude.{
  ℕ, zero, suc, ◌+◌, ◌-◌, ◌*◌, ◌/◌, min, max, Bool, true, false, ◌&&◌, ◌||◌, List, [], ◌∷◌, ◌++◌,
  ltb, leb, ◌==◌, if◌then◌else◌, length, take, drop, truthy,
}
use xrdclient.Errors.{Bytes}
use xrdclient.Wire.Requests.File.{CloneItem}

abbrev pub readv_max_chunks : ℕ
readv_max_chunks = 1024

abbrev pub readv_max_bytes : ℕ
readv_max_bytes = 2_097_152

abbrev pub readv_max_element : ℕ
readv_max_element = 2_097_136

abbrev pub writev_max_element : ℕ
writev_max_element = 2_097_152

-- `ReadRange` of types.py
pub record ReadRange : Type 0 where
  pub offset : ℕ
  pub size : ℕ

-- `WriteChunk` of types.py
pub record WriteChunk : Type 0 where
  pub offset : ℕ
  pub bytes : Bytes

-- `for start in range(0, rng.length, READV_MAX_ELEMENT)`, with the rounds left and the start
unfoldable pub cut : ℕ → ℕ → ReadRange → List ReadRange
cut zero start rng = []
cut (suc rounds) start rng =
    record { offset = rng.offset + start; size = min readv_max_element (rng.size - start) }
    ∷ cut rounds (start + readv_max_element) rng

-- `_pieces`
unfoldable pub pieces : ReadRange → List ReadRange
unfolding cut
pieces rng =
    if leb rng.size readv_max_element
    then rng ∷ []
    else cut ((rng.size + (readv_max_element - 1)) / readv_max_element) 0 rng

-- `[p for rng in wanted for p in _pieces(rng)]`
unfoldable pub all_pieces : List ReadRange → List ReadRange
unfolding pieces
all_pieces [] = []
all_pieces (rng ∷ wanted) = pieces rng ++ all_pieces wanted

-- the loop of `_write_pieces`
unfoldable pub cut_write : ℕ → ℕ → WriteChunk → List WriteChunk
cut_write zero start c = []
cut_write (suc rounds) start c =
    record { offset = c.offset + start; bytes = take writev_max_element (drop start c.bytes) }
    ∷ cut_write rounds (start + writev_max_element) c

-- `_write_pieces`
unfoldable pub write_pieces : WriteChunk → List WriteChunk
unfolding cut_write
write_pieces c =
    if leb (length c.bytes) writev_max_element
    then c ∷ []
    else cut_write ((length c.bytes + (writev_max_element - 1)) / writev_max_element) 0 c

-- `piece for whole in chunks for piece in _write_pieces(whole)`
unfoldable pub all_write_pieces : List WriteChunk → List WriteChunk
unfolding write_pieces
all_write_pieces [] = []
all_write_pieces (c ∷ chunks) = write_pieces c ++ all_write_pieces chunks

-- The loop that `_batches` and `_write_batches` share, over items of a size.
module _ {A : Type 0} (size : A → ℕ) where
  -- `batch and (len(batch) >= READV_MAX_CHUNKS or total + size > READV_MAX_BYTES)`
  abbrev pub is_full : List A → ℕ → A → Bool
  is_full batch total x =
      truthy batch && (leb readv_max_chunks (length batch) || ltb readv_max_bytes (total + size x))

  unfoldable pub batches_from : List A → ℕ → List A → List (List A)
  batches_from batch total [] = if truthy batch then batch ∷ [] else []
  batches_from batch total (x ∷ xs) =
      let opened = batch ∷ batches_from (x ∷ []) (0 + size x) xs in
      let joined = batches_from (batch ++ (x ∷ [])) (total + size x) xs in
      if is_full batch total x then opened else joined

-- `_batches`
abbrev pub size_of : ReadRange → ℕ
size_of rng = rng.size

unfoldable pub batches : List ReadRange → List (List ReadRange)
unfolding batches_from
batches ranges = batches_from size_of [] 0 ranges

-- `_write_batches`
abbrev pub bytes_of : WriteChunk → ℕ
bytes_of c = length c.bytes

unfoldable pub write_batches : List WriteChunk → List (List WriteChunk)
unfolding batches_from all_write_pieces
write_batches chunks = batches_from bytes_of [] 0 (all_write_pieces chunks)

-- `_clone_extent`
unfoldable pub clone_extent : List CloneItem → ℕ × ℕ
clone_extent [] = (0, 0)
clone_extent (c ∷ items) =
    let (copied, extent) = clone_extent items in (c.size + copied, max (c.target + c.size) extent)

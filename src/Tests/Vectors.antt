-- ===== src/Tests/Vectors.antt =====
-- Vector reads and writes (client/_vector.py, client/_reading.py) at concrete inputs.
use xrdclient.Prelude.{◌≤◌, ◌≡◌, refl, arith, List, [], ◌∷◌, concat, All}
use xrdclient.Errors.{Bytes, ok}
use xrdclient.Client.Vector.{
  ReadRange, WriteChunk, readv_max_element, pieces, all_pieces, batches, write_pieces,
  all_write_pieces, write_batches, bytes_of,
}
use xrdclient.Client.Vector.Read.{readv}
use xrdclient.Client.Vector.Walks.{slices}
use xrdclient.Client.Vector.Ceilings.{Covers, Requests, IsBatch, readv_ceilings}
use xrdclient.Client.Vector.Writes.{Writes, writev_ceilings}
use xrdclient.Client.Vector.Whole.{honest, readv-honest}

abbrev handle : Bytes
handle = 1 ∷ 2 ∷ 3 ∷ 4 ∷ []

abbrev file : Bytes
file = 10 ∷ 11 ∷ 12 ∷ 13 ∷ 14 ∷ 15 ∷ []

-- two ranges that start at the same offset, one that goes over the end, and one beyond it
abbrev ranges : List ReadRange
ranges =
    record { offset = 2; size = 3 }
    ∷ record { offset = 2; size = 1 }
    ∷ record { offset = 4; size = 9 }
    ∷ record { offset = 100; size = 5 }
    ∷ []

-- a range that is too long for one element
abbrev long_range : List ReadRange
long_range = record { offset = 5; size = 5_000_000 } ∷ []

what_is_there : slices file ranges ≡ (12 ∷ 13 ∷ 14 ∷ []) ∷ (12 ∷ []) ∷ (14 ∷ 15 ∷ []) ∷ [] ∷ []
what_is_there = refl

readv-honest_example : readv (honest handle file) ranges ≡ ok (slices file ranges)
readv-honest_example =
    readv-honest handle file ranges (omega arith, (omega arith, (omega arith, (omega arith, tt))))

readv_ceilings_example :
    Requests (all_pieces long_range) (batches (all_pieces long_range))
    × All (λ (p : ReadRange). p.size ≤ readv_max_element) (all_pieces long_range)
    × All (λ (rng : ReadRange). Covers rng.offset rng.size (pieces rng)) long_range
readv_ceilings_example = readv_ceilings long_range

abbrev chunks : List WriteChunk
chunks = record { offset = 7; bytes = file } ∷ record { offset = 0; bytes = [] } ∷ []

writev_ceilings_example :
    (concat (write_batches chunks) ≡ all_write_pieces chunks)
    × All (IsBatch bytes_of) (write_batches chunks)
    × All (λ (c : WriteChunk). Writes c.offset c.bytes (write_pieces c)) chunks
writev_ceilings_example = writev_ceilings chunks

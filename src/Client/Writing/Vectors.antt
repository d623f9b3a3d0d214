-- ===== src/Client/Writing/Vectors.antt =====
-- Vector writes (client/_writing.py: `writev`) to a server that stores what it gets.
use xrdclient.Prelude.{
  ℕ, ◌+◌, ◌≡◌, refl, sym, ap, subst, ◌∙◌, arith, Bool, false, List, [], ◌∷◌, ◌++◌, length, drop,
  concat, sum_of, length-append, sum_of-append, max,
}
use xrdclient.Errors.{Bytes, Result, ok, unsupported}
use xrdclient.Exec.{Exec, pure, continue, refuse_if, ◌>>=◌}
use xrdclient.Client.Vector.{WriteChunk, all_write_pieces, write_pieces, write_batches, bytes_of}
use xrdclient.Client.Vector.Writes.{Writes, write_pieces-Writes, writev_ceilings}
use xrdclient.Client.Writing.{
  Handle, tally, send_batches, writev, no_checkpoint, unsupported_code, on_server, invalidate,
}
use xrdclient.Client.Writing.Store.{Store, put_at, put_at-agree, put_at-append, put_at-nil}

-- A store after some writes, one after the other.
abbrev pub put_all : List WriteChunk → Store → Store
put_all [] s = s
put_all (c ∷ chunks) s = put_all chunks (put_at c.offset c.bytes s)

abbrev pub storing : List WriteChunk → Exec Store (Unit {0})
storing batch s = (ok tt, put_all batch s)

pub put_all-append :
    (xs ys : List WriteChunk) (s : Store) → put_all (xs ++ ys) s ≡ put_all ys (put_all xs s)
put_all-append [] ys s = refl
put_all-append (c ∷ xs) ys s = put_all-append xs ys (put_at c.offset c.bytes s)

pub put_all-agree :
    (chunks : List WriteChunk) (s t : Store)
    → ((i : ℕ) → s i ≡ t i)
    → (i : ℕ) → put_all chunks s i ≡ put_all chunks t i
put_all-agree [] s t e i = e i
put_all-agree (c ∷ chunks) s t e i =
    put_all-agree chunks (put_at c.offset c.bytes s) (put_at c.offset c.bytes t)
      (λ j. put_at-agree c.offset c.bytes s t j (e j)) i

-- The pieces of a chunk write what the chunk would, and are as long together.
Writes-put_all :
    (offset : ℕ) (bytes : Bytes) (pieces : List WriteChunk) (s : Store) (i : ℕ)
    → Writes offset bytes pieces
    → put_all pieces s i ≡ put_at offset bytes s i
Writes-put_all offset bytes [] s i w =
    subst (λ (bs : Bytes). s i ≡ put_at offset bs s i) (sym w) (sym (put_at-nil offset s i))
Writes-put_all offset bytes (c ∷ pieces) s i w =
    let n = length c.bytes in
    put_all-agree pieces (put_at c.offset c.bytes s) (put_at offset c.bytes s)
      (λ j. ap (λ (o : ℕ). put_at o c.bytes s j) w.0) i
    ∙ Writes-put_all (offset + n) (drop n bytes) pieces (put_at offset c.bytes s) i w.3
    ∙ put_at-append offset c.bytes (drop n bytes) s i
    ∙ ap (λ (bs : Bytes). put_at offset bs s i) w.2

Writes-length :
    (offset : ℕ) (bytes : Bytes) (pieces : List WriteChunk)
    → Writes offset bytes pieces
    → sum_of bytes_of pieces ≡ length bytes
Writes-length offset bytes [] w = ap length (sym w)
Writes-length offset bytes (c ∷ pieces) w = omega (
  arith,
  Writes-length (offset + length c.bytes) (drop (length c.bytes) bytes) pieces w.3,
  length-append c.bytes (drop (length c.bytes) bytes),
  ap length w.2,
)

pieces-put_all :
    (chunks : List WriteChunk) (s : Store) (i : ℕ)
    → put_all (all_write_pieces chunks) s i ≡ put_all chunks s i
unfolding all_write_pieces
pieces-put_all [] s i = refl
pieces-put_all (c ∷ chunks) s i =
    ap (λ (t : Store). t i) (put_all-append (write_pieces c) (all_write_pieces chunks) s)
    ∙ pieces-put_all chunks (put_all (write_pieces c) s) i
    ∙ put_all-agree chunks (put_all (write_pieces c) s) (put_at c.offset c.bytes s)
        (λ j. Writes-put_all c.offset c.bytes (write_pieces c) s j (write_pieces-Writes c)) i

pieces-sum_of :
    (chunks : List WriteChunk) → sum_of bytes_of (all_write_pieces chunks) ≡ sum_of bytes_of chunks
unfolding all_write_pieces
pieces-sum_of [] = refl
pieces-sum_of (c ∷ chunks) = omega (
  arith,
  sum_of-append bytes_of (write_pieces c) (all_write_pieces chunks),
  Writes-length c.offset c.bytes (write_pieces c) (write_pieces-Writes c),
  pieces-sum_of chunks,
)

tally-total :
    (batch : List WriteChunk) (total high : ℕ)
    → (tally batch (total, high)).0 ≡ total + sum_of bytes_of batch
tally-total [] total high = omega arith
tally-total (c ∷ batch) total high =
    omega (arith, tally-total batch (total + length c.bytes) (max high (c.offset + length c.bytes)))

send_batches-storing :
    (batches : List (List WriteChunk)) (sums : ℕ × ℕ) (s : Store)
    → (after : ℕ × ℕ) × (send_batches storing batches sums s
        ≡ (ok after, put_all (concat batches) s))
      × (after.0 ≡ sums.0 + sum_of bytes_of (concat batches))
unfolding send_batches
send_batches-storing [] sums s = (sums, refl, omega arith)
send_batches-storing (batch ∷ batches) (total, high) s =
    let (after, e, sum) =
      send_batches-storing batches (tally batch (total, high)) (put_all batch s) in
    (
      after,
      rw (put_all-append batch (concat batches) s) e,
      omega
          (arith, sum, tally-total batch total high, sum_of-append bytes_of batch (concat batches)),
    )

-- Where no checkpoint is open and the server stores what it gets: `writev` returns how many bytes all
-- chunks have, and the file is as if the chunks were written whole, one after the other, however they
-- were cut and put into requests; a `stat` that was kept is dropped.
pub writev-storing :
    (c : WriteChunk) (chunks : List WriteChunk) (f : Handle Store)
    → f.checkpoint ≡ false
    → (g : Handle Store) × (writev storing (c ∷ chunks) f ≡ (ok (sum_of bytes_of (c ∷ chunks)), g))
      × ((i : ℕ) → g.server i ≡ put_all (c ∷ chunks) f.server i)
      × (g.stat_known ≡ false)
unfolding writev
writev-storing c chunks f open' =
    let whole = c ∷ chunks in
    let (all, _, _) = writev_ceilings whole in
    let (sums, e, sum) = send_batches-storing (write_batches whole) (0, 0) f.server in
    let total : sums.0 ≡ sum_of bytes_of whole =
      omega (arith, sum, ap (sum_of bytes_of) all, pieces-sum_of whole) in
    let g : Handle Store = record f {
      server = put_all (concat (write_batches whole)) f.server;
      size_hint = max f.size_hint sums.1;
      stat_known = false;
    } in
    let rest : Unit {0} → Exec (Handle Store) ℕ = λ _.
      on_server (send_batches storing (write_batches whole) (0, 0)) >>= λ sums.
      (invalidate false sums.1 >>= λ _. pure sums.0) in
    let checked : no_checkpoint f ≡ (ok tt, f) =
      ap (λ (b : Bool). refuse_if b (unsupported unsupported_code) f) open' in
    let sent : rest tt f ≡ (ok sums.0, g) = rw e refl in
    (
      g,
      ap (λ (r : Result (Unit {0}) × Handle Store). continue r.0 r.1 rest) checked
          ∙ sent
          ∙ ap (λ (n : ℕ). (ok n, g)) total,
      λ i.
          ap (λ (ps : List WriteChunk). put_all ps f.server i) all
          ∙ pieces-put_all whole f.server i,
      refl,
    )

-- ===== src/Client/Vector/Reply.antt =====
-- client/_vector.py: how the replies to a vector read are filed under the ranges that they answer.
use xrdclient.Prelude.{
  ℕ, zero, suc, Bool, ◌&&◌, List, [], ◌∷◌, ◌++◌, Option, none, some, ltb, ◌==◌, if◌then◌else◌, ℤ,
  pos, negsuc, pos_part, neg_part, length, take, drop,
}
use xrdclient.Errors.{
  Bytes, Result, ok, err, Fault, ◌>>=◌, protocol_error, short_segment, negative_segment,
  segment_past_end, segment_missing, segment_too_long,
}
use xrdclient.Wire.Words.{of_be, signed}
use xrdclient.Client.Vector.{ReadRange, pieces}

-- The generator that `_walk` returns: what it yields, until it returns or raises.
pub data Walk : Type 0 where
  over no_fuel : Walk
  raises : Fault → Walk
  yields : ℤ → Bytes → Walk → Walk

-- one round of the loop, once the header has been unpacked; `rest` is what follows the header
abbrev pub segment_round : ℤ → ℤ → Bytes → (Bytes → Walk) → Walk
segment_round (negsuc n) offset rest next = raises (protocol_error (negative_segment (negsuc n)))
segment_round (pos n) offset rest next =
    if ltb (length rest) n
    then raises (protocol_error (segment_past_end offset n (length rest)))
    else yields offset (take n rest) (next (drop n rest))

-- the loop of `_walk`, over `body[at:]`
unfoldable pub walk_from : ℕ → Bytes → Walk
unfolding of_be signed
walk_from fuel [] = over
walk_from zero (b ∷ bs) = no_fuel
walk_from (suc fuel) (b ∷ bs) =
    let body = b ∷ bs in
    if ltb (length body) 16
    then raises (protocol_error (short_segment (length body)))
    else segment_round (signed 4 (of_be (take 4 (drop 4 body))))
        (signed 8 (of_be (take 8 (drop 8 body)))) (drop 16 body) (λ rest. walk_from fuel rest)

-- `_walk`
unfoldable pub walk : Bytes → Walk
unfolding walk_from
walk body = walk_from (length body) body

-- `for body in bodies: for offset, data in _walk(body)`
unfoldable pub then_walk : Walk → Walk → Walk
then_walk over w = w
then_walk no_fuel w = no_fuel
then_walk (raises e) w = raises e
then_walk (yields offset bytes v) w = yields offset bytes (then_walk v w)

unfoldable pub walk_all : List Bytes → Walk
unfolding walk then_walk
walk_all [] = over
walk_all (body ∷ bodies) = then_walk (walk body) (walk_all bodies)

abbrev pub eq_ℤ : ℤ → ℤ → Bool
eq_ℤ a b = (pos_part a == pos_part b) && (neg_part a == neg_part b)

abbrev with_first : Bytes → Result (Option (List Bytes)) → Result (Option (List Bytes))
with_first bytes (err e) = err e
with_first bytes (ok none) = ok none
with_first bytes (ok (some out)) = ok (some (bytes ∷ out))

-- `_as_asked`, over the segments of all bodies; the walk that has no fuel is no result of the program
unfoldable pub as_asked : Walk → List ReadRange → Result (Option (List Bytes))
as_asked over [] = ok (some [])
as_asked over (rng ∷ wanted) = ok none
as_asked no_fuel wanted = ok none
as_asked (raises e) wanted = err e
as_asked (yields offset bytes w) [] = ok none
as_asked (yields offset bytes w) (rng ∷ wanted) =
    let rest = with_first bytes (as_asked w wanted) in
    if eq_ℤ offset (pos rng.offset) && (length bytes == rng.size) then rest else ok none

-- Segments by their offset.
abbrev pub Answers : Type 0
Answers = List (ℤ × List Bytes)

unfoldable pub answers_at : ℤ → Answers → Option (List Bytes)
answers_at k [] = none
answers_at k ((j, xs) ∷ d) = if eq_ℤ j k then some xs else answers_at k d

-- `out.setdefault(offset, []).append(bytes(data))`
unfoldable pub file_under : ℤ → Bytes → Answers → Answers
file_under k bytes [] = (k, bytes ∷ []) ∷ []
file_under k bytes ((j, xs) ∷ d) =
    if eq_ℤ j k then (j, xs ++ (bytes ∷ [])) ∷ d else (j, xs) ∷ file_under k bytes d

-- the list of a key is another one
unfoldable pub put_answers : ℤ → List Bytes → Answers → Answers
put_answers k ys [] = []
put_answers k ys ((j, xs) ∷ d) = if eq_ℤ j k then (j, ys) ∷ d else (j, xs) ∷ put_answers k ys d

unfoldable pub filed : Walk → Answers → Result Answers
unfolding file_under
filed over d = ok d
filed no_fuel d = ok d
filed (raises e) d = err e
filed (yields offset bytes w) d = filed w (file_under offset bytes d)

-- `_by_offset`
unfoldable pub by_offset : Walk → Result Answers
unfolding filed
by_offset w = filed w []

-- the check at the end of `_segment_for`
abbrev pub fitting : ReadRange → Bytes → Answers → Result (Bytes × Answers)
fitting wanted bytes d =
    if ltb wanted.size (length bytes)
    then err (protocol_error (segment_too_long wanted.size (length bytes)))
    else ok (bytes, d)

-- `_segment_for`, on the list that the dictionary holds; `pop` changes that list
abbrev pub claim : ReadRange → Option (List Bytes) → Answers → Result (Bytes × Answers)
claim wanted none d = err (protocol_error (segment_missing wanted.size))
claim wanted (some []) d = err (protocol_error (segment_missing wanted.size))
claim wanted (some (x ∷ [])) d = fitting wanted x d
claim wanted (some (x ∷ (y ∷ more))) d =
    fitting wanted x (put_answers (pos wanted.offset) (y ∷ more) d)

unfoldable pub segment_for : ReadRange → Answers → Result (Bytes × Answers)
unfolding answers_at put_answers
segment_for wanted d = claim wanted (answers_at (pos wanted.offset) d) d

-- one segment after the other
unfoldable pub segments_for : List ReadRange → Answers → Result (List Bytes × Answers)
unfolding segment_for
segments_for [] d = ok ([], d)
segments_for (rng ∷ wanted) d = do
  (bytes, d) ← segment_for rng d
  (out, d) ← segments_for wanted d
  ok (bytes ∷ out, d)

-- `b"".join(parts)`, also of one part
abbrev pub joined : List Bytes → Bytes
joined [] = []
joined (b ∷ bs) = b ++ joined bs

-- `[_assemble(rng, out) for rng in wanted]`
unfoldable pub assembled : List ReadRange → Answers → Result (List Bytes)
unfolding pieces segments_for
assembled [] d = ok []
assembled (rng ∷ wanted) d = do
  (parts, d) ← segments_for (pieces rng) d
  out ← assembled wanted d
  ok (joined parts ∷ out)

-- ===== src/Client/Vector/Read.antt =====
-- client/_reading.py: `readv`, over the transport that fetches a reply for each batch.
use xrdclient.Prelude.{Bool, true, List, [], ◌∷◌, Option, none, some, leb, ◌&&◌, if◌then◌else◌}
use xrdclient.Errors.{Bytes, Result, ok, ◌>>=◌}
use xrdclient.Client.Vector.{ReadRange, readv_max_element, batches, all_pieces}
use xrdclient.Client.Vector.Reply.{walk_all, as_asked, by_offset, segments_for, assembled}

-- What fetches the bodies of the replies, the bulk plane or one request after the other.
abbrev pub Fetch : Type 0
Fetch = List (List ReadRange) → Result (List Bytes)

-- `all(rng.length <= READV_MAX_ELEMENT for rng in wanted)`
abbrev pub are_elements : List ReadRange → Bool
are_elements [] = true
are_elements (rng ∷ wanted) = leb rng.size readv_max_element && are_elements wanted

-- `_readv_elements`, once the quick way has been tried
abbrev pub or_by_offset : Option (List Bytes) → List Bytes → List ReadRange → Result (List Bytes)
or_by_offset (some quick) bodies wanted = ok quick
or_by_offset none bodies wanted = do
  out ← by_offset (walk_all bodies)
  (found, _) ← segments_for wanted out
  ok found

-- `_readv_elements`
unfoldable pub readv_elements : Fetch → List ReadRange → Result (List Bytes)
unfolding batches as_asked walk_all by_offset segments_for
readv_elements fetch wanted = do
  bodies ← fetch (batches wanted)
  quick ← as_asked (walk_all bodies) wanted
  or_by_offset quick bodies wanted

-- `readv`
unfoldable pub readv : Fetch → List ReadRange → Result (List Bytes)
unfolding readv_elements all_pieces assembled
readv fetch [] = ok []
readv fetch (rng ∷ wanted) =
    if are_elements (rng ∷ wanted) then readv_elements fetch (rng ∷ wanted) else (do
      bodies ← fetch (batches (all_pieces (rng ∷ wanted)))
      out ← by_offset (walk_all bodies)
      assembled (rng ∷ wanted) out)

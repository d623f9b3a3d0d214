-- ===== src/Machine/Reassembly.antt =====
-- A reply that comes in several frames (proto/machine.py: `_response_chunk`, `_response_ok`).
use xrdclient.Prelude.{
  ℕ, ◌+◌, ◌≡◌, refl, arith, true, false, List, [], ◌∷◌, ◌++◌, Option, none, some, ◌==◌, leb, length,
  lookup, put, lookup-put, lookup-without, append_assoc, Bool-cases, inl, inr, length-append, ◌∙◌,
  ap,
}
use xrdclient.Errors.{Bytes, Result, ok}
use xrdclient.Wire.Frames.{Request, join}
use xrdclient.Machine.Types.{Machine, Event, Pending, in_bringup, chunk, completed}
use xrdclient.Machine.Streams.{release}
use xrdclient.Machine.Answers.{Trailer, answer, response_chunk, response_ok, fits_cap}
use xrdclient.Machine.Inbound.{route}

-- The machine after kXR_oksofar frames for a stream, with these bodies.
pub oksofar : ℕ → List Bytes → Machine → Machine
oksofar sid [] m = m
oksofar sid (b ∷ bs) m = oksofar sid bs (route sid 4000 b m).1

-- The events of those frames.
abbrev pub chunks_of : ℕ → Request → List Bytes → List Event
chunks_of sid request [] = []
chunks_of sid request (b ∷ bs) = chunk sid request b ∷ chunks_of sid request bs

-- The stream is under way: the session is up, and the reply so far is kept for it.
pub record IsUnderWay (sid : ℕ) (p : Pending) (m : Machine) : Type 0 where
  pub up : in_bringup m.state ≡ false
  pub waits : lookup sid m.pending ≡ some p

abbrev grown : Pending → Bytes → Pending
grown p b = record p { buffer = p.buffer ++ b }

module _ (sid : ℕ) (p : Pending) (b : Bytes) (m : Machine) (u : IsUnderWay sid p m)
    (fits : fits_cap p (length b) ≡ true) where
  route-chunk : route sid 4000 b m ≡ (
    ok none,
    record m {
      pending = put sid (grown p b) m.pending;
      events = m.events ++ (chunk sid p.request b ∷ []);
    },
  )
  unfolding route answer response_chunk
  route-chunk = rw (u.up, u.waits, fits) refl

  route-ok : route sid 0 b m ≡ (
    ok none,
    record (release sid m) {
      events = (release sid m).events ++ (completed sid p.request (p.buffer ++ b) p.status ∷ []);
    },
  )
  unfolding route answer response_ok
  route-ok = elim (Bool-cases (p.cap == 0)) [
    | inl z ↦ rw (u.up, u.waits, z) refl
    | inr z ↦
        let within : leb (length p.buffer + length b) p.cap ≡ true = ground (arith, fits, z) in
        rw (u.up, u.waits, z, within, z) refl
  ]

  grown-IsUnderWay : IsUnderWay sid (grown p b) (route sid 4000 b m).1
  grown-IsUnderWay = record {
    up = ap (λ (r : Result (Option Trailer) × Machine). in_bringup r.1.state) route-chunk ∙ u.up;
    waits =
        ap (λ (r : Result (Option Trailer) × Machine). lookup sid r.1.pending) route-chunk
        ∙ ground (arith, lookup-put sid sid (grown p b) m.pending);
  }

-- All of a reply fits the cap of its stream, if it has one.
abbrev pub FitsAll : Pending → ℕ → Type 0
FitsAll p n = fits_cap p n ≡ true

-- What the application sees of a reply that is complete.
abbrev pub Delivered :
    ℕ → Pending → List Bytes → Bytes → Machine → Result (Option Trailer) × Machine → Type 0
Delivered sid p bs last m r =
    (r.0 ≡ ok none)
    × (r.1.events
        ≡ m.events
          ++ (chunks_of sid p.request bs
              ++ (completed sid p.request (p.buffer ++ (join bs ++ last)) p.status ∷ [])))
    × (lookup sid r.1.pending ≡ none)

-- A reply that the server sent in any number of kXR_oksofar frames and a last kXR_ok, where all of it
-- is within the cap of the stream: each part is passed on in its turn, the completion carries all the
-- parts in their order behind what was there before, and the stream is over.
pub route-oksofar :
    (sid : ℕ) (p : Pending) (bs : List Bytes) (last : Bytes) (m : Machine)
    → IsUnderWay sid p m
    → FitsAll p (length (join bs) + length last)
    → Delivered sid p bs last m (route sid 0 last (oksofar sid bs m))
unfolding oksofar release
route-oksofar sid p [] last m u fits =
    rw (route-ok sid p last m u (ground (arith, fits)))
      (refl, ground arith, ground (arith, lookup-without sid sid m.pending))
route-oksofar sid p (b ∷ bs) last m u fits =
    let fits' : fits_cap p (length b) ≡ true = ground (arith, length-append b (join bs)) in
    let rest =
      route-oksofar sid (grown p b) bs last (route sid 4000 b m).1
        (grown-IsUnderWay sid p b m u fits')
        (ground (arith, length-append b (join bs), length-append p.buffer b)) in
    let events =
      ap (λ (r : Result (Option Trailer) × Machine). r.1.events) (route-chunk sid p b m u fits') in
    let c = chunk sid p.request b in
    let end = completed sid p.request ((p.buffer ++ b) ++ (join bs ++ last)) p.status in
    (
      rest.0,
      ground (
        arith,
        rest.1,
        events,
        append_assoc m.events (c ∷ []) (chunks_of sid p.request bs ++ (end ∷ [])),
        append_assoc p.buffer b (join bs ++ last),
        append_assoc b (join bs) last,
      ),
      rest.2,
    )

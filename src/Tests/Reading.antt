-- ===== src/Tests/Reading.antt =====
-- The frame loop (proto/machine.py) at concrete inputs.
use xrdclient.Prelude.{◌≡◌, ◌≢◌, refl, [], ◌∷◌, ◌++◌}
use xrdclient.Errors.{Bytes, ok}
use xrdclient.Machine.Types.{new_framer}
use xrdclient.Machine.Inbound.{
  Session, feed, round, parse_all, buffer_and_parse, drained, no_fuel, dispatch, route, body_round,
  trailer_round,
}
use xrdclient.Machine.Framing.{parse_all-ends}
use xrdclient.Machine.Framing.Segments.{Drains, rests, goes, buffer_and_parse-append}
use xrdclient.Machine.Framing.WholeFrame.{SameOutcome, take_bytes_off-SameOutcome}
use xrdclient.Machine.Inbound.{take_bytes_off}
use xrdclient.Tests.{up}

abbrev session : Session
session = record { machine = up; framer = new_framer }

-- a kXR_oksofar (4000) of two bytes for stream 4, and then a kXR_ok of one, cut behind its header
abbrev first : Bytes
first = 0 ∷ 4 ∷ 15 ∷ 160 ∷ 0 ∷ 0 ∷ 0 ∷ 2 ∷ 7 ∷ 7 ∷ 0 ∷ 4 ∷ 0 ∷ 0 ∷ 0 ∷ 0 ∷ 0 ∷ 1 ∷ []

first-Drains : Drains (feed first session)
unfolding round dispatch route body_round trailer_round
first-Drains = goes _ _ tt refl (rests _ _ tt refl)

buffer_and_parse-append_example :
    ((buffer_and_parse first session).0 ≡ ok drained)
    × (buffer_and_parse (first ++ (8 ∷ [])) session
        ≡ buffer_and_parse (8 ∷ []) (buffer_and_parse first session).1)
buffer_and_parse-append_example = buffer_and_parse-append first (8 ∷ []) session first-Drains

parse_all-ends_example : (parse_all (feed first session)).0 ≢ ok no_fuel
parse_all-ends_example = parse_all-ends (feed first session)

-- a whole kXR_ok of one byte for stream 4
abbrev frame : Bytes
frame = 0 ∷ 4 ∷ 0 ∷ 0 ∷ 0 ∷ 0 ∷ 0 ∷ 1 ∷ 8 ∷ []

frame-Drains : Drains (feed frame session)
unfolding round dispatch route body_round trailer_round
frame-Drains = goes _ _ tt refl (rests _ _ tt refl)

take_bytes_off-SameOutcome_example :
    SameOutcome (take_bytes_off frame session) (buffer_and_parse frame session)
take_bytes_off-SameOutcome_example = take_bytes_off-SameOutcome frame session frame-Drains

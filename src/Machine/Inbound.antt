-- ===== src/Machine/Inbound.antt =====
-- proto/machine.py: the inbound half, from bytes off a link to events.
use xrdclient.Prelude.{
  ℕ, zero, suc, ◌+◌, ◌-◌, ◌*◌, Bool, true, false, ◌&&◌, ◌||◌, List, [], ◌∷◌, ◌++◌, Option, none,
  some, ltb, leb, ◌==◌, not, if◌then◌else◌, ℤ, pos, negsuc, ltb_ℤ, length, take, drop, truthy, Dict,
  lookup, put, without, mem,
}
use xrdclient.Errors.{Bytes, Result, ok, err, connection_lost, path_closed, Fault}
use xrdclient.Exec.{Exec, pure, lift, modify, ◌>>=◌}
use xrdclient.Wire.Frames.{ResponseHeader, header_fields, response_hdrlen}
use xrdclient.Wire.Responses.{parse_attn}
use xrdclient.Machine.Types.{
  State, Event, Machine, Pending, Framer, new_framer, emit, in_bringup, is_over, attention,
  failed_event, path_lost, disconnected,
}
use xrdclient.Machine.Streams.{release}
use xrdclient.Machine.Answers.{
  Handler, Trailer, done, is_zero, answer, on_status_data, retired_reply,
}
use xrdclient.Machine.Bringup.{bringup}

-- `_dispatch` for a stream that may be pending or retired
unfoldable pub route_to : Option Pending → ℕ → ℕ → Bytes → Handler
unfolding answer retired_reply
route_to (some p) sid status body m = answer sid status body p m
route_to none sid status body m =
    if mem sid m.retired then retired_reply sid status body m else done m

-- `_dispatch`, behind the unwrapping of a kXR_attn
unfoldable pub route : ℕ → ℕ → Bytes → Handler
unfolding bringup route_to
route sid status body m =
    if in_bringup m.state
    then (bringup status body >>= λ _. done) m
    else route_to (lookup sid m.pending) sid status body m

abbrev is_asynresp : ℤ → Bool
is_asynresp (pos n) = n == 5008
is_asynresp (negsuc n) = false

-- `_unwrap_attn`, and what `_dispatch` does with its result
unfoldable pub route_attn : Bytes → Handler
unfolding parse_attn header_fields route
route_attn body = do
  info ← lift (parse_attn body)
  (if is_asynresp info.action && leb 16 (length body)
      then (do h ← lift (header_fields body 8); route h.streamid h.status (drop 16 body))
      else modify (emit (attention info)) >>= λ _. done)

-- `_dispatch`
unfoldable pub dispatch : ℕ → ℕ → Bytes → Handler
unfolding route route_attn
dispatch sid status body = if status == 4001 then route_attn body else route sid status body

-- A machine and the framer of the link whose bytes it is taking.
pub record Session : Type 0 where
  pub machine : Machine
  pub framer : Framer

-- what a handler asked of its framer
abbrev pub owe : Option Trailer → Framer → Framer
owe none f = f
owe (some t) f = record f { need_trailer = t.need; trailer_for = t.owner }

abbrev pub owed : Result (Option Trailer) → Option Trailer
owed (ok t) = t
owed (err e) = none

abbrev pub outcome : Result (Option Trailer) → Result (Unit {0})
outcome (ok t) = ok tt
outcome (err e) = err e

-- `self._dispatch(sid, status, body, framer)`
abbrev pub deliver : ℕ → ℕ → Bytes → Exec Session (Unit {0})
deliver sid status body s =
    let r = dispatch sid status body s.machine in
    (outcome r.0, record { machine = r.1; framer = owe (owed r.0) s.framer })

-- `buf[:need]` and `buf[need:]`; a negative bound counts from the end
abbrev pub slice_to : ℤ → Bytes → Bytes
slice_to (pos n) buf = take n buf
slice_to (negsuc m) buf = take (length buf - suc m) buf

abbrev pub slice_from : ℤ → Bytes → Bytes
slice_from (pos n) buf = drop n buf
slice_from (negsuc m) buf = drop (length buf - suc m) buf

-- One round of the loop of `_parse`: it returns, waiting for more bytes, or goes round again, with
-- whatever a handler raised.
pub data Round : Type 0 where
  waits : Session → Round
  goes_on : Result (Unit {0}) → Session → Round

-- `_on_status_data` for the owner of a trailer; there is always one
abbrev pub deliver_trailer : Option ℕ → Bytes → Exec Machine (Unit {0})
deliver_trailer none bytes = pure tt
deliver_trailer (some sid) bytes = on_status_data sid bytes

-- the framer when its trailer has been taken
abbrev pub past_trailer : Framer → Framer
past_trailer f = record f {
  buffer = slice_from f.need_trailer f.buffer;
  need_trailer = pos 0;
  trailer_for = none;
}

abbrev pub after_trailer : Session → Round
after_trailer s =
    let f = s.framer in
    let r = deliver_trailer f.trailer_for (slice_to f.need_trailer f.buffer) s.machine in
    goes_on r.0 (record { machine = r.1; framer = past_trailer f })

-- the round that takes a trailer
unfoldable pub trailer_round : Session → Round
unfolding on_status_data
trailer_round s =
    if ltb_ℤ (pos (length s.framer.buffer)) s.framer.need_trailer then waits s else after_trailer s

-- the framer when a body of n bytes has been taken
abbrev pub past_body : ℕ → Framer → Framer
past_body n f = record f { buffer = drop n f.buffer; dlen = none }

abbrev pub after_body : ℕ → Session → Round
after_body n s =
    let f = s.framer in
    let r = deliver f.sid f.status (take n f.buffer) (record s { framer = past_body n f }) in
    goes_on r.0 r.1

-- the round that takes a body of n bytes
unfoldable pub body_round : ℕ → Session → Round
unfolding dispatch
body_round n s = if ltb (length s.framer.buffer) n then waits s else after_body n s

-- the framer that has taken a header
abbrev pub took_header : ResponseHeader → Framer → Framer
took_header h f = record f {
  buffer = drop response_hdrlen f.buffer;
  sid = h.streamid;
  status = h.status;
  dlen = some h.dlen;
}

abbrev pub after_header : Result ResponseHeader → Session → Round
after_header (err e) s = goes_on (err e) s
after_header (ok h) s = body_round h.dlen (record s { framer = took_header h s.framer })

abbrev pub frame_round : Option ℕ → Session → Round
frame_round (some n) s = body_round n s
frame_round none s =
    if ltb (length s.framer.buffer) response_hdrlen
    then waits s
    else after_header (header_fields s.framer.buffer 0) s

unfoldable pub round : Session → Round
unfolding trailer_round body_round header_fields
round s = if is_zero s.framer.need_trailer then frame_round s.framer.dlen s else trailer_round s

-- How the loop of `_parse` ended; `no_fuel` is no result of the program.
pub data Stop : Type 0 where
  drained no_fuel : Stop

-- what follows a round: the next one, unless it waits or a handler raised
abbrev pub proceed : Round → Exec Session Stop → Result Stop × Session
proceed (waits t) next = (ok drained, t)
proceed (goes_on (ok _) t) next = next t
proceed (goes_on (err e) t) next = (err e, t)

-- the loop of `_parse`
unfoldable pub parse : ℕ → Exec Session Stop
unfolding round
parse zero s = (ok no_fuel, s)
parse (suc fuel) s = proceed (round s) (λ t. parse fuel t)

abbrev pub weight_of : Framer → ℕ
weight_of f =
    2 * length f.buffer
    + ((if is_zero f.need_trailer then 0 else 1) + elim f.dlen [ none ↦ 0 | some n ↦ 2 ])

-- `_parse`, with fuel that is enough for the bytes in the buffer
unfoldable pub parse_all : Exec Session Stop
unfolding parse
parse_all s = parse (suc (weight_of s.framer)) s

-- whether `_whole_frame` leaves the bytes to the buffer, before it looks at their header
abbrev pub is_mid_frame : Framer → Bool
is_mid_frame f =
    truthy f.buffer
    || (elim f.dlen [ none ↦ false | some n ↦ true ] || not (is_zero f.need_trailer))

-- `_whole_frame`, once the header has been read
abbrev pub continue_with : Result ResponseHeader → Bytes → Exec Session Bool
continue_with (err e) bytes s = (err e, s)
continue_with (ok h) bytes s =
    if not (length bytes == response_hdrlen + h.dlen)
    then (ok false, s)
    else (deliver h.streamid h.status (drop response_hdrlen bytes) >>= λ _. pure true) s

-- `_whole_frame`: true if it dispatched `bytes`
unfoldable pub whole_frame : Bytes → Exec Session Bool
unfolding header_fields dispatch
whole_frame bytes s =
    if is_mid_frame s.framer || ltb (length bytes) 8
    then (ok false, s)
    else continue_with (header_fields bytes 0) bytes s

-- `framer.buffer += data; self._parse(framer)`
abbrev pub extend : Bytes → Framer → Framer
extend bytes f = record f { buffer = f.buffer ++ bytes }

abbrev pub feed : Bytes → Session → Session
feed bytes s = record s { framer = extend bytes s.framer }

unfoldable pub buffer_and_parse : Bytes → Exec Session Stop
unfolding parse_all
buffer_and_parse bytes s = parse_all (feed bytes s)

-- `receive_data` with bytes, on the framer of its link
unfoldable pub take_bytes_off : Bytes → Exec Session Stop
unfolding whole_frame buffer_and_parse
take_bytes_off bytes = do
  whole ← whole_frame bytes
  if whole then pure drained else buffer_and_parse bytes

-- `Failed` for each stream that is still owed an answer
abbrev pub failures : Fault → List (ℕ × Pending) → List Event
failures why [] = []
failures why ((sid, p) ∷ rest) = failed_event (some sid) (some p.request) why ∷ failures why rest

-- `_on_eof`
unfoldable pub on_eof : Machine → Machine
on_eof m = if is_over m.state then m else record m {
  state = State.closed;
  pending = [];
  events = m.events ++ (failures connection_lost m.pending ++ (disconnected ∷ []));
}

-- the streams routed over a path
abbrev pub routed_over : ℕ → Dict Pending → Dict Pending
routed_over pathid [] = []
routed_over pathid ((sid, p) ∷ rest) =
    let more = routed_over pathid rest in if p.pathid == pathid then (sid, p) ∷ more else more

abbrev pub release_all : List (ℕ × Pending) → Machine → Machine
release_all [] m = m
release_all ((sid, p) ∷ rest) m = release_all rest (release sid m)

-- `forget_path`
unfoldable pub forget_path : ℕ → Machine → Machine
unfolding release
forget_path pathid m =
    let m' = release_all (routed_over pathid m.pending) m in
    record m' { framers = without pathid m'.framers; out_path = without pathid m'.out_path }

-- `_on_path_eof`
unfoldable pub on_path_eof : ℕ → Machine → Machine
unfolding forget_path
on_path_eof pathid m =
    let lost = failures (path_closed pathid) (routed_over pathid m.pending) in
    emit (path_lost pathid) (forget_path pathid (record m { events = m.events ++ lost }))

abbrev pub framer_or_new : Option Framer → Framer
framer_or_new none = new_framer
framer_or_new (some f) = f

-- `receive_data`. The framer is an object of the machine: it is put back as the loop left it.
unfoldable pub receive_data : Bytes → ℕ → Exec Machine (Unit {0})
unfolding on_eof on_path_eof take_bytes_off
receive_data bytes pathid m =
    let f = framer_or_new (lookup pathid m.framers) in
    let m' = record m { framers = put pathid f m.framers } in
    if not (truthy bytes)
    then (ok tt, (if pathid == 0 then on_eof m' else on_path_eof pathid m'))
    else (let r = take_bytes_off bytes (record { machine = m'; framer = f }) in
        (
          elim r.0 [ ok _ ↦ ok tt | err e ↦ err e ],
          record r.1.machine { framers = put pathid r.1.framer r.1.machine.framers },
        ))

-- `next_event`
abbrev pub next_event : Machine → Option Event × Machine
next_event m = elim m.events [ [] ↦ (none, m) | e ∷ es ↦ (some e, record m { events = es }) ]

-- `drain`, and `events` consumed to its end
abbrev pub drain : Machine → List Event × Machine
drain m = (m.events, record m { events = [] })

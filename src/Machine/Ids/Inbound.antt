-- ===== src/Machine/Ids/Inbound.antt =====
-- Bytes off a link (proto/machine.py) and the books of stream ids.
use xrdclient.Prelude.{
  ℕ, zero, suc, ◌≡◌, refl, arith, List, [], ◌∷◌, ◌++◌, Option, none, some, lookup, put, mem, inl,
  inr, Bool-cases, drop, take,
}
use xrdclient.Errors.{Result, ok, err, Result-cases, Bytes, path_closed}
use xrdclient.Wire.Frames.{ResponseHeader, header_fields}
use xrdclient.Wire.Responses.{parse_attn}
use xrdclient.Exec.{Exec}
use xrdclient.Machine.Types.{Machine, Pending}
use xrdclient.Machine.Streams.{release}
use xrdclient.Machine.Bringup.{bringup}
use xrdclient.Machine.Inbound.{
  route_to, route, route_attn, dispatch, Session, deliver_trailer, trailer_round, body_round,
  after_header, frame_round, round, parse, parse_all, whole_frame, continue_with, buffer_and_parse,
  feed, take_bytes_off, on_eof, forget_path, on_path_eof, receive_data, routed_over, release_all,
  failures, Round, waits, goes_on, took_header, Stop, proceed, weight_of, slice_to, framer_or_new,
}
use xrdclient.Machine.Ids.Acquire.{Keeps, release-Keeps}
use xrdclient.Machine.Ids.Outbound.{SameBooks-Keeps}
use xrdclient.Machine.Ids.Answers.{on_status_data-Keeps, answer-Keeps, retired_reply-Keeps}
use xrdclient.Machine.Ids.Bringup.{bringup-SameBooks}

route_to-Keeps :
    (found : Option Pending) (sid status : ℕ) (body : Bytes) (m : Machine)
    → lookup sid m.pending ≡ found
    → Keeps m (route_to found sid status body m).1
unfolding route_to
route_to-Keeps (some p) sid status body m e = answer-Keeps sid status body p m e
route_to-Keeps none sid status body m e = elim (Bool-cases (mem sid m.retired)) [
  | inl late ↦ rw late (retired_reply-Keeps sid status body m late)
  | inr unknown ↦ rw unknown (λ x. omega arith)
]

route-Keeps : (sid status : ℕ) (body : Bytes) (m : Machine) → Keeps m (route sid status body m).1
unfolding route
route-Keeps sid status body m x = ground (
  arith,
  SameBooks-Keeps m (bringup status body m).1 (bringup-SameBooks status body m) x,
  route_to-Keeps (lookup sid m.pending) sid status body m refl x,
)

route_attn-Keeps : (body : Bytes) (m : Machine) → Keeps m (route_attn body m).1
unfolding route_attn
route_attn-Keeps body m x = elim (Result-cases (parse_attn body)) [
  | inl (info, e) ↦ rw e (elim (Result-cases (header_fields body 8)) [
    | inl (h, e') ↦ rw e' (ground (arith, route-Keeps h.streamid h.status (drop 16 body) m x))
    | inr (f, e') ↦ rw e' (ground arith)
  ])
  | inr (f, e) ↦ rw e (omega arith)
]

pub dispatch-Keeps :
    (sid status : ℕ) (body : Bytes) (m : Machine) → Keeps m (dispatch sid status body m).1
unfolding dispatch
dispatch-Keeps sid status body m x =
    ground (arith, route-Keeps sid status body m x, route_attn-Keeps body m x)

-- the machine that a round leaves
abbrev machine_of : Round → Machine
machine_of (waits s) = s.machine
machine_of (goes_on r s) = s.machine

deliver_trailer-Keeps :
    (owner : Option ℕ) (bytes : Bytes) (m : Machine) → Keeps m (deliver_trailer owner bytes m).1
deliver_trailer-Keeps none bytes m x = omega arith
deliver_trailer-Keeps (some sid) bytes m x = on_status_data-Keeps sid bytes m x

trailer_round-Keeps : (s : Session) → Keeps s.machine (machine_of (trailer_round s))
unfolding trailer_round
trailer_round-Keeps s x =
    let bytes = slice_to s.framer.need_trailer s.framer.buffer in
    ground (arith, deliver_trailer-Keeps s.framer.trailer_for bytes s.machine x)

body_round-Keeps : (n : ℕ) (s : Session) → Keeps s.machine (machine_of (body_round n s))
unfolding body_round
body_round-Keeps n s x =
    ground (arith, dispatch-Keeps s.framer.sid s.framer.status (take n s.framer.buffer) s.machine x)

after_header-Keeps :
    (h : Result ResponseHeader) (s : Session) → Keeps s.machine (machine_of (after_header h s))
after_header-Keeps (err e) s x = omega arith
after_header-Keeps (ok h) s x =
    body_round-Keeps h.dlen (record s { framer = took_header h s.framer }) x

frame_round-Keeps :
    (dlen : Option ℕ) (s : Session) → Keeps s.machine (machine_of (frame_round dlen s))
frame_round-Keeps (some n) s x = body_round-Keeps n s x
frame_round-Keeps none s x =
    ground (arith, after_header-Keeps (header_fields s.framer.buffer 0) s x)

round-Keeps : (s : Session) → Keeps s.machine (machine_of (round s))
unfolding round
round-Keeps s x = ground (arith, frame_round-Keeps s.framer.dlen s x, trailer_round-Keeps s x)

proceed-Keeps :
    (m : Machine) (r : Round) (next : Exec Session Stop)
    → Keeps m (machine_of r)
    → ((t : Session) → Keeps t.machine (next t).1.machine)
    → Keeps m (proceed r next).1.machine
proceed-Keeps m (waits t) next keep later x = keep x
proceed-Keeps m (goes_on (ok _) t) next keep later x = omega (arith, keep x, later t x)
proceed-Keeps m (goes_on (err e) t) next keep later x = keep x

parse-Keeps : (fuel : ℕ) (s : Session) → Keeps s.machine (parse fuel s).1.machine
unfolding parse
parse-Keeps zero s x = omega arith
parse-Keeps (suc fuel) s x =
    proceed-Keeps s.machine (round s) (λ t. parse fuel t) (round-Keeps s) (λ t. parse-Keeps fuel t)
      x

continue_with-Keeps :
    (h : Result ResponseHeader) (bytes : Bytes) (s : Session)
    → Keeps s.machine (continue_with h bytes s).1.machine
continue_with-Keeps (err e) bytes s x = omega arith
continue_with-Keeps (ok h) bytes s x =
    ground (arith, dispatch-Keeps h.streamid h.status (drop 8 bytes) s.machine x)

whole_frame-Keeps : (bytes : Bytes) (s : Session) → Keeps s.machine (whole_frame bytes s).1.machine
unfolding whole_frame
whole_frame-Keeps bytes s x = ground (arith, continue_with-Keeps (header_fields bytes 0) bytes s x)

buffer_and_parse-Keeps :
    (bytes : Bytes) (s : Session) → Keeps s.machine (buffer_and_parse bytes s).1.machine
unfolding buffer_and_parse parse_all
buffer_and_parse-Keeps bytes s = parse-Keeps (suc (weight_of (feed bytes s).framer)) (feed bytes s)

take_bytes_off-Keeps :
    (bytes : Bytes) (s : Session) → Keeps s.machine (take_bytes_off bytes s).1.machine
unfolding take_bytes_off
take_bytes_off-Keeps bytes s x =
    let t = (whole_frame bytes s).1 in
    elim (Result-cases (whole_frame bytes s).0) [
      | inl (b, e) ↦ elim (Bool-cases b) [
        | inl yes' ↦ rw (e, yes') (whole_frame-Keeps bytes s x)
        | inr no' ↦
            rw (e, no')
              (omega (arith, buffer_and_parse-Keeps bytes t x, whole_frame-Keeps bytes s x))
      ]
      | inr (f, e) ↦ rw e (whole_frame-Keeps bytes s x)
    ]

on_eof-Keeps : (m : Machine) → Keeps m (on_eof m)
unfolding on_eof
on_eof-Keeps m x = ground arith

release_all-Keeps : (lost : List (ℕ × Pending)) (m : Machine) → Keeps m (release_all lost m)
release_all-Keeps [] m x = omega arith
release_all-Keeps ((sid, p) ∷ lost) m x =
    omega (arith, release_all-Keeps lost (release sid m) x, release-Keeps sid m x)

pub forget_path-Keeps : (pathid : ℕ) (m : Machine) → Keeps m (forget_path pathid m)
unfolding forget_path
forget_path-Keeps pathid m x = release_all-Keeps (routed_over pathid m.pending) m x

on_path_eof-Keeps : (pathid : ℕ) (m : Machine) → Keeps m (on_path_eof pathid m)
unfolding on_path_eof
on_path_eof-Keeps pathid m x =
    forget_path-Keeps pathid
      (record m {
        events = m.events ++ failures (path_closed pathid) (routed_over pathid m.pending);
      })
      x

-- Whatever bytes come off a link, or its end, no stream id gains a claim: a reply may free the id
-- that it answers, and never makes another one look free or taken.
pub receive_data-Keeps :
    (bytes : Bytes) (pathid : ℕ) (m : Machine) → Keeps m (receive_data bytes pathid m).1
unfolding receive_data
receive_data-Keeps bytes pathid m x =
    let f = framer_or_new (lookup pathid m.framers) in
    let m' = record m { framers = put pathid f m.framers } in
    ground (
      arith,
      on_eof-Keeps m' x,
      on_path_eof-Keeps pathid m' x,
      take_bytes_off-Keeps bytes (record { machine = m'; framer = f }) x,
    )

-- ===== src/Machine/Framing.antt =====
-- `_parse` of proto/machine.py as a loop: it ends, and its fuel does not show.
pub mod Segments
pub mod WholeFrame
use xrdclient.Prelude.{
  ℕ, zero, suc, ◌+◌, ◌*◌, ◌-◌, ◌≤◌, ◌<◌, ◌≡◌, ◌≢◌, refl, arith, Bool, true, false, List, [], ◌∷◌,
  ◌++◌, Option, none, some, ◌==◌, if◌then◌else◌, ltb, ltb_ℤ, ℤ, pos, negsuc, length, take, drop,
  length-drop, length-take, Bool-cases, inl, inr, sym, ◌∙◌,
}
use xrdclient.Errors.{Bytes, Result, ok, err, Fault}
use xrdclient.Exec.{Exec}
use xrdclient.Wire.Frames.{ResponseHeader, header_fields, response_hdrlen}
use xrdclient.Machine.Types.{Machine, Framer}
use xrdclient.Machine.Answers.{Trailer, is_zero}
use xrdclient.Machine.Inbound.{
  Session, dispatch, deliver, owe, Round, waits, goes_on, trailer_round, body_round, took_header,
  after_header, frame_round, round, Stop, drained, no_fuel, proceed, parse, parse_all, weight_of,
  slice_from, slice_to, owed, outcome, after_trailer, past_trailer, after_body, past_body,
  deliver_trailer,
}

abbrev pub weight : Session → ℕ
weight s = weight_of s.framer

-- A round that goes on has used up something.
abbrev Falls : ℕ → Round → Type 0
Falls w (waits t) = Unit {0}
Falls w (goes_on (ok _) t) = weight t < w
Falls w (goes_on (err _) t) = Unit {0}

length-slice_from : (z : ℤ) (bs : Bytes) → length (slice_from z bs) ≤ length bs
length-slice_from (pos n) bs = omega (arith, length-drop n bs)
length-slice_from (negsuc m) bs = omega (arith, length-drop (length bs - suc m) bs)

goes_on-Falls : (w : ℕ) (v : Result (Unit {0})) (t : Session) → weight t < w → Falls w (goes_on v t)
goes_on-Falls w (ok _) t h = h
goes_on-Falls w (err _) t h = tt

Falls-if :
    (w : ℕ) (b : Bool) (r r' : Round)
    → (b ≡ true → Falls w r)
    → (b ≡ false → Falls w r')
    → Falls w (if b then r else r')
Falls-if w true r r' h h' = h refl
Falls-if w false r r' h h' = h' refl

trailer_round-Falls :
    (s : Session) → is_zero s.framer.need_trailer ≡ false → Falls (weight s) (trailer_round s)
unfolding trailer_round
trailer_round-Falls s h =
    let f = s.framer in
    let r = deliver_trailer f.trailer_for (slice_to f.need_trailer f.buffer) s.machine in
    Falls-if (weight s) (ltb_ℤ (pos (length f.buffer)) f.need_trailer) (waits s) (after_trailer s)
      (λ _. tt)
      (λ _.
        goes_on-Falls (weight s) r.0 (record { machine = r.1; framer = past_trailer f })
          (ground (arith, length-slice_from f.need_trailer f.buffer)))

weight-owe :
    (t : Option Trailer) (f : Framer)
    → is_zero f.need_trailer ≡ true
    → weight_of (owe t f) ≤ weight_of f + 1
weight-owe none f z = ground arith
weight-owe (some t) f z = ground arith

body_round-Falls :
    (n w : ℕ) (s : Session)
    → is_zero s.framer.need_trailer ≡ true
    → 2 * length s.framer.buffer + 2 ≤ w
    → Falls w (body_round n s)
unfolding body_round
body_round-Falls n w s z h =
    let f = s.framer in
    let r = dispatch f.sid f.status (take n f.buffer) s.machine in
    let t : Session = record { machine = r.1; framer = owe (owed r.0) (past_body n f) } in
    Falls-if w (ltb (length f.buffer) n) (waits s) (after_body n s) (λ _. tt)
      (λ long.
        goes_on-Falls w (outcome r.0) t
          (ground (arith, z, weight-owe (owed r.0) (past_body n f) z, length-drop n f.buffer)))

after_header-Falls :
    (h : Result ResponseHeader) (s : Session)
    → is_zero s.framer.need_trailer ≡ true
    → 8 ≤ length s.framer.buffer
    → s.framer.dlen ≡ none
    → Falls (weight s) (after_header h s)
after_header-Falls (err e) s z long e' = tt
after_header-Falls (ok h) s z long e' =
    body_round-Falls h.dlen (weight s) (record s { framer = took_header h s.framer }) z
      (ground (arith, length-drop 8 s.framer.buffer))

frame_round-Falls :
    (dlen : Option ℕ) (s : Session)
    → s.framer.dlen ≡ dlen
    → is_zero s.framer.need_trailer ≡ true
    → Falls (weight s) (frame_round dlen s)
frame_round-Falls (some n) s e z = body_round-Falls n (weight s) s z (ground arith)
frame_round-Falls none s e z =
    Falls-if (weight s) (ltb (length s.framer.buffer) response_hdrlen) (waits s)
      (after_header (header_fields s.framer.buffer 0) s) (λ _. tt)
      (λ long. after_header-Falls (header_fields s.framer.buffer 0) s z (ground arith) e)

round-Falls : (s : Session) → Falls (weight s) (round s)
unfolding round
round-Falls s =
    Falls-if (weight s) (is_zero s.framer.need_trailer) (frame_round s.framer.dlen s)
      (trailer_round s) (λ z. frame_round-Falls s.framer.dlen s refl z)
      (λ z. trailer_round-Falls s z)

proceed_congr :
    (w : ℕ) (r : Round) (next next' : Exec Session Stop)
    → Falls w r
    → ((t : Session) → weight t < w → next t ≡ next' t)
    → proceed r next ≡ proceed r next'
proceed_congr w (waits t) next next' falls same = refl
proceed_congr w (goes_on (ok _) t) next next' falls same = same t falls
proceed_congr w (goes_on (err e) t) next next' falls same = refl

parse_fuel : (f g : ℕ) (s : Session) → weight s < f → weight s < g → parse f s ≡ parse g s
unfolding parse
parse_fuel zero g s h h' = absurd (omega arith)
parse_fuel (suc f) zero s h h' = absurd (omega arith)
parse_fuel (suc f) (suc g) s h h' =
    proceed_congr (weight s) (round s) (λ t. parse f t) (λ t. parse g t) (round-Falls s)
      (λ t lt. parse_fuel f g t (omega arith) (omega arith))

-- The loop, with no fuel in sight: a round, and then the loop again.
pub parse_all_lem : (s : Session) → parse_all s ≡ proceed (round s) parse_all
unfolding parse_all parse
parse_all_lem s =
    proceed_congr (weight s) (round s) (λ t. parse (weight s) t) parse_all (round-Falls s)
      (λ t lt. parse_fuel (weight s) (suc (weight t)) t lt (omega arith))

stops :
    (w : ℕ) (r : Round) (next : Exec Session Stop)
    → Falls w r
    → ((t : Session) → weight t < w → (next t).0 ≢ ok no_fuel)
    → (proceed r next).0 ≢ ok no_fuel
stops w (waits t) next falls later = λ e. cc
stops w (goes_on (ok _) t) next falls later = later t falls
stops w (goes_on (err e) t) next falls later = λ e. cc

parse-ends : (f : ℕ) (s : Session) → weight s < f → (parse f s).0 ≢ ok no_fuel
unfolding parse
parse-ends zero s h = absurd (omega arith)
parse-ends (suc f) s h =
    stops (weight s) (round s) (λ t. parse f t) (round-Falls s)
      (λ t lt. parse-ends f t (omega arith))

-- Whatever is in the buffer, and whatever the machine makes of it, the loop of `_parse` ends: it
-- takes all the frames that are there, or a handler raises.
pub parse_all-ends : (s : Session) → (parse_all s).0 ≢ ok no_fuel
unfolding parse_all
parse_all-ends s = parse-ends (suc (weight s)) s (omega arith)

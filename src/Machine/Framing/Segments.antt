-- ===== src/Machine/Framing/Segments.antt =====
-- How a peer's bytes are cut into reads does not show (proto/machine.py: `receive_data`, `_parse`).
use xrdclient.Prelude.{
  ℕ, ◌≤◌, ◌≡◌, refl, arith, Bool, true, false, ◌++◌, Option, none, some, if◌then◌else◌, ltb, ltb_ℤ,
  ℤ, pos, negsuc, length, take, drop, length-drop, Bool-cases, inl, inr, sym, ◌∙◌, ap,
  take-append_le, drop-append_le, length-append, append_assoc,
}
use xrdclient.Errors.{Bytes, Result, ok, err}
use xrdclient.Wire.Frames.{ResponseHeader, header_fields}
use xrdclient.Machine.Types.{Framer}
use xrdclient.Machine.Answers.{Trailer, is_zero}
use xrdclient.Machine.Inbound.{
  Session, dispatch, owe, owed, outcome, Round, waits, goes_on, trailer_round, body_round,
  took_header, after_header, frame_round, round, drained, parse_all, slice_from, slice_to, feed,
  extend, buffer_and_parse, after_trailer, after_body, past_body,
}
use xrdclient.Machine.Framing.{parse_all_lem}

-- A trailer's length that is no negative number, as an honest server declares it.
abbrev pub IsLength : ℤ → Type 0
IsLength (pos n) = Unit {0}
IsLength (negsuc n) = ⊥

-- What a round does when more bytes are there already: the same, and they stay behind what is left;
-- a round that waited for them is made with them.
abbrev Agrees : Bytes → Round → Round → Type 0
Agrees more (waits t) r = r ≡ round (feed more t)
Agrees more (goes_on v t) r = r ≡ goes_on v (feed more t)

Agrees-if :
    (more : Bytes) (b b' : Bool) (s : Session) (r r' : Round)
    → (b ≡ false → b' ≡ false)
    → (b ≡ true → (if b' then waits (feed more s) else r') ≡ round (feed more s))
    → (b ≡ false → Agrees more r r')
    → Agrees more (if b then waits s else r) (if b' then waits (feed more s) else r')
Agrees-if more true b' s r r' e h h' = h refl
Agrees-if more false b' s r r' e h h' = rw (e refl) (h' refl)

slice-append :
    (z : ℤ) (bs more : Bytes)
    → IsLength z
    → ltb_ℤ (pos (length bs)) z ≡ false
    → (slice_to z (bs ++ more) ≡ slice_to z bs)
      × (slice_from z (bs ++ more) ≡ slice_from z bs ++ more)
slice-append (pos n) bs more i h =
    (take-append_le n bs more (ground arith), drop-append_le n bs more (ground arith))
slice-append (negsuc n) bs more i h = absurd i

longer :
    (z : ℤ) (bs more : Bytes)
    → ltb_ℤ (pos (length bs)) z ≡ false
    → ltb_ℤ (pos (length (bs ++ more))) z ≡ false
longer z bs more h = ground (arith, length-append bs more)

after_trailer-feed :
    (more : Bytes) (s : Session)
    → IsLength s.framer.need_trailer
    → ltb_ℤ (pos (length s.framer.buffer)) s.framer.need_trailer ≡ false
    → Agrees more (after_trailer s) (after_trailer (feed more s))
after_trailer-feed more s i h =
    let (to, from) = slice-append s.framer.need_trailer s.framer.buffer more i h in rw (to, from)

trailer_round-feed :
    (more : Bytes) (s : Session)
    → IsLength s.framer.need_trailer
    → is_zero s.framer.need_trailer ≡ false
    → Agrees more (trailer_round s) (trailer_round (feed more s))
unfolding trailer_round round
trailer_round-feed more s i z =
    let need = s.framer.need_trailer in
    Agrees-if more (ltb_ℤ (pos (length s.framer.buffer)) need)
      (ltb_ℤ (pos (length (s.framer.buffer ++ more))) need) s (after_trailer s)
      (after_trailer (feed more s)) (longer need s.framer.buffer more) (λ _. rw z)
      (λ h. after_trailer-feed more s i h)

owe-extend :
    (t : Option Trailer) (more : Bytes) (f : Framer) → owe t (extend more f) ≡ extend more (owe t f)
owe-extend none more f = refl
owe-extend (some t) more f = refl

after_body-feed :
    (n : ℕ) (more : Bytes) (s : Session)
    → n ≤ length s.framer.buffer
    → Agrees more (after_body n s) (after_body n (feed more s))
after_body-feed n more s h =
    let f = s.framer in
    let r = dispatch f.sid f.status (take n f.buffer) s.machine in
    rw (take-append_le n f.buffer more h, drop-append_le n f.buffer more h)
      (ap (λ (g : Framer). goes_on (outcome r.0) (record { machine = r.1; framer = g }))
        (owe-extend (owed r.0) more (past_body n f)))

body_round-feed :
    (n : ℕ) (more : Bytes) (s : Session)
    → is_zero s.framer.need_trailer ≡ true
    → s.framer.dlen ≡ some n
    → Agrees more (body_round n s) (body_round n (feed more s))
unfolding body_round round
body_round-feed n more s z e =
    Agrees-if more (ltb (length s.framer.buffer) n) (ltb (length (s.framer.buffer ++ more)) n) s
      (after_body n s) (after_body n (feed more s))
      (λ h. ground (arith, length-append s.framer.buffer more)) (λ h. rw (z, e))
      (λ h. after_body-feed n more s (ground arith))

header_fields-append :
    (bs more : Bytes) → 8 ≤ length bs → header_fields (bs ++ more) 0 ≡ header_fields bs 0
unfolding header_fields
header_fields-append bs more h = ground (
  arith,
  length-append bs more,
  take-append_le 2 bs more (omega arith),
  drop-append_le 2 bs more (omega arith),
  drop-append_le 4 bs more (omega arith),
  take-append_le 2 (drop 2 bs) more (omega (arith, length-drop 2 bs)),
  take-append_le 4 (drop 4 bs) more (omega (arith, length-drop 4 bs)),
)

after_header-feed :
    (h : Result ResponseHeader) (more : Bytes) (s : Session)
    → is_zero s.framer.need_trailer ≡ true
    → 8 ≤ length s.framer.buffer
    → Agrees more (after_header h s) (after_header h (feed more s))
after_header-feed (err e) more s z long = refl
after_header-feed (ok h) more s z long =
    rw (drop-append_le 8 s.framer.buffer more long)
      (body_round-feed h.dlen more (record s { framer = took_header h s.framer }) z refl)

frame_round-feed :
    (dlen : Option ℕ) (more : Bytes) (s : Session)
    → s.framer.dlen ≡ dlen
    → is_zero s.framer.need_trailer ≡ true
    → Agrees more (frame_round dlen s) (frame_round dlen (feed more s))
unfolding round
frame_round-feed (some n) more s e z = body_round-feed n more s z e
frame_round-feed none more s e z =
    let bs = s.framer.buffer in
    Agrees-if more (ltb (length bs) 8) (ltb (length (bs ++ more)) 8) s
      (after_header (header_fields bs 0) s)
      (after_header (header_fields (bs ++ more) 0) (feed more s))
      (λ h. ground (arith, length-append bs more)) (λ h. rw (z, e))
      (λ h.
        rw (header_fields-append bs more (ground arith))
          (after_header-feed (header_fields bs 0) more s z (ground arith)))

round-feed :
    (more : Bytes) (s : Session)
    → IsLength s.framer.need_trailer
    → Agrees more (round s) (round (feed more s))
unfolding round
round-feed more s i = elim (Bool-cases (is_zero s.framer.need_trailer)) [
  | inl z ↦ rw z (frame_round-feed s.framer.dlen more s refl z)
  | inr z ↦ rw z (trailer_round-feed more s i z)
]

-- The loop takes what is in the buffer and comes to wait for more: no handler raises, and no
-- kXR_status declares a negative length for its trailer.
pub data Drains : Session → Type 0 where
  rests : (s t : Session) → IsLength s.framer.need_trailer → round s ≡ waits t → Drains s
  goes :
      (s t : Session)
      → IsLength s.framer.need_trailer
      → round s ≡ goes_on (ok tt) t
      → Drains t
      → Drains s

pub parse_all_waits : (s t : Session) → round s ≡ waits t → parse_all s ≡ (ok drained, t)
parse_all_waits s t e = rw (parse_all_lem, e)

pub parse_all_goes : (s t : Session) → round s ≡ goes_on (ok tt) t → parse_all s ≡ parse_all t
parse_all_goes s t e = parse_all_lem s ∙ rw e

Drains-feed :
    (s : Session) (more : Bytes)
    → Drains s
    → parse_all (feed more s) ≡ parse_all (feed more (parse_all s).1)
Drains-feed s more (rests _ t i e) =
    let again : round (feed more s) ≡ round (feed more t) = rw e at (round-feed more s i) in
    rw (parse_all_waits s t e)
      (parse_all_lem (feed more s) ∙ rw again (sym (parse_all_lem (feed more t))))
Drains-feed s more (goes _ t i e d) =
    let again : round (feed more s) ≡ goes_on (ok tt) (feed more t) =
      rw e at (round-feed more s i) in
    rw (parse_all_goes s t e)
      (parse_all_goes (feed more s) (feed more t) again ∙ Drains-feed t more d)

Drains-ok : (s : Session) → Drains s → (parse_all s).0 ≡ ok drained
Drains-ok s (rests _ t i e) = rw (parse_all_waits s t e)
Drains-ok s (goes _ t i e d) = rw (parse_all_goes s t e) (Drains-ok t d)

-- Two reads that split a stream of bytes anywhere, also inside a header, a body or a trailer, come
-- to the same session as one read of all of it, with the same result, whatever the second read
-- holds, provided the first half is taken without an exception and without a negative length.
pub buffer_and_parse-append :
    (a b : Bytes) (s : Session)
    → Drains (feed a s)
    → ((buffer_and_parse a s).0 ≡ ok drained)
      × (buffer_and_parse (a ++ b) s ≡ buffer_and_parse b (buffer_and_parse a s).1)
unfolding buffer_and_parse
buffer_and_parse-append a b s d =
    let regroup : feed (a ++ b) s ≡ feed b (feed a s) = rw append_assoc in
    (Drains-ok (feed a s) d, ap parse_all regroup ∙ Drains-feed (feed a s) b d)

-- ===== src/Machine/Framing/WholeFrame.antt =====
-- `_whole_frame` of proto/machine.py is a short cut: it does what the buffer and `_parse` would do.
use xrdclient.Prelude.{
  ℕ, ◌+◌, ◌≡◌, ◌≢◌, refl, arith, Bool, true, false, [], ◌∷◌, ◌++◌, Option, none, some, ◌==◌,
  if◌then◌else◌, ltb, ltb_ℤ, ℤ, pos, negsuc, length, take, drop, length-drop, Bool-cases, inl, inr,
  subst, sym, ◌∙◌, ap, take_all, drop_all,
}
use xrdclient.Errors.{Bytes, Result, ok, err, Fault, Result-cases}
use xrdclient.Exec.{Exec, continue, pure}
use xrdclient.Wire.Frames.{ResponseHeader, header_fields}
use xrdclient.Machine.Types.{Machine, Framer}
use xrdclient.Machine.Answers.{Trailer, is_zero}
use xrdclient.Machine.Inbound.{
  Session, dispatch, owe, owed, outcome, Round, waits, goes_on, trailer_round, after_trailer,
  body_round, took_header, frame_round, round, Stop, drained, parse_all, feed, extend,
  buffer_and_parse, past_body, is_mid_frame, whole_frame, take_bytes_off,
}
use xrdclient.Machine.Framing.Segments.{
  Drains, rests, goes, IsLength, parse_all_waits, parse_all_goes,
}

-- A framer's stream id and status are left over while no header has been read.
abbrev pub settle_with : Option ℕ → Framer → Framer
settle_with none f = record f { sid = 0; status = 0 }
settle_with (some n) f = f

abbrev pub settle : Framer → Framer
settle f = settle_with f.dlen f

-- The same result, the same machine, and the same framer but for what is left over.
pub record SameOutcome (r r' : Result Stop × Session) : Type 0 where
  pub result : r.0 ≡ r'.0
  pub machine : r.1.machine ≡ r'.1.machine
  pub framer : settle r.1.framer ≡ settle r'.1.framer

SameOutcome-refl : (r : Result Stop × Session) → SameOutcome r r
SameOutcome-refl r = record { result = refl; machine = refl; framer = refl }

-- A link between frames.
record IsBetween (f : Framer) : Type 0 where
  empty : f.buffer ≡ []
  no_header : f.dlen ≡ none
  no_trailer : is_zero f.need_trailer ≡ true

between :
    (f : Framer) (buffer : Bytes) (dlen : Option ℕ)
    → f.buffer ≡ buffer
    → f.dlen ≡ dlen
    → is_mid_frame f ≡ false
    → IsBetween f
between f [] none e e' h = record { empty = e; no_header = e'; no_trailer = ground arith }
between f (b ∷ bs) d e e' h = absurd (ground arith)
between f [] (some n) e e' h = absurd (ground arith)

then_branch : (c : Bool) (r r' : Round) → c ≡ true → (if c then r else r') ≡ r
then_branch true r r' e = refl
then_branch false r r' e = cc

else_branch : (c : Bool) (r r' : Round) → c ≡ false → (if c then r else r') ≡ r'
else_branch false r r' e = refl
else_branch true r r' e = cc

positive : (n k : ℕ) (z : ℤ) → z ≡ pos n → k ≡ 0 → (n == 0) ≡ false → ltb_ℤ (pos k) z ≡ true
positive n k (pos m) e e' z = ground arith
positive n k (negsuc m) e e' z = cc

-- With nothing in the buffer there is nothing to do.
empty_round :
    (need : ℤ) (s : Session)
    → s.framer.need_trailer ≡ need
    → IsLength need
    → s.framer.buffer ≡ []
    → s.framer.dlen ≡ none
    → round s ≡ waits s
unfolding round trailer_round
empty_round (negsuc n) s e i b d = absurd i
empty_round (pos n) s e i b d =
    let bare : length s.framer.buffer ≡ 0 = ap (λ (bs : Bytes). length bs) b in
    elim (Bool-cases (n == 0)) [
      | inl z ↦ rw (e, z, d, b) refl
      | inr z ↦
          else_branch (is_zero s.framer.need_trailer) (frame_round s.framer.dlen s)
            (trailer_round s) (ap is_zero e ∙ z)
          ∙ then_branch (ltb_ℤ (pos (length s.framer.buffer)) s.framer.need_trailer) (waits s)
              (after_trailer s) (positive n (length s.framer.buffer) s.framer.need_trailer e bare z)
    ]

abbrev value_of : Round → Result (Unit {0})
value_of (waits t) = ok tt
value_of (goes_on v t) = v

abbrev session_of : Round → Session
session_of (waits t) = t
session_of (goes_on v t) = t

never : (v : Result (Unit {0})) (s t : Session) → goes_on v s ≢ waits t
never v s t = λ e. cc

Drains-IsLength : (s : Session) → Drains s → IsLength s.framer.need_trailer
Drains-IsLength s (rests _ t i e) = i
Drains-IsLength s (goes _ t i e d) = i

finish :
    (v : Result (Unit {0})) (t : Session) (rest : Exec Session Stop)
    → v ≡ ok tt
    → let r = continue {S = Session} {B = Bool} v t (λ _. pure true) in
      continue {S = Session} {B = Stop} r.0 r.1 (λ whole. if whole then pure drained else rest)
      ≡ (ok drained, t)
finish (ok _) t rest e = refl
finish (err f) t rest e = cc

-- The framer that takes one whole frame by way of its buffer.
abbrev through : ResponseHeader → Bytes → Framer → Framer
through h bytes f = past_body h.dlen (took_header h (extend bytes f))

module _ (bytes : Bytes) (s : Session) (h : ResponseHeader) (b : IsBetween s.framer)
    (header : header_fields bytes 0 ≡ ok h) (whole : length bytes ≡ 8 + h.dlen) where
  abbrev reply : Result (Option Trailer) × Machine
  reply = dispatch h.streamid h.status (drop 8 bytes) s.machine

  abbrev buffered : Session
  buffered = record { machine = reply.1; framer = owe (owed reply.0) (through h bytes s.framer) }

  round_whole : round (feed bytes s) ≡ goes_on (outcome reply.0) buffered
  unfolding round body_round
  round_whole =
      let n : length (drop 8 bytes) ≡ h.dlen = omega (arith, whole, length-drop 8 bytes) in
      let long : ltb (length bytes) 8 ≡ false = ground (arith, whole) in
      let enough : ltb (length (drop 8 bytes)) h.dlen ≡ false = ground (arith, n) in
      let all : take h.dlen (drop 8 bytes) ≡ drop 8 bytes =
        take_all h.dlen (drop 8 bytes) (omega (arith, n)) in
      rw (b.no_trailer, b.no_header, b.empty, header, long, enough, all) refl

  nothing_left : drop h.dlen (drop 8 (s.framer.buffer ++ bytes)) ≡ []
  nothing_left =
      rw b.empty (drop_all h.dlen (drop 8 bytes) (omega (arith, whole, length-drop 8 bytes)))

  same_framer :
      (t : Option Trailer) → settle (owe t s.framer) ≡ settle (owe t (through h bytes s.framer))
  same_framer none = rw (nothing_left, b.no_header, b.empty) refl
  same_framer (some t) = rw (nothing_left, b.no_header, b.empty) refl

  left_empty : (t : Option Trailer) → (owe t (through h bytes s.framer)).buffer ≡ []
  left_empty none = nothing_left
  left_empty (some t) = nothing_left

  left_between : (t : Option Trailer) → (owe t (through h bytes s.framer)).dlen ≡ none
  left_between none = refl
  left_between (some t) = refl

  -- The buffered way, if it comes to wait.
  buffered_way :
      Drains (feed bytes s)
      → (outcome reply.0 ≡ ok tt) × (parse_all (feed bytes s) ≡ (ok drained, buffered))
  buffered_way (rests _ t i e) = absurd (never (outcome reply.0) buffered t (sym round_whole ∙ e))
  buffered_way (goes _ t i e d) =
      let w : goes_on (outcome reply.0) buffered ≡ goes_on (ok tt) t = sym round_whole ∙ e in
      let same : buffered ≡ t = ap session_of w in
      let len : IsLength buffered.framer.need_trailer =
        subst (λ (x : Session). IsLength x.framer.need_trailer) (sym same) (Drains-IsLength t d) in
      let stop =
        empty_round buffered.framer.need_trailer buffered refl len (left_empty (owed reply.0))
          (left_between (owed reply.0)) in
      (
        ap value_of w,
        parse_all_goes (feed bytes s) t e
            ∙ ap parse_all (sym same)
            ∙ parse_all_waits buffered buffered stop,
      )

  abbrev direct : Session
  direct = record { machine = reply.1; framer = owe (owed reply.0) s.framer }

  direct_way :
      is_mid_frame s.framer ≡ false
      → outcome reply.0 ≡ ok tt
      → take_bytes_off bytes s ≡ (ok drained, direct)
  unfolding take_bytes_off whole_frame
  direct_way mid o =
      let long : ltb (length bytes) 8 ≡ false = ground (arith, whole) in
      let test : (length bytes == 8 + h.dlen) ≡ true = ground (arith, whole) in
      rw (mid, header, long, test) (finish (outcome reply.0) direct (buffer_and_parse bytes) o)

  as_buffered :
      is_mid_frame s.framer ≡ false
      → Drains (feed bytes s)
      → SameOutcome (take_bytes_off bytes s) (parse_all (feed bytes s))
  as_buffered mid d =
      let (o, p) = buffered_way d in
      rw (p, direct_way mid o)
        (record { result = refl; machine = refl; framer = same_framer (owed reply.0) })

falls_back :
    (bytes : Bytes) (s : Session)
    → whole_frame bytes s ≡ (ok false, s)
    → SameOutcome (take_bytes_off bytes s) (buffer_and_parse bytes s)
unfolding take_bytes_off
falls_back bytes s e = rw e (SameOutcome-refl (buffer_and_parse bytes s))

module _ (bytes : Bytes) (s : Session) (f : Fault) (b : IsBetween s.framer)
    (header : header_fields bytes 0 ≡ err f) (long : ltb (length bytes) 8 ≡ false) where
  round_refused : round (feed bytes s) ≡ goes_on (err f) (feed bytes s)
  unfolding round
  round_refused = rw (b.no_trailer, b.no_header, b.empty, header, long) refl

  refused-Drains : Drains (feed bytes s) → ⊥
  refused-Drains (rests _ t i e) = never (err f) (feed bytes s) t (sym round_refused ∙ e)
  refused-Drains (goes _ t i e d) =
      let v : err f ≡ ok tt = ap value_of (sym round_refused ∙ e) in cc

-- The short cut changes nothing: a read that holds one whole frame, on a link between frames, comes to
-- the same result, the same machine and the same framer as by way of the buffer, and any other read
-- goes by way of the buffer; provided that on that way no handler raises and no trailer of negative
-- length is declared. Of a framer that has read no header the stream id and status do not count.
pub take_bytes_off-SameOutcome :
    (bytes : Bytes) (s : Session)
    → Drains (feed bytes s)
    → SameOutcome (take_bytes_off bytes s) (buffer_and_parse bytes s)
unfolding whole_frame buffer_and_parse
take_bytes_off-SameOutcome bytes s d = elim (Bool-cases (is_mid_frame s.framer)) [
  | inl mid ↦ falls_back bytes s (rw mid refl)
  | inr mid ↦
      let b = between s.framer s.framer.buffer s.framer.dlen refl refl mid in
      elim (Bool-cases (ltb (length bytes) 8)) [
        | inl short ↦ falls_back bytes s (rw (mid, short) refl)
        | inr long ↦ elim (Result-cases (header_fields bytes 0)) [
          | inl (h, e) ↦ elim (Bool-cases (length bytes == 8 + h.dlen)) [
            | inl whole ↦ as_buffered bytes s h b e (ground (arith, whole)) mid d
            | inr other ↦ falls_back bytes s (rw (mid, e, long, other) refl)
          ]
          | inr (f, e) ↦ absurd (refused-Drains bytes s f b e long d)
        ]
      ]
]

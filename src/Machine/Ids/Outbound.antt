-- ===== src/Machine/Ids/Outbound.antt =====
-- Sending (proto/machine.py): framing touches no stream id, and `submit` books the id it hands out.
use xrdclient.Prelude.{
  ℕ, ◌≡◌, refl, arith, Bool, false, List, [], Option, none, some, lookup, put, mem-keys-put,
  lookup-put, inl, inr, Bool-cases, not,
}
use xrdclient.Errors.{Result, ok, err, Result-cases, Bytes}
use xrdclient.Exec.{continue}
use xrdclient.Wire.Frames.{Request, encode_parts, join}
use xrdclient.Signing.{Signer, Signature}
use xrdclient.Machine.Types.{Machine, is_ready, Pending}
use xrdclient.Machine.Streams.{acquire_sid, in_use}
use xrdclient.Machine.Outbound.{
  frame, frame_with, signed_frame, sign_with, dispatch_out, send, submit, pending_for,
}
use xrdclient.Machine.Ids
use xrdclient.Machine.Ids.Acquire.{IsFresh, Keeps, acquire_sid-IsFresh, acquire_sid-refused}

-- The books are as they were.
abbrev pub SameBooks : Machine → Machine → Type 0
SameBooks m m' =
    (m'.pending ≡ m.pending)
    × (m'.free ≡ m.free)
    × (m'.leased ≡ m.leased)
    × (m'.retired ≡ m.retired)

pub SameBooks-Keeps : (m m' : Machine) → SameBooks m m' → Keeps m m'
SameBooks-Keeps m m' s x = ground arith

signed_frame-SameBooks :
    (request : Request) (sid : ℕ) (bs : Bytes) (g : Option Signature) (m : Machine)
    → SameBooks m (signed_frame request sid bs g m).1
signed_frame-SameBooks request sid bs none m = ground arith
signed_frame-SameBooks request sid bs (some g) m = ground arith

frame_with-SameBooks :
    (s : Option Signer) (request : Request) (sid : ℕ) (parts : List Bytes) (m : Machine)
    → SameBooks m (frame_with s request sid parts m).1
frame_with-SameBooks none request sid parts m = ground arith
frame_with-SameBooks (some s) request sid parts m =
    elim (Result-cases (sign_with s (join parts) m).0) [
      | inl (g, e) ↦
          rw e (signed_frame-SameBooks request sid (join parts) g (sign_with s (join parts) m).1)
      | inr (f, e) ↦ rw e (refl, refl, refl, refl)
    ]

pub frame-SameBooks :
    (request : Request) (sid : ℕ) (m : Machine) → SameBooks m (frame request sid m).1
unfolding frame
frame-SameBooks request sid m = elim (Result-cases (encode_parts request sid)) [
  | inl (parts, e) ↦ rw e (frame_with-SameBooks m.signer request sid parts m)
  | inr (f, e) ↦ rw e (refl, refl, refl, refl)
]

pub dispatch_out-SameBooks :
    (parts : List Bytes) (bytes : Bytes) (pathid : ℕ) (arrive : Bool) (m : Machine)
    → SameBooks m (dispatch_out parts bytes pathid arrive m)
unfolding dispatch_out
dispatch_out-SameBooks parts bytes pathid arrive m = ground arith

-- the record of a stream that `_send` makes
abbrev booked : ℕ → Pending → Machine → Machine
booked sid p m = record m { pending = put sid p m.pending }

booked-IsApart :
    (sid : ℕ) (p : Pending) (m : Machine) → IsFresh sid m → Ids.IsApart (booked sid p m)
booked-IsApart sid p m fresh x = ground (arith, fresh x, mem-keys-put sid x p m.pending)

IsApart-Keeps : (m m' : Machine) → Keeps m m' → Ids.IsApart m → Ids.IsApart m'
IsApart-Keeps m m' keep apart x = omega (arith, keep x, apart x)

IsFresh-IsApart : (sid : ℕ) (m : Machine) → IsFresh sid m → Ids.IsApart m
IsFresh-IsApart sid m fresh x = omega (arith, fresh x)

IsFresh-SameBooks : (sid : ℕ) (m m' : Machine) → SameBooks m m' → IsFresh sid m → IsFresh sid m'
IsFresh-SameBooks sid m m' s fresh x = ground (arith, fresh x)

-- Where the stream of a request that went out is booked: under its id, with the request, the path
-- that names it in errors, and the bytes of its frame.
abbrev pub Booked : ℕ → Request → Bytes → Machine → Type 0
Booked sid request path m =
    (p : Pending) × (lookup sid m.pending ≡ some p)
    × (p.request ≡ request)
    × (p.path ≡ path)
    × (p.buffer ≡ [])
    × (p.cap ≡ request.reply_cap)

sent :
    (sid : ℕ) (request : Request) (path : Bytes) (arrive : Bool) (parts : List Bytes) (m : Machine)
    → IsFresh sid m
    → let m' =
        dispatch_out parts request.path_data request.pathid arrive
          (booked sid (pending_for request parts path) m) in
      Ids.IsApart m' × Booked sid request path m'
sent sid request path arrive parts m fresh =
    let p = pending_for request parts path in
    let b = booked sid p m in
    let m' = dispatch_out parts request.path_data request.pathid arrive b in
    let same = dispatch_out-SameBooks parts request.path_data request.pathid arrive b in
    (
      IsApart-Keeps b m' (SameBooks-Keeps b m' same) (booked-IsApart sid p m fresh),
      (p, ground (arith, same.0, lookup-put sid sid p m.pending), refl, refl, refl, refl),
    )

-- What `_send` may end in.
abbrev Sends : ℕ → Request → Bytes → Result (Unit {0}) × Machine → Type 0
Sends sid request path (ok _, m) = Ids.IsApart m × Booked sid request path m
Sends sid request path (err e, m) = Ids.IsApart m

send-Sends :
    (request : Request) (sid : ℕ) (path : Bytes) (arrive : Bool) (m : Machine)
    → IsFresh sid m
    → Sends sid request path (send request sid path arrive m)
unfolding send
send-Sends request sid path arrive m fresh =
    let m' = (frame request sid m).1 in
    let fresh' = IsFresh-SameBooks sid m m' (frame-SameBooks request sid m) fresh in
    elim (Result-cases (frame request sid m).0) [
      | inl (parts, e) ↦ rw e (sent sid request path arrive parts m' fresh')
      | inr (f, e) ↦ rw e (IsFresh-IsApart sid m' fresh')
    ]

-- What `submit` may end in: a stream id that nobody held before, booked for the request; or an
-- exception. No id is held twice in either case.
abbrev pub Submits : Request → Bytes → Machine → Result ℕ × Machine → Type 0
Submits request path m (ok sid, m') =
    (in_use sid m ≡ false) × Ids.IsApart m' × Booked sid request path m'
Submits request path m (err e, m') = Ids.IsApart m'

-- What is left of `submit` when the id has been acquired.
Submits-send :
    (request : Request) (path : Bytes) (m m' : Machine) (sid : ℕ) (r : Result (Unit {0}) × Machine)
    → in_use sid m ≡ false
    → Sends sid request path r
    → Submits request path m (continue r.0 r.1 (λ _ (t : Machine). (ok sid, t)))
Submits-send request path m m' sid (ok _, t) unused s = (unused, s.0, s.1)
Submits-send request path m m' sid (err e, t) unused s = s

-- A request that is submitted goes out on a stream id that no pending request, no lease and no
-- late reply held, and is remembered under it; when `submit` raises, as in a state other than
-- READY, with all ids taken, or for a request that cannot be framed, no id is held twice either.
pub submit-Submits :
    (request : Request) (path : Bytes) (arrive : Bool) (m : Machine)
    → Ids.IsApart m
    → Submits request path m (submit request path arrive m)
unfolding submit
submit-Submits request path arrive m apart = elim (Bool-cases (not (is_ready m.state))) [
  | inl early ↦ rw early apart
  | inr up ↦ rw up (elim (Result-cases (acquire_sid m).0) [
    | inl (sid, got) ↦
        let (fresh, unused) = acquire_sid-IsFresh m sid apart got in
        let t = (acquire_sid m).1 in
        rw got (
          Submits-send request path m t sid (send request sid path arrive t) unused
            (send-Sends request sid path arrive t fresh))
    | inr (f, refusal) ↦
        rw refusal (IsApart-Keeps m (acquire_sid m).1 (acquire_sid-refused m f refusal) apart)
  ])
]

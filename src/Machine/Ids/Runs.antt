-- ===== src/Machine/Ids/Runs.antt =====
-- Every history of a machine (proto/machine.py): the calls of its public methods, in any order, by
-- a driver that gives back only ids that it leased, each once.
use xrdclient.Prelude.{ℕ, arith, Bool, true, false, List, inl, inr, ◌&&◌, truthy}
use xrdclient.Errors.{Result, ok, err, Result-cases, Bytes}
use xrdclient.Wire.Frames.{Request}
use xrdclient.Machine.Types.{Machine, Config, data_path, is_ready}
use xrdclient.Machine.Streams.{acquire_sid, release, abandon, lease_sids, release_sids, retire_sids}
use xrdclient.Machine.Outbound.{
  start, submit, resume, farewell, close, tls_established, frame_parts_for, buffers_to_send,
  path_buffers_to_send,
}
use xrdclient.Machine.Inbound.{receive_data, forget_path, drain, next_event}
use xrdclient.Machine.Ids
use xrdclient.Machine.Ids.Acquire.{
  Keeps, acquire_sid-IsFresh, acquire_sid-refused, release-Keeps, abandon-Keeps,
}
use xrdclient.Machine.Ids.Lease.{
  AreLeased, Leases, lease_sids-Leases, release_sids-IsApart, retire_sids-IsApart,
}
use xrdclient.Machine.Ids.Outbound.{
  SameBooks, SameBooks-Keeps, frame-SameBooks, Submits, submit-Submits,
}
use xrdclient.Machine.Ids.Bringup.{begin_login-SameBooks}
use xrdclient.Machine.Ids.Inbound.{receive_data-Keeps, forget_path-Keeps}

-- One call of a driver.
pub data Call : Type 0 where
  starts upgrades sends_buffers takes_event drains : Call
  submits : Request → Bytes → Bool → Call
  resumes releases abandons forgets sends_path leases : ℕ → Call
  gives_back : List ℕ → Call
  gives_up : List ℕ → List ℕ → Call
  frames : Request → ℕ → Call
  receives : Bytes → ℕ → Call
  closes : Bool → Call

-- The machine after a call, whether it returned or raised.
unfoldable pub step : Call → Machine → Machine
step starts m = (start m).1
step upgrades m = (tls_established m).1
step sends_buffers m = (buffers_to_send m).1
step takes_event m = (next_event m).1
step drains m = (drain m).1
step (submits request path arrive) m = (submit request path arrive m).1
step (resumes sid) m = (resume sid m).1
step (releases sid) m = release sid m
step (abandons sid) m = abandon sid m
step (forgets pathid) m = forget_path pathid m
step (sends_path pathid) m = (path_buffers_to_send pathid m).1
step (leases n) m = (lease_sids n m).1
step (gives_back sids) m = release_sids sids m
step (gives_up sids owed) m = retire_sids sids owed m
step (frames request sid) m = (frame_parts_for request sid m).1
step (receives bytes pathid) m = (receive_data bytes pathid m).1
step (closes graceful) m = (close graceful m).1

-- What the bulk reader promises of the ids that it gives back.
abbrev pub Allowed : Call → Machine → Type 0
Allowed (gives_back sids) m = AreLeased sids m
Allowed (gives_up sids owed) m = AreLeased sids m
Allowed _ m = Unit {0}

start-SameBooks : (m : Machine) → SameBooks m (start m).1
unfolding start
start-SameBooks m = ground arith

tls_established-SameBooks : (m : Machine) → SameBooks m (tls_established m).1
unfolding tls_established
tls_established-SameBooks m = ground (arith, begin_login-SameBooks (record m { tls_active = true }))

resume-SameBooks : (sid : ℕ) (m : Machine) → SameBooks m (resume sid m).1
unfolding resume
resume-SameBooks sid m = ground arith

frame_parts_for-SameBooks :
    (request : Request) (sid : ℕ) (m : Machine) → SameBooks m (frame_parts_for request sid m).1
unfolding frame_parts_for
frame_parts_for-SameBooks request sid m = ground (arith, frame-SameBooks request sid m)

Keeps-IsApart : (m m' : Machine) → Keeps m m' → Ids.IsApart m → Ids.IsApart m'
Keeps-IsApart m m' keep apart x = omega (arith, keep x, apart x)

same : (m m' : Machine) → SameBooks m m' → Ids.IsApart m → Ids.IsApart m'
same m m' s = Keeps-IsApart m m' (SameBooks-Keeps m m' s)

after_acquire : (m : Machine) → Ids.IsApart m → Ids.IsApart (acquire_sid m).1
after_acquire m apart = elim (Result-cases (acquire_sid m).0) [
  | inl (sid, e) ↦ λ x. omega (arith, (acquire_sid-IsFresh m sid apart e).0 x)
  | inr (f, e) ↦ Keeps-IsApart m (acquire_sid m).1 (acquire_sid-refused m f e) apart
]

farewell-IsApart :
    (graceful : Bool) (sessid : Bytes) (m : Machine)
    → Ids.IsApart m
    → Ids.IsApart (farewell graceful sessid m).1
farewell-IsApart false sessid m apart = apart
farewell-IsApart true sessid m apart = λ x. ground (arith, after_acquire m apart x)

close-IsApart : (graceful : Bool) (m : Machine) → Ids.IsApart m → Ids.IsApart (close graceful m).1
unfolding close
close-IsApart graceful m apart x = ground (
  arith,
  farewell-IsApart (is_ready m.state && (graceful && truthy m.session_id)) m.session_id m apart x,
)

lease_sids-IsApart :
    (n : ℕ) (m : Machine) (r : Result (List ℕ) × Machine) → Leases n r → Ids.IsApart r.1
lease_sids-IsApart n m (ok sids, t) l = l.2
lease_sids-IsApart n m (err e, t) l = l

submit-IsApart :
    (request : Request) (path : Bytes) (m : Machine) (r : Result ℕ × Machine)
    → Submits request path m r
    → Ids.IsApart r.1
submit-IsApart request path m (ok sid, t) s = s.1
submit-IsApart request path m (err e, t) s = s

-- No call makes an id be held twice, where none was held twice before, and ids that are given back
-- were leased.
pub step-IsApart : (c : Call) (m : Machine) → Allowed c m → Ids.IsApart m → Ids.IsApart (step c m)
unfolding step
step-IsApart starts m a apart = same m (start m).1 (start-SameBooks m) apart
step-IsApart upgrades m a apart = same m (tls_established m).1 (tls_established-SameBooks m) apart
step-IsApart sends_buffers m a apart = apart
step-IsApart takes_event m a apart = λ x. ground (arith, apart x)
step-IsApart drains m a apart = apart
step-IsApart (submits request path arrive) m a apart =
    submit-IsApart request path m (submit request path arrive m)
      (submit-Submits request path arrive m apart)
step-IsApart (resumes sid) m a apart = same m (resume sid m).1 (resume-SameBooks sid m) apart
step-IsApart (releases sid) m a apart = Keeps-IsApart m (release sid m) (release-Keeps sid m) apart
step-IsApart (abandons sid) m a apart =
    Keeps-IsApart m (abandon sid m) (abandon-Keeps sid m apart) apart
step-IsApart (forgets pathid) m a apart =
    Keeps-IsApart m (forget_path pathid m) (forget_path-Keeps pathid m) apart
step-IsApart (sends_path pathid) m a apart = apart
step-IsApart (leases n) m a apart =
    lease_sids-IsApart n m (lease_sids n m) (lease_sids-Leases n m apart)
step-IsApart (gives_back sids) m own apart = release_sids-IsApart sids m own apart
step-IsApart (gives_up sids owed) m own apart = retire_sids-IsApart sids owed m own apart
step-IsApart (frames request sid) m a apart =
    same m (frame_parts_for request sid m).1 (frame_parts_for-SameBooks request sid m) apart
step-IsApart (receives bytes pathid) m a apart =
    Keeps-IsApart m (receive_data bytes pathid m).1 (receive_data-Keeps bytes pathid m) apart
step-IsApart (closes graceful) m a apart = close-IsApart graceful m apart

-- The machines that a driver can bring about.
pub data Reach (start' : Machine) : Machine → Type 0 where
  here : Reach start' start'
  after : {m : Machine} (c : Call) → Allowed c m → Reach start' m → Reach start' (step c m)

Reach-IsApart : {s m : Machine} → Ids.IsApart s → Reach s m → Ids.IsApart m
Reach-IsApart apart here = apart
Reach-IsApart apart (after {m} c a r) = step-IsApart c m a (Reach-IsApart apart r)

-- A new machine, for a control connection or a data path, holds no id.
abbrev pub fresh_machine : Config → Bytes → Bool → Machine
fresh_machine config session_id want_tls = data_path config session_id want_tls

fresh-IsApart :
    (config : Config) (session_id : Bytes) (want_tls : Bool)
    → Ids.IsApart (fresh_machine config session_id want_tls)
fresh-IsApart config session_id want_tls x = omega arith

-- In every history of a machine, of any calls and any bytes from the server, in which the bulk reader
-- gives back only ids that it leases, each once: an id that `submit` returns was held by no pending
-- request, no lease and no late reply, and is booked for the new request alone. When `submit` raises,
-- no id is held twice either.
pub Reach-Submits :
    {config : Config} {session_id : Bytes} {want_tls : Bool} {m : Machine} (request : Request)
    (path : Bytes) (arrive : Bool)
    → Reach (fresh_machine config session_id want_tls) m
    → Submits request path m (submit request path arrive m)
Reach-Submits {config} {session_id} {want_tls} {m} request path arrive r =
    submit-Submits request path arrive m
      (Reach-IsApart (fresh-IsApart config session_id want_tls) r)

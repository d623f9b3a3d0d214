-- ===== src/Machine/Ids/Answers.antt =====
-- Replies to requests (proto/machine.py) and the books of stream ids.
use xrdclient.Prelude.{
  ℕ, ◌≡◌, refl, arith, true, [], ◌++◌, Option, none, some, lookup, put, mem, mem-keys-put,
  mem-keys-lookup, mem-discard, inl, inr,
}
use xrdclient.Errors.{Result-cases, Bytes}
use xrdclient.Wire.Responses.{StatusInfo, parse_status}
use xrdclient.Machine.Types.{Machine, Pending}
use xrdclient.Machine.Answers.{
  within_cap, response_ok, response_chunk, response_error, response_redirect, response_wait,
  response_waitresp, response_status, response_unexpected, status_data_for, status_data_with,
  status_data_of, on_status_data, answer, retired_reply, retire_done,
}
use xrdclient.Machine.Ids
use xrdclient.Machine.Ids.Acquire.{Keeps, release-Keeps}

-- A reply gives nobody a claim that it did not have.
put-Keeps :
    (sid : ℕ) (p q : Pending) (m : Machine)
    → lookup sid m.pending ≡ some p
    → Keeps m (record m { pending = put sid q m.pending })
put-Keeps sid p q m e x =
    ground (arith, mem-keys-put sid x q m.pending, mem-keys-lookup sid m.pending p e)

module _ (sid : ℕ) (p : Pending) (m : Machine) where
  within_cap-Keeps : (n : ℕ) → Keeps m (within_cap sid p n m).1
  unfolding within_cap
  within_cap-Keeps n x = ground (arith, release-Keeps sid m x)

  response_ok-Keeps : (body : Bytes) → Keeps m (response_ok sid body p m).1
  unfolding response_ok within_cap
  response_ok-Keeps body x = ground (arith, release-Keeps sid m x)

  response_error-Keeps : (body : Bytes) → Keeps m (response_error sid body p m).1
  unfolding response_error
  response_error-Keeps body x = ground (arith, release-Keeps sid m x)

  response_redirect-Keeps : (body : Bytes) → Keeps m (response_redirect sid body p m).1
  unfolding response_redirect
  response_redirect-Keeps body x = ground arith

  response_wait-Keeps : (body : Bytes) → Keeps m (response_wait sid body p m).1
  unfolding response_wait
  response_wait-Keeps body x = ground arith

  response_waitresp-Keeps : (body : Bytes) → Keeps m (response_waitresp sid body p m).1
  unfolding response_waitresp
  response_waitresp-Keeps body x = ground arith

  response_unexpected-Keeps : (status : ℕ) → Keeps m (response_unexpected sid status p m).1
  unfolding response_unexpected
  response_unexpected-Keeps status x = ground (arith, release-Keeps sid m x)

  module _ (e : lookup sid m.pending ≡ some p) where
    response_chunk-Keeps : (body : Bytes) → Keeps m (response_chunk sid body p m).1
    unfolding response_chunk within_cap
    response_chunk-Keeps body x = ground (
      arith,
      release-Keeps sid m x,
      put-Keeps sid p (record p { buffer = p.buffer ++ body }) m e x,
    )

    status_data_for-Keeps :
        (body : Bytes) (info : StatusInfo) → Keeps m (status_data_for sid body p info m).1
    unfolding status_data_for within_cap
    status_data_for-Keeps body info x = ground (
      arith,
      release-Keeps sid m x,
      put-Keeps sid p (record p { buffer = p.buffer ++ body }) m e x,
    )

data_with :
    (sid : ℕ) (body : Bytes) (m : Machine) (p : Pending) (status : Option StatusInfo)
    → lookup sid m.pending ≡ some p
    → Keeps m (status_data_with sid body p status m).1
data_with sid body m p none e x = omega arith
data_with sid body m p (some info) e x = status_data_for-Keeps sid p m e body info x

data_of :
    (sid : ℕ) (body : Bytes) (m : Machine) (found : Option Pending)
    → lookup sid m.pending ≡ found
    → Keeps m (status_data_of sid body found m).1
data_of sid body m none e x = omega arith
data_of sid body m (some p) e x = data_with sid body m p p.status e x

pub on_status_data-Keeps :
    (sid : ℕ) (body : Bytes) (m : Machine) → Keeps m (on_status_data sid body m).1
unfolding on_status_data
on_status_data-Keeps sid body m = data_of sid body m (lookup sid m.pending) refl

response_status-Keeps :
    (sid : ℕ) (p : Pending) (m : Machine) (body : Bytes)
    → lookup sid m.pending ≡ some p
    → Keeps m (response_status sid body p m).1
unfolding response_status
response_status-Keeps sid p m body e x = elim (Result-cases (parse_status body)) [
  | inl (info, got) ↦
      let q = record p { status = some info } in
      let m' = record m { pending = put sid q m.pending } in
      rw got (ground (arith, put-Keeps sid p q m e x, on_status_data-Keeps sid [] m' x))
  | inr (f, got) ↦ rw got (omega arith)
]

pub answer-Keeps :
    (sid status : ℕ) (body : Bytes) (p : Pending) (m : Machine)
    → lookup sid m.pending ≡ some p
    → Keeps m (answer sid status body p m).1
unfolding answer
answer-Keeps sid status body p m e x = ground (
  arith,
  response_ok-Keeps sid p m body x,
  response_chunk-Keeps sid p m e body x,
  response_error-Keeps sid p m body x,
  response_redirect-Keeps sid p m body x,
  response_wait-Keeps sid p m body x,
  response_waitresp-Keeps sid p m body x,
  response_status-Keeps sid p m body e x,
  response_unexpected-Keeps sid p m status x,
)

retire_done-Keeps : (sid : ℕ) (m : Machine) → mem sid m.retired ≡ true → Keeps m (retire_done sid m)
retire_done-Keeps sid m e x =
    ground (arith, mem-discard sid x m.retired, Ids.count-concat x sid m.free)

pub retired_reply-Keeps :
    (sid status : ℕ) (body : Bytes) (m : Machine)
    → mem sid m.retired ≡ true
    → Keeps m (retired_reply sid status body m).1
unfolding retired_reply
retired_reply-Keeps sid status body m e x = ground (arith, retire_done-Keeps sid m e x)

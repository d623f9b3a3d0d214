-- ===== src/Machine/Ids/Bringup.antt =====
-- Bring-up (proto/machine.py) does not touch the books of stream ids.
use xrdclient.Prelude.{
  ℕ, refl, arith, Bool, true, false, List, [], ◌∷◌, ◌++◌, Option, none, some, ◌==◌, if◌then◌else◌,
  inl, inr, Bool-cases, ℤ,
}
use xrdclient.Errors.{Result, ok, err, Fault, Result-cases, Bytes, server_error}
use xrdclient.Wire.Responses.{
  LoginInfo, ErrorInfo, parse_error, parse_protocol, parse_bind, parse_login, mechanisms,
}
use xrdclient.Machine.Types.{
  State, Machine, Credential, Rung, pass_over, forgive, use_credential, is_auth, emit, negotiated,
}
use xrdclient.Machine.Outbound.{begin_login}
use xrdclient.Machine.Bringup.{
  fail, queue_auth, climb, tried, ladder_of, reject_if_new, step_with, refused_by, next_credential,
  auth_refused, after_step, auth_step, become_ready, after_protocol, bringup_error, logged_in,
  bringup_in, bringup, unnote, reject,
}
use xrdclient.Machine.Ids.Outbound.{SameBooks}

pub begin_login-SameBooks : (m : Machine) → SameBooks m (begin_login m).1
unfolding begin_login
begin_login-SameBooks m = ground arith

queue_auth-SameBooks : (name blob : Bytes) (m : Machine) → SameBooks m (queue_auth name blob m).1
unfolding queue_auth
queue_auth-SameBooks name blob m = ground arith

tried-SameBooks :
    (r : Result Bytes) (c : Credential) (rest : List Rung)
    (next : Fault → Result (Unit {0}) × Machine) (m : Machine)
    → ((e : Fault) → SameBooks m (next e).1)
    → SameBooks m (tried r c rest next m).1
tried-SameBooks (err e) c rest next m keep = keep e
tried-SameBooks (ok blob) c rest next m keep =
    queue_auth-SameBooks c.name blob
      (record m { credentials = some rest; credential = some c; mechanism = c.name })

climb-SameBooks : (rungs : List Rung) (m : Machine) → SameBooks m (climb rungs m).1
unfolding climb
climb-SameBooks [] m = ground arith
climb-SameBooks (pass_over name why ∷ rest) m = climb-SameBooks rest (reject name why m)
climb-SameBooks (forgive name ∷ rest) m =
    climb-SameBooks rest (record m { auth_rejected = unnote name m.auth_rejected })
climb-SameBooks (use_credential c ∷ rest) m =
    tried-SameBooks c.initial c rest (λ e. climb rest (reject c.name e m)) m
      (λ e. climb-SameBooks rest (reject c.name e m))

next_credential-SameBooks : (sec : Bytes) (m : Machine) → SameBooks m (next_credential sec m).1
unfolding next_credential
next_credential-SameBooks sec m =
    climb-SameBooks (ladder_of m.credentials (m.config.select sec m.tls_active)) m

auth_refused-SameBooks :
    (c : Credential) (code : ℤ) (message : Bytes) (m : Machine)
    → SameBooks m (auth_refused c code message m).1
unfolding auth_refused
auth_refused-SameBooks c code message m =
    next_credential-SameBooks [] (record (reject c.name (server_error code message []) m) {
      auth_refusal = some (code, message);
      credential = none;
    })

after_step-SameBooks :
    (c : Credential) (r : Result (Option Bytes)) (m : Machine) → SameBooks m (after_step c r m).1
unfolding after_step
after_step-SameBooks c (err e) m =
    ground (arith, next_credential-SameBooks [] (reject_if_new c.name (reject c.name e m)))
after_step-SameBooks c (ok none) m =
    ground (arith, next_credential-SameBooks [] (reject_if_new c.name m))
after_step-SameBooks c (ok (some blob)) m = queue_auth-SameBooks c.name blob m

step_with-SameBooks :
    (c : Option Credential) (challenge : Bytes) (m : Machine)
    → SameBooks m (step_with c challenge m).1
unfolding fail
step_with-SameBooks none challenge m = ground arith
step_with-SameBooks (some c) challenge m =
    after_step-SameBooks c (c.step (c.seen ++ (challenge ∷ [])))
      (record m { credential = some (record c { seen = c.seen ++ (challenge ∷ []) }) })

auth_step-SameBooks : (challenge : Bytes) (m : Machine) → SameBooks m (auth_step challenge m).1
unfolding auth_step
auth_step-SameBooks challenge m = step_with-SameBooks m.credential challenge m

become_ready-SameBooks : (m : Machine) → SameBooks m (become_ready m).1
unfolding become_ready
become_ready-SameBooks m = ground arith

after_protocol-SameBooks : (m : Machine) → SameBooks m (after_protocol m).1
unfolding after_protocol
after_protocol-SameBooks m = ground (arith, begin_login-SameBooks m)

refused_by-SameBooks :
    (c : Option Credential) (in_auth : Bool) (info : ErrorInfo) (m : Machine)
    → SameBooks m (refused_by c in_auth info m).1
unfolding fail
refused_by-SameBooks (some c) true info m = auth_refused-SameBooks c info.code info.message m
refused_by-SameBooks (some c) false info m = ground arith
refused_by-SameBooks none b info m = ground arith

bringup_error-SameBooks : (body : Bytes) (m : Machine) → SameBooks m (bringup_error body m).1
unfolding bringup_error
bringup_error-SameBooks body m = elim (Result-cases (parse_error body)) [
  | inl (info, e) ↦ rw e (refused_by-SameBooks m.credential (is_auth m.state) info m)
  | inr (f, e) ↦ rw e (refl, refl, refl, refl)
]

logged_in-SameBooks : (info : LoginInfo) (m : Machine) → SameBooks m (logged_in info m).1
unfolding logged_in
logged_in-SameBooks info m =
    let m' = record m { session_id = info.sessid; offered = mechanisms info } in
    ground (
      arith,
      become_ready-SameBooks m',
      next_credential-SameBooks info.sec (record m' { state = State.auth }),
    )

other_state :
    (status : ℕ) (body : Bytes) (m : Machine)
    → SameBooks m ((if status == 4002 then auth_step body else become_ready) m).1
other_state status body m = elim (Bool-cases (status == 4002)) [
  | inl e ↦ rw e (auth_step-SameBooks body m)
  | inr e ↦ rw e (become_ready-SameBooks m)
]

bringup_in-SameBooks :
    (s : State) (status : ℕ) (body : Bytes) (m : Machine)
    → SameBooks m (bringup_in s status body m).1
unfolding bringup_in
bringup_in-SameBooks State.handshake status body m = ground arith
bringup_in-SameBooks State.protocol status body m = elim (Result-cases (parse_protocol body)) [
  | inl (info, e) ↦
      rw e (after_protocol-SameBooks (emit (negotiated info) (record m { protocol_info = info })))
  | inr (f, e) ↦ rw e (refl, refl, refl, refl)
]
bringup_in-SameBooks State.bind status body m = elim (Result-cases (parse_bind body)) [
  | inl (pathid, e) ↦ rw e (become_ready-SameBooks (record m { pathid = pathid }))
  | inr (f, e) ↦ rw e (refl, refl, refl, refl)
]
bringup_in-SameBooks State.login status body m = elim (Result-cases (parse_login body)) [
  | inl (info, e) ↦ rw e (logged_in-SameBooks info m)
  | inr (f, e) ↦ rw e (refl, refl, refl, refl)
]
bringup_in-SameBooks _ status body m = other_state status body m

pub bringup-SameBooks :
    (status : ℕ) (body : Bytes) (m : Machine) → SameBooks m (bringup status body m).1
unfolding bringup fail
bringup-SameBooks status body m =
    ground (arith, bringup_error-SameBooks body m, bringup_in-SameBooks m.state status body m)

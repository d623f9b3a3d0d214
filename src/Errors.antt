-- ===== src/Errors.antt =====
-- The exceptions of errors.py that the modelled code raises, and the ones of Python and of
-- `struct`. A message is not text here: a `Cause` names the place that raises, with the numbers
-- that its message shows.
use xrdclient.Prelude.{ℕ, ℤ, List, ◌≡◌, refl, ◌⊎◌, inl, inr}

abbrev pub Bytes : Type 0
Bytes = List ℕ

pub data Cause : Type 0 where
  -- proto/buffer.py: `Reader._take`
  negative_read : ℤ → Cause
  truncated : ℕ → ℕ → ℕ → Cause
  -- proto/frames.py
  params_length payload_too_long body_too_long short_header : ℕ → Cause
  -- proto/responses.py
  no_redirect_host zero_pathid : Cause
  cse_length : ℕ → Cause
  -- proto/machine.py: calls in the wrong state
  bad_state not_waiting not_leased : ℕ → Cause
  sids_exhausted : Cause
  -- proto/machine.py: bring-up, and answers to requests
  unexpected_bringup unexpected_status : ℕ → Cause
  no_tls : Cause
  over_cap : ℕ → Cause
  -- proto/_requests_io.py: `ChkPoint.execute`
  not_executable : ℕ → Cause
  -- client/_vector.py
  short_segment : ℕ → Cause
  negative_segment : ℤ → Cause
  segment_past_end : ℤ → ℕ → ℕ → Cause
  segment_missing : ℕ → Cause
  segment_too_long : ℕ → ℕ → Cause
  -- client/_writing.py
  page_outside : ℤ → ℕ → Cause
  other_connection : Cause

pub data Fault : Type 0 where
  protocol_error : Cause → Fault
  -- code, message and path of a server's refusal
  server_error : ℤ → Bytes → Bytes → Fault
  connection_lost : Fault
  -- a bound data path that closed
  path_closed : ℕ → Fault
  no_mechanism : List Bytes → Fault
  authentication_error : Fault
  -- what a credential plug-in raised
  credential_error : ℕ → Fault
  -- `struct.error`: a value outside the range of its field
  struct_error : Fault
  value_error : Fault
  -- a page that did not arrive whole after so many tries
  page_integrity : ℕ → ℕ → Fault
  -- an operation that a server or a checkpoint does not have
  unsupported : ℕ → Fault

pub data Result {ℓ} (A : Type ℓ) : Type ℓ where
  ok : A → Result A
  err : Fault → Result A

infixl 5 ◌>>=◌
abbrev pub ◌>>=◌ {ℓ κ} : {A : Type ℓ} {B : Type κ} → Result A → (A → Result B) → Result B
ok a >>= f = f a
err e >>= f = err e

pub Result-cases {ℓ} :
    {A : Type ℓ} (r : Result A) → ((a : A) × (r ≡ ok a)) ⊎ ((e : Fault) × (r ≡ err e))
Result-cases (ok a) = inl (a, refl)
Result-cases (err e) = inr (e, refl)

-- ===== src/Machine/Bringup.antt =====
-- proto/machine.py: the bring-up of a connection, from the handshake's reply to READY.
use Prim.Native.Nat.{bit_and}
use xrdclient.Prelude.{
  ℕ, Bool, true, false, ◌||◌, List, [], ◌∷◌, ◌++◌, Option, none, some, ◌==◌, not, if◌then◌else◌, ℤ,
  take, truthy,
}
use xrdclient.Errors.{
  Bytes, Fault, Result, ok, err, protocol_error, server_error, no_mechanism, authentication_error,
  unexpected_bringup, no_tls,
}
use xrdclient.Exec.{Exec, lift, gets, modify, ◌>>=◌, ◌>>◌}
use xrdclient.Wire.Words.{of_be}
use xrdclient.Wire.Frames.{encode}
use xrdclient.Wire.Requests.{auth_request}
use xrdclient.Wire.Responses.{
  ProtocolInfo, ErrorInfo, LoginInfo, parse_error, parse_protocol, parse_bind, parse_login,
  mechanisms,
}
use xrdclient.Signing.{Signer, new_signer, same}
use xrdclient.Machine.Types.{
  State, Machine, Credential, Rung, pass_over, forgive, use_credential, emit, queue, is_auth,
  negotiated, need_tls, ready_event, failed_event,
}
use xrdclient.Machine.Outbound.{begin_login}

-- `_fail`
unfoldable pub fail : Fault → Exec Machine (Unit {0})
fail e m = (ok tt, emit (failed_event none none e) (record m { state = State.failed }))

-- `self._auth_rejected[name] = why`
unfoldable pub note : Bytes → Fault → List (Bytes × Fault) → List (Bytes × Fault)
note name why [] = (name, why) ∷ []
note name why ((n, w) ∷ d) = if same n name then (name, why) ∷ d else (n, w) ∷ note name why d

-- `why.pop(name, None)`
unfoldable pub unnote : Bytes → List (Bytes × Fault) → List (Bytes × Fault)
unnote name [] = []
unnote name ((n, w) ∷ d) = let rest = unnote name d in if same n name then rest else (n, w) ∷ rest

unfoldable pub has_note : Bytes → List (Bytes × Fault) → Bool
has_note name [] = false
has_note name ((n, w) ∷ d) = same n name || has_note name d

abbrev pub reject : Bytes → Fault → Machine → Machine
reject name why m = record m { auth_rejected = note name why m.auth_rejected }

-- the end of `_next_credential`, with the ladder exhausted
abbrev pub exhausted_with : Option (ℤ × Bytes) → List Bytes → Fault
exhausted_with (some (code, message)) offered = server_error code message []
exhausted_with none offered = no_mechanism offered

-- `self._out.append(encode(r.Auth(name, blob), _SID_AUTH))`
unfoldable pub queue_auth : Bytes → Bytes → Exec Machine (Unit {0})
unfolding encode auth_request
queue_auth name blob = do
  req ← lift (auth_request name blob)
  bs ← lift (encode req 3)
  modify (queue bs)

-- one mechanism's turn in the loop of `_next_credential`; the loop goes on if it raises
abbrev pub tried :
    Result Bytes
    → Credential
    → List Rung
    → (Fault → Result (Unit {0}) × Machine)
    → Exec Machine (Unit {0})
tried (err e) c rest on_error m = on_error e
tried (ok blob) c rest on_error m =
    queue_auth c.name blob
      (record m { credentials = some rest; credential = some c; mechanism = c.name })

-- the loop of `_next_credential` over what is left of the generator
unfoldable pub climb : List Rung → Exec Machine (Unit {0})
unfolding fail note unnote queue_auth
climb [] m = fail (exhausted_with m.auth_refusal m.offered) (record m { credentials = some [] })
climb (pass_over name why ∷ rest) m = climb rest (reject name why m)
climb (forgive name ∷ rest) m =
    climb rest (record m { auth_rejected = unnote name m.auth_rejected })
climb (use_credential c ∷ rest) m = tried c.initial c rest (λ e. climb rest (reject c.name e m)) m

abbrev pub ladder_of : Option (List Rung) → List Rung → List Rung
ladder_of none fresh = fresh
ladder_of (some rungs) fresh = rungs

-- `_next_credential`
unfoldable pub next_credential : Bytes → Exec Machine (Unit {0})
unfolding climb
next_credential sec m = climb (ladder_of m.credentials (m.config.select sec m.tls_active)) m

-- `_auth_refused`
unfoldable pub auth_refused : Credential → ℤ → Bytes → Exec Machine (Unit {0})
unfolding next_credential
auth_refused c code message = do
  modify (λ m. record (reject c.name (server_error code message []) m) {
    auth_refusal = some (code, message);
    credential = none;
  })
  next_credential []

-- `rejected.setdefault(name, …)`
abbrev pub reject_if_new : Bytes → Machine → Machine
reject_if_new name m =
    if has_note name m.auth_rejected then m else reject name authentication_error m

-- `_auth_step`, once the mechanism has answered
unfoldable pub after_step : Credential → Result (Option Bytes) → Exec Machine (Unit {0})
unfolding next_credential queue_auth has_note
after_step c (err e) = do
  modify (reject c.name e)
  modify (reject_if_new c.name)
  next_credential []
after_step c (ok none) = do modify (reject_if_new c.name); next_credential []
after_step c (ok (some blob)) = queue_auth c.name blob

abbrev pub step_with : Option Credential → Bytes → Exec Machine (Unit {0})
step_with none challenge = fail authentication_error
step_with (some c) challenge = do
  modify (λ m. record m { credential = some (record c { seen = c.seen ++ (challenge ∷ []) }) })
  after_step c (c.step (c.seen ++ (challenge ∷ [])))

-- `_auth_step`
unfoldable pub auth_step : Bytes → Exec Machine (Unit {0})
unfolding fail after_step
auth_step challenge m = step_with m.credential challenge m

-- The key to sign with: `self._credential.session_key`.
abbrev pub key_of : Option Credential → Option Bytes
key_of none = none
key_of (some c) = c.session_key c.seen

abbrev pub signer_of : Option Bytes → ProtocolInfo → Option Signer → Option Signer
signer_of none info old = old
signer_of (some []) info old = old
signer_of (some (k ∷ key)) info old = some (
    new_signer (k ∷ key) info.security_level info.security_overrides
      (not (bit_and info.security_options 1 == 0)))

-- `_become_ready`
unfoldable pub become_ready : Exec Machine (Unit {0})
become_ready m = (
  ok tt,
  emit (ready_event m.session_id m.mechanism) (record m {
    state = State.ready;
    signer = signer_of (key_of m.credential) m.protocol_info m.signer;
  }),
)

-- whether the server's flags demand TLS: kXR_gotoTLS, kXR_tlsLogin, kXR_tlsSess, kXR_tlsData
abbrev pub demands_tls : ℕ → Bool
demands_tls flags = not (bit_and flags 0x4D000000 == 0)

-- kXR_haveTLS
abbrev pub has_tls : ℕ → Bool
has_tls flags = not (bit_and flags 0x80000000 == 0)

-- `_after_protocol`
unfoldable pub after_protocol : Exec Machine (Unit {0})
unfolding fail begin_login
after_protocol m =
    let flags = m.protocol_info.flags in
    if m.want_tls || demands_tls flags
    then (if not (has_tls flags)
        then fail (protocol_error no_tls) m
        else (ok tt, emit (need_tls (demands_tls flags)) (record m { state = State.tls })))
    else begin_login m

-- `_bringup_error`, with the mechanism in play, if there is one
abbrev pub refused_by : Option Credential → Bool → ErrorInfo → Exec Machine (Unit {0})
refused_by (some c) true info = auth_refused c info.code info.message
refused_by _ _ info = fail (server_error info.code info.message [])

-- `_bringup_error`
unfoldable pub bringup_error : Bytes → Exec Machine (Unit {0})
unfolding parse_error auth_refused fail
bringup_error body = do
  info ← lift (parse_error body)
  m ← gets (λ m. m)
  refused_by m.credential (is_auth m.state) info

unfoldable pub logged_in : LoginInfo → Exec Machine (Unit {0})
unfolding become_ready next_credential mechanisms
logged_in info = do
  modify (λ m. record m { session_id = info.sessid; offered = mechanisms info })
  if not (truthy info.sec)
      then become_ready
      else (do modify (λ m. record m { state = State.auth }); next_credential info.sec)

-- the steps of `_bringup`, by the state; TLS and the last four states never come here
unfoldable pub bringup_in : State → ℕ → Bytes → Exec Machine (Unit {0})
unfolding parse_protocol after_protocol parse_bind become_ready parse_login logged_in auth_step
bringup_in State.handshake status body =
    modify (λ m. record m { handshake_version = of_be (take 4 body); state = State.protocol })
bringup_in State.protocol status body = do
  info ← lift (parse_protocol body)
  modify (λ m. emit (negotiated info) (record m { protocol_info = info }))
  after_protocol
bringup_in State.bind status body = do
  pathid ← lift (parse_bind body)
  modify (λ m. record m { pathid = pathid })
  become_ready
bringup_in State.login status body = do info ← lift (parse_login body); logged_in info
bringup_in _ status body = if status == 4002 then auth_step body else become_ready

-- `_bringup`
unfoldable pub bringup : ℕ → Bytes → Exec Machine (Unit {0})
unfolding bringup_error fail bringup_in
bringup status body m =
    if status == 4003
    then bringup_error body m
    else if not ((status == 0) || (status == 4002))
    then fail (protocol_error (unexpected_bringup status)) m
    else bringup_in m.state status body m

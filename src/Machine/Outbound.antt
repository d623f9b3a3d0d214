-- ===== src/Machine/Outbound.antt =====
-- proto/machine.py: the outbound half, from a request to the buffers that a driver sends.
use xrdclient.Prelude.{
  ℕ, Bool, true, false, ◌&&◌, List, [], ◌∷◌, ◌++◌, Option, none, some, ◌==◌, not, if◌then◌else◌,
  truthy, lookup, put, without, mem,
}
use xrdclient.Errors.{Bytes, protocol_error, bad_state, not_waiting, not_leased}
use xrdclient.Exec.{Exec, pure, raise, lift, gets, modify, refuse_if, ◌>>=◌, ◌>>◌}
use xrdclient.Wire.Frames.{Request, encode, encode_parts, join, handshake}
use xrdclient.Wire.Requests.{
  protocol_request, login_request, bind_request, end_session_request, sigver_request,
}
use xrdclient.Signing.{Signer, Signature, sign}
use xrdclient.Machine.Types.{
  State, Machine, Pending, emit, queue, is_new, is_ready, is_tls, state_number, disconnected,
}
use xrdclient.Machine.Streams.{acquire_sid}

-- `start`. The flags are kXR_secreqs, kXR_ableTLS and, if TLS is wanted, kXR_wantTLS.
unfoldable pub start : Exec Machine (Unit {0})
unfolding encode protocol_request
start = do
  s ← gets (λ m. m.state)
  refuse_if (not (is_new s)) (protocol_error (bad_state (state_number s)))
  modify (queue handshake)
  want ← gets (λ m. m.want_tls)
  req ← lift (protocol_request (if want then 7 else 3))
  bs ← lift (encode req 1)
  modify (λ m. record (queue bs m) { state = State.handshake })

-- `buffers_to_send`
abbrev pub buffers_to_send : Machine → List Bytes × Machine
buffers_to_send m = (m.out, record m { out = [] })

abbrev pub or_empty : Option (List Bytes) → List Bytes
or_empty none = []
or_empty (some bs) = bs

-- `path_buffers_to_send`
abbrev pub path_buffers_to_send : ℕ → Machine → List Bytes × Machine
path_buffers_to_send pathid m =
    (or_empty (lookup pathid m.out_path), record m { out_path = without pathid m.out_path })

-- `_frame`, once the signer has answered
abbrev pub signed_frame : Request → ℕ → Bytes → Option Signature → Exec Machine (List Bytes)
signed_frame request sid frame none = pure (frame ∷ [])
signed_frame request sid frame (some g) = do
  sigver ← lift (sigver_request request.opcode g.number g.signature g.nodata)
  prefix ← lift (encode sigver sid)
  pure ((prefix ++ frame) ∷ [])

-- `self.signer.sign(frame)` on the machine that holds the signer; the machine's signer draws no
-- vector.
abbrev pub sign_with : Signer → Bytes → Exec Machine (Option Signature)
sign_with s frame m =
    let r = sign m.config.crypto [] frame s in (r.0, record m { signer = some r.1 })

abbrev pub frame_with : Option Signer → Request → ℕ → List Bytes → Exec Machine (List Bytes)
frame_with none request sid parts = pure parts
frame_with (some s) request sid parts = do
  g ← sign_with s (join parts)
  signed_frame request sid (join parts) g

-- `_frame`
unfoldable pub frame : Request → ℕ → Exec Machine (List Bytes)
unfolding encode_parts encode sign sigver_request
frame request sid = do
  parts ← lift (encode_parts request sid)
  s ← gets (λ m. m.signer)
  frame_with s request sid parts

-- `self._out_path.setdefault(pathid, []).extend(buffers)`
abbrev pub queue_on : ℕ → List Bytes → Machine → Machine
queue_on pathid buffers m = record m {
  out_path = put pathid (or_empty (lookup pathid m.out_path) ++ buffers) m.out_path;
}

-- `if data: queue.append(data)`
abbrev pub if_any : Bytes → List Bytes
if_any [] = []
if_any (b ∷ bs) = (b ∷ bs) ∷ []

-- where a framed request is queued: whole on its data path, or split between the control link and
-- the path
unfoldable pub dispatch_out : List Bytes → Bytes → ℕ → Bool → Machine → Machine
dispatch_out parts data' pathid arrive m =
    if arrive && not (pathid == 0)
    then queue_on pathid (parts ++ if_any data') m
    else (let m' = record m { out = m.out ++ parts } in
        if truthy data' then queue_on pathid (data' ∷ []) m' else m')

abbrev pub pending_for : Request → List Bytes → Bytes → Pending
pending_for request parts path = record {
  request = request;
  parts = parts;
  buffer = [];
  status = none;
  path = path;
  pathid = request.pathid;
  path_bytes = request.path_data;
  cap = request.reply_cap;
}

-- `_send`
unfoldable pub send : Request → ℕ → Bytes → Bool → Exec Machine (Unit {0})
unfolding frame dispatch_out
send request sid path arrive = do
  parts ← frame request sid
  modify (λ m. record m { pending = put sid (pending_for request parts path) m.pending })
  modify (dispatch_out parts request.path_data request.pathid arrive)

-- `submit`
unfoldable pub submit : Request → Bytes → Bool → Exec Machine ℕ
unfolding acquire_sid send
submit request path arrive = do
  s ← gets (λ m. m.state)
  refuse_if (not (is_ready s)) (protocol_error (bad_state (state_number s)))
  sid ← acquire_sid
  send request sid path arrive
  pure sid

abbrev pub resend : ℕ → Option Pending → Exec Machine (Unit {0})
resend sid none = raise (protocol_error (not_waiting sid))
resend sid (some p) = modify (λ m.
    let m' = record m { out = m.out ++ p.parts } in
    if truthy p.path_bytes then queue_on p.pathid (p.path_bytes ∷ []) m' else m')

-- `resume`
unfoldable pub resume : ℕ → Exec Machine (Unit {0})
resume sid m = resend sid (lookup sid m.pending) m

-- `close`: the farewell, if the session is up
abbrev pub farewell : Bool → Bytes → Exec Machine (Unit {0})
farewell false sessid = pure tt
farewell true sessid = do
  sid ← acquire_sid
  bs ← lift (encode (end_session_request sessid) sid)
  modify (queue bs)

unfoldable pub close : Bool → Exec Machine (Unit {0})
unfolding acquire_sid encode end_session_request
close graceful = do
  m ← gets (λ m. m)
  farewell (is_ready m.state && (graceful && truthy m.session_id)) m.session_id
  modify (λ m. emit disconnected (record m { state = State.closed }))

-- `frame_parts_for`
unfoldable pub frame_parts_for : Request → ℕ → Exec Machine (List Bytes)
unfolding frame
frame_parts_for request sid = do
  leased ← gets (λ m. m.leased)
  refuse_if (not (mem sid leased)) (protocol_error (not_leased sid))
  frame request sid

-- `_begin_login`
unfoldable pub begin_login : Exec Machine (Unit {0})
unfolding encode login_request bind_request
begin_login m =
    (if truthy m.bind_to
        then (do
          modify (λ m. record m { state = State.bind })
          bs ← lift (encode (bind_request m.bind_to) 2)
          modify (queue bs))
        else (do
          modify (λ m. record m { state = State.login })
          req ← lift (login_request m.config.username m.config.pid)
          bs ← lift (encode req 2)
          modify (queue bs)))
      m

-- `tls_established`
unfoldable pub tls_established : Exec Machine (Unit {0})
unfolding begin_login
tls_established = do
  s ← gets (λ m. m.state)
  refuse_if (not (is_tls s)) (protocol_error (bad_state (state_number s)))
  modify (λ m. record m { tls_active = true })
  begin_login

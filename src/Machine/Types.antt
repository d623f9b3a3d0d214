-- ===== src/Machine/Types.antt =====
-- proto/machine.py: states, events and what a session machine remembers.
use xrdclient.Prelude.{ℕ, Bool, true, false, List, [], ◌++◌, ◌∷◌, Option, none, ℤ, Dict, pos}
use xrdclient.Errors.{Bytes, Fault, Result}
use xrdclient.Wire.Frames.{Request}
use xrdclient.Wire.Responses.{ProtocolInfo, RedirectInfo, StatusInfo, AttnInfo}
use xrdclient.Signing.{Crypto, Signer}

-- `State`
pub data State : Type 0 where
  new handshake protocol tls login auth ready failed closed bind : State

abbrev pub is_new : State → Bool
is_new new = true
is_new _ = false

abbrev pub is_ready : State → Bool
is_ready ready = true
is_ready _ = false

abbrev pub is_tls : State → Bool
is_tls tls = true
is_tls _ = false

abbrev pub is_auth : State → Bool
is_auth auth = true
is_auth _ = false

-- `state in (State.CLOSED, State.FAILED)`
abbrev pub is_over : State → Bool
is_over closed = true
is_over failed = true
is_over _ = false

-- `_BRINGUP`
abbrev pub in_bringup : State → Bool
in_bringup handshake = true
in_bringup protocol = true
in_bringup login = true
in_bringup auth = true
in_bringup bind = true
in_bringup _ = false

-- The number of a state, as an `IntEnum` gives it.
abbrev pub state_number : State → ℕ
state_number new = 0
state_number handshake = 1
state_number protocol = 2
state_number tls = 3
state_number login = 4
state_number auth = 5
state_number ready = 6
state_number failed = 7
state_number closed = 8
state_number bind = 9

-- The events that `next_event` yields. `need_tls` says whether the server demanded it.
pub data Event : Type 0 where
  negotiated : ProtocolInfo → Event
  need_tls : Bool → Event
  ready_event : Bytes → Bytes → Event
  completed : ℕ → Request → Bytes → Option StatusInfo → Event
  chunk : ℕ → Request → Bytes → Event
  redirected : ℕ → Request → RedirectInfo → Event
  waiting : ℕ → Request → ℤ → Bytes → Bool → Event
  attention : AttnInfo → Event
  failed_event : Option ℕ → Option Request → Fault → Event
  path_lost : ℕ → Event
  disconnected : Event

-- `_Pending`
pub record Pending : Type 0 where
  pub request : Request
  pub parts : List Bytes
  pub buffer : Bytes
  pub status : Option StatusInfo
  pub path : Bytes
  pub pathid : ℕ
  pub path_bytes : Bytes
  pub cap : ℕ

-- `_Framer`; `dlen` is none for -1, while no header has been read.
pub record Framer : Type 0 where
  pub buffer : Bytes
  pub dlen : Option ℕ
  pub sid : ℕ
  pub status : ℕ
  pub need_trailer : ℤ
  pub trailer_for : Option ℕ

abbrev pub new_framer : Framer
new_framer = record {
  buffer = [];
  dlen = none;
  sid = 0;
  status = 0;
  need_trailer = pos 0;
  trailer_for = none;
}

-- A `Credential` of auth/base.py: what the mechanism does, as a function of the challenges that it
-- has been given so far, the newest last. An exception of the plug-in is an error here.
pub record Credential : Type 0 where
  pub name : Bytes
  pub session_key : List Bytes → Option Bytes
  pub initial : Result Bytes
  pub step : List Bytes → Result (Option Bytes)
  pub seen : List Bytes

-- What the generator `select` of auth/__init__.py does next: it notes why a mechanism is passed
-- over, takes back such a note, or yields a credential.
pub data Rung : Type 0 where
  pass_over : Bytes → Fault → Rung
  forgive : Bytes → Rung
  use_credential : Credential → Rung

-- What the machine is given: the fields of `Config` that it reads (in whole seconds), the process
-- id that a login names, the ladder of credentials for a security trailer, and the cipher.
pub record Config : Type 0 where
  pub username : Bytes
  pub pid : ℤ
  pub wait_cap : ℤ
  pub select : Bytes → Bool → List Rung
  pub crypto : Crypto

-- `SessionMachine`, less the host and port that its messages name.
pub record Machine : Type 0 where
  pub config : Config
  pub want_tls : Bool
  pub bind_to : Bytes
  pub pathid : ℕ
  pub state : State
  pub protocol_info : ProtocolInfo
  pub handshake_version : ℕ
  pub session_id : Bytes
  pub mechanism : Bytes
  pub signer : Option Signer
  pub tls_active : Bool
  pub out : List Bytes
  pub out_path : Dict (List Bytes)
  pub events : List Event
  pub pending : Dict Pending
  pub free : List ℕ
  pub retired : List ℕ
  pub leased : List ℕ
  pub next_sid : ℕ
  pub framers : Dict Framer
  pub credentials : Option (List Rung)
  pub credential : Option Credential
  pub auth_rejected : List (Bytes × Fault)
  pub offered : List Bytes
  pub auth_refusal : Option (ℤ × Bytes)

-- `_FIRST_SID`
abbrev pub first_sid : ℕ
first_sid = 4

abbrev pub no_protocol_info : ProtocolInfo
no_protocol_info = record {
  version = pos 0;
  flags = 0;
  security_level = 0;
  security_version = 0;
  security_options = 0;
  security_overrides = [];
}

-- `SessionMachine.__init__`
abbrev pub new_machine : Config → Bool → Machine
new_machine config want_tls = record {
  config = config;
  want_tls = want_tls;
  bind_to = [];
  pathid = 0;
  state = new;
  protocol_info = no_protocol_info;
  handshake_version = 0;
  session_id = [];
  mechanism = [];
  signer = none;
  tls_active = false;
  out = [];
  out_path = [];
  events = [];
  pending = [];
  free = [];
  retired = [];
  leased = [];
  next_sid = first_sid;
  framers = (0, new_framer) ∷ [];
  credentials = none;
  credential = none;
  auth_rejected = [];
  offered = [];
  auth_refusal = none;
}

-- `SessionMachine.data_path`
abbrev pub data_path : Config → Bytes → Bool → Machine
data_path config session_id want_tls = record (new_machine config want_tls) { bind_to = session_id }

-- `self._events.append(…)`
abbrev pub emit : Event → Machine → Machine
emit e m = record m { events = m.events ++ (e ∷ []) }

-- `self._out.append(…)`
abbrev pub queue : Bytes → Machine → Machine
queue bs m = record m { out = m.out ++ (bs ∷ []) }

-- ===== src/Tests.antt =====
-- Values that the tests run the definitions on.
pub mod Wire
pub mod Signatures
pub mod Streams
pub mod Reading
pub mod Files
pub mod Vectors
pub mod Pools
pub mod Rewrites
pub mod PagedWrites
pub mod Paths
pub mod Clones
use xrdclient.Prelude.{ℕ, List, [], ◌∷◌, ◌++◌, Option, none, some, ℤ, pos, replicate, true, false}
use xrdclient.Errors.{Bytes}
use xrdclient.Wire.Frames.{Request}
use xrdclient.Signing.{Crypto, Signer, new_signer}
use xrdclient.Machine.Types.{Machine, Config, State, Pending, data_path}

-- a kXR_write (3019) of five bytes, with a trailer
abbrev pub write_request : Request
write_request = record {
  opcode = 3019;
  signed = true;
  idempotent = true;
  pathid = 0;
  reply_on_path = false;
  header_params = replicate 16 1;
  payload = 9 ∷ 8 ∷ 7 ∷ 6 ∷ 5 ∷ [];
  path_data = [];
  reply_cap = 64;
  trailer = 3 ∷ [];
}

-- a cipher that leaves its text as it is
abbrev pub toy_crypto : Crypto
toy_crypto = record {
  sha256 = λ bs. bs;
  cbc_encrypt = λ key plain iv. plain;
  cbc_decrypt = λ key cipher iv. some cipher;
}

abbrev pub signer : Signer
signer = new_signer (1 ∷ 2 ∷ []) 2 [] true

abbrev pub config : Config
config = record {
  username = 97 ∷ [];
  pid = pos 1;
  wait_cap = pos 60;
  select = λ trailer secure. [];
  crypto = toy_crypto;
}

abbrev pub pending_write : Pending
pending_write = record {
  request = write_request;
  parts = [];
  buffer = [];
  status = none;
  path = [];
  pathid = 0;
  path_bytes = [];
  cap = 64;
}

abbrev pub new_link : Machine
new_link = data_path config [] false

-- a session that is up, with an answer pending for stream 4, a lease of 5, and 6 free
abbrev pub up : Machine
up = record new_link {
  state = State.ready;
  pending = (4, pending_write) ∷ [];
  leased = 5 ∷ [];
  free = 6 ∷ [];
  next_sid = 7;
}

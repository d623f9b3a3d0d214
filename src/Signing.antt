-- ===== src/Signing.antt =====
-- crypto/sigver.py: request signing. SHA-256, the session cipher and the random initial vector are
-- not the repository's; they are values of `Crypto`, with the one law that verifying relies on.
pub mod Verify
use xrdclient.Prelude.{
  ℕ, zero, suc, ◌+◌, ◌-◌, Bool, true, false, ◌&&◌, ◌||◌, List, [], ◌∷◌, ◌++◌, Option, none, some,
  ltb, leb, ◌==◌, not, if◌then◌else◌, ℤ, pos, negsuc, length, take, drop, replicate, truthy, Dict,
  lookup, mem,
}
use xrdclient.Errors.{Bytes, Result, ok, err, struct_error, ◌>>=◌}
use xrdclient.Exec.{Exec}
use xrdclient.Wire.Words.{pack_unsigned, of_be, signed}

-- `hashlib.sha256`, and `cbc_encrypt` and `cbc_decrypt` of xrdsec.aes (key, text, vector);
-- decryption may raise `ValueError`.
pub record Crypto : Type 0 where
  pub sha256 : Bytes → Bytes
  pub cbc_encrypt : Bytes → Bytes → Bytes → Bytes
  pub cbc_decrypt : Bytes → Bytes → Bytes → Option Bytes

-- `BLOCK_SIZE`
abbrev pub block_size : ℕ
block_size = 16

-- `SIGNED_OPCODES`
abbrev pub signed_opcodes : List ℕ
signed_opcodes =
    3002 ∷ 3020 ∷ 3008 ∷ 3009 ∷ 3010 ∷ 3026 ∷ 3021 ∷ 3014 ∷ 3015 ∷ 3018 ∷ 3028 ∷ 3019 ∷ 3031 ∷ 3012
    ∷ 3032 ∷ []

-- `opcode in LEVEL_OPCODES.get(level, SIGNED_OPCODES)`
abbrev pub in_level : ℕ → ℕ → Bool
in_level opcode level =
    if ltb level 2
    then false
    else if level == 3
    then mem opcode signed_opcodes || mem opcode (3003 ∷ 3004 ∷ 3027 ∷ 3017 ∷ [])
    else if level == 4
    then leb 3000 opcode && leb opcode 3032
    else mem opcode signed_opcodes

-- `_DATA_OPCODES`
abbrev pub is_data : ℕ → Bool
is_data opcode = (opcode == 3019) || (opcode == 3026)

unfoldable pub is_signed : ℕ → ℕ → Dict ℕ → Bool
is_signed opcode level overrides = elim (lookup opcode overrides) [
  | some v ↦ not (v == 0)
  | none ↦ if leb level 1 then false else in_level opcode level
]

module _ (crypto : Crypto) where
  unfoldable pub sigver_hash : ℕ → Bytes → Bytes → Bool → Result Bytes
  unfolding pack_unsigned
  sigver_hash seqno header payload nodata = do
    number ← pack_unsigned 8 (pos seqno)
    ok (crypto.sha256 ((number ++ header) ++ (if nodata then [] else payload)))

  -- `iv` is none for the zero vector, which is not sent
  unfoldable pub sigver_sign : Bytes → ℕ → Bytes → Bytes → Bool → Option Bytes → Result Bytes
  unfolding sigver_hash
  sigver_sign key seqno header payload nodata none = do
    hashed ← sigver_hash seqno header payload nodata
    ok (crypto.cbc_encrypt key hashed (replicate block_size 0))
  sigver_sign key seqno header payload nodata (some iv) = do
    hashed ← sigver_hash seqno header payload nodata
    ok (iv ++ crypto.cbc_encrypt key hashed iv)

-- `hmac.compare_digest`
unfoldable pub same : Bytes → Bytes → Bool
same [] [] = true
same (x ∷ xs) (y ∷ ys) = (x == y) && same xs ys
same _ _ = false

-- a text that does not decrypt is wrong before anything is hashed
abbrev pub decrypts_to : Option Bytes → Result Bytes → Result Bool
decrypts_to none hashed = ok false
decrypts_to (some plain) hashed = do expected ← hashed; ok (same plain expected)

module _ (crypto : Crypto) where
  unfoldable pub sigver_verify : Bytes → Bytes → ℕ → Bytes → Bytes → Bool → Bool → Result Bool
  unfolding sigver_hash
  sigver_verify key signature seqno header payload nodata embedded_iv =
      let hashed = sigver_hash crypto seqno header payload nodata in
      if embedded_iv
      then (if ltb (length signature) block_size
          then ok false
          else decrypts_to
              (crypto.cbc_decrypt key (drop block_size signature) (take block_size signature))
              hashed)
      else decrypts_to (crypto.cbc_decrypt key signature (replicate block_size 0)) hashed

-- `Signer`
pub record Signer : Type 0 where
  pub key : Bytes
  pub level : ℕ
  pub overrides : Dict ℕ
  pub secodata : Bool
  pub embedded_iv : Bool
  pub seqno : ℕ

-- `Signer.__init__`, not for a signed-DH peer
abbrev pub new_signer : Bytes → ℕ → Dict ℕ → Bool → Signer
new_signer key level overrides secodata = record {
  key = key;
  level = level;
  overrides = overrides;
  secodata = secodata;
  embedded_iv = false;
  seqno = 0;
}

-- `Signer.required`
unfoldable pub required : Signer → ℕ → Bool
unfolding is_signed
required s opcode = truthy s.key && is_signed opcode s.level s.overrides

-- What `Signer.sign` returns: the sequence number, the signature and `nodata`.
pub record Signature : Type 0 where
  pub number : ℕ
  pub signature : Bytes
  pub nodata : Bool

-- `frame[24 : 24 + dlen]`; a negative end counts from the end of the frame
abbrev pub slice_payload : Bytes → ℤ → Bytes
slice_payload frame (pos dlen) = take dlen (drop 24 frame)
slice_payload frame (negsuc m) =
    if ltb m 24 then [] else drop 24 (take (length frame - (m - 23)) frame)

-- the rest of `sign`, once the frame's length field has been read
abbrev signature_of : Crypto → Bytes → Signer → Bytes → ℕ → Result Signature
signature_of crypto entropy s frame opcode =
    let dlen = signed 4 (of_be (take 4 (drop 20 frame))) in
    let nodata = is_data opcode && not s.secodata in
    do
      signature ←
          sigver_sign crypto s.key s.seqno (take 24 frame) (slice_payload frame dlen) nodata
            (if s.embedded_iv then some entropy else none)
      ok (record { number = s.seqno; signature = signature; nodata = nodata })

-- `Signer.sign`. `entropy` is the block that `os.urandom` would return. The sequence number has
-- advanced when the length field of a short frame, or a number that does not fit, raises.
unfoldable pub sign : Crypto → Bytes → Bytes → Exec Signer (Option Signature)
unfolding required sigver_sign
sign crypto entropy frame s =
    let opcode = of_be (take 2 (drop 2 frame)) in
    let s' = record s { seqno = s.seqno + 1 } in
    if ltb (length frame) 4
    then (err struct_error, s)
    else if not (required s opcode)
    then (ok none, s)
    else if ltb (length frame) 24
    then (err struct_error, s')
    else ((do signature ← signature_of crypto entropy s' frame opcode; ok (some signature)), s')

-- ===== src/Signing/Verify.antt =====
-- What a signature is worth: the peer's check accepts it (crypto/sigver.py).
use xrdclient.Prelude.{
  ℕ, ◌+◌, ◌≤◌, ◌≡◌, refl, sym, ap, ◌∙◌, ◌^◌, arith, inl, inr, ltb, not, ◌&&◌, if◌then◌else◌,
  replicate, Bool-cases, Bool, true, false, [], ◌∷◌, ◌++◌, none, some, length, take, drop,
  take-append, length-append, take-append_eq, drop-append_eq, subst,
}
use xrdclient.Errors.{Bytes, Fault, Result, ok, err, ◌>>=◌, Result-cases}
use xrdclient.Wire.Words.{pack_unsigned, to_be, of_be, signed}
use xrdclient.Wire.Frames.{Request}
use xrdclient.Wire.Frames.RoundTrip.{IsSendable, frame_of, frame_of-Fields}
use xrdclient.Signing.{
  Crypto, Signer, Signature, sigver_hash, sigver_sign, sigver_verify, same, sign, block_size,
  is_data, required, signature_of, slice_payload,
}

-- The law of the session cipher: decrypting under the same key and vector undoes encrypting.
pub record IsCipher (crypto : Crypto) : Type 0 where
  pub undoes :
      (key plain iv : Bytes)
      → crypto.cbc_decrypt key (crypto.cbc_encrypt key plain iv) iv ≡ some plain

same_refl : (xs : Bytes) → same xs xs ≡ true
unfolding same
same_refl [] = refl
same_refl (x ∷ xs) = ground (arith, same_refl xs)

same_eq : (xs ys : Bytes) → same xs ys ≡ true → xs ≡ ys
unfolding same
same_eq [] [] h = refl
same_eq (x ∷ xs) (y ∷ ys) h = ground (arith, same_eq xs ys)
same_eq [] (y ∷ ys) h = cc
same_eq (x ∷ xs) [] h = cc

-- A signature that was made is accepted, and none is made only where the number is past 64 bits.
abbrev pub Accepts : Crypto → Bytes → ℕ → Bytes → Bytes → Bool → Bool → Result Bytes → Type 0
Accepts crypto key seqno header payload nodata embedded_iv (ok signature) =
    sigver_verify crypto key signature seqno header payload nodata embedded_iv ≡ ok true
Accepts crypto key seqno header payload nodata embedded_iv (err e) = 2 ^ 64 ≤ seqno

sigver_hash_refuses :
    (crypto : Crypto) (seqno : ℕ) (header payload : Bytes) (nodata : Bool) {e : Fault}
    → sigver_hash crypto seqno header payload nodata ≡ err e
    → 2 ^ 64 ≤ seqno
unfolding sigver_hash pack_unsigned
sigver_hash_refuses crypto seqno header payload nodata h = ground arith

-- A signature, with the vector in front of it or without, passes the peer's check of the same
-- material, given that the cipher decrypts what it encrypted and a vector is one block; signing
-- raises only for a sequence number of more than 64 bits.
pub sigver_verify-sigver_sign :
    (crypto : Crypto) (key : Bytes) (seqno : ℕ) (header payload iv : Bytes) (nodata : Bool)
    → IsCipher crypto
    → length iv ≡ block_size
    → Accepts crypto key seqno header payload nodata false
        (sigver_sign crypto key seqno header payload nodata none)
      × Accepts crypto key seqno header payload nodata true
          (sigver_sign crypto key seqno header payload nodata (some iv))
unfolding sigver_verify sigver_sign
sigver_verify-sigver_sign crypto key seqno header payload iv nodata law block =
    elim (Result-cases (sigver_hash crypto seqno header payload nodata)) [
      | inl (hashed, e) ↦
          let cipher = crypto.cbc_encrypt key hashed iv in
          rw e (
            rw (e, law.undoes, same_refl hashed) refl,
            rw e (
                ground (
                  arith,
                  law.undoes key hashed iv,
                  same_refl hashed,
                  take-append_eq 16 iv cipher block,
                  drop-append_eq 16 iv cipher block,
                  length-append iv cipher,
                )),
          )
      | inr (fault, e) ↦
          let past = sigver_hash_refuses crypto seqno header payload nodata e in rw e (past, past)
    ]

slice_payload-frame_of :
    (req : Request) (sid : ℕ)
    → IsSendable req
    → req.path_data ≡ []
    → slice_payload (frame_of req sid) (signed 4 (of_be (take 4 (drop 20 (frame_of req sid)))))
      ≡ req.payload
unfolding signed
slice_payload-frame_of req sid v none' =
    let fields = frame_of-Fields req sid v in
    rw fields.3 (
      ground (
        arith,
        ap (λ (b : Bytes). length b) none',
        v.fits,
        fields.4,
        take-append req.payload req.trailer,
      ))

sigver_hash-ok :
    (crypto : Crypto) (seqno : ℕ) (header payload : Bytes) (nodata : Bool) {hashed : Bytes}
    → sigver_hash crypto seqno header payload nodata ≡ ok hashed
    → hashed ≡ crypto.sha256 ((to_be 8 seqno ++ header) ++ (if nodata then [] else payload))
unfolding sigver_hash pack_unsigned
sigver_hash-ok crypto seqno header payload nodata h = elim (Bool-cases (ltb seqno (256 ^ 8))) [
  | inl e ↦ ground (arith, h, e)
  | inr e ↦ absurd (ground (arith, h, e))
]

-- A signature that a peer accepts for a header and a payload, and that is the hash of its number, the
-- header and the payload, encrypted.
abbrev pub Signs : Crypto → Bytes → Signature → Bytes → Bytes → Type 0
Signs crypto key g header payload =
    (sigver_verify crypto key g.signature g.number header payload g.nodata false ≡ ok true)
    × (crypto.cbc_decrypt key g.signature (replicate block_size 0)
        ≡ some (crypto.sha256 ((to_be 8 g.number ++ header) ++ (if g.nodata then [] else payload))))

module _ (crypto : Crypto) (entropy : Bytes) (s : Signer) (frame : Bytes) (g : Signature) where
  signature_of-verifies :
      (opcode : ℕ)
      → IsCipher crypto
      → s.embedded_iv ≡ false
      → signature_of crypto entropy s frame opcode ≡ ok g
      → let payload = slice_payload frame (signed 4 (of_be (take 4 (drop 20 frame)))) in
        Signs crypto s.key g (take 24 frame) payload
  unfolding sigver_verify sigver_sign
  signature_of-verifies opcode law plain made =
      verified (sigver_hash crypto s.seqno header payload nodata) refl (
        sym (
          ap
            (λ (embedded : Bool).
              sigver_sign crypto s.key s.seqno header payload nodata
                (if embedded then some entropy else none)
              >>= finish)
            plain)
        ∙ made)
    where
      header : Bytes
      header = take 24 frame

      payload : Bytes
      payload = slice_payload frame (signed 4 (of_be (take 4 (drop 20 frame))))

      nodata : Bool
      nodata = is_data opcode && not s.secodata

      finish : Bytes → Result Signature
      finish signature = ok (record { number = s.seqno; signature = signature; nodata = nodata })

      encrypted : Bytes → Bytes
      encrypted hashed = crypto.cbc_encrypt s.key hashed (replicate block_size 0)

      verified :
          (r : Result Bytes)
          → sigver_hash crypto s.seqno header payload nodata ≡ r
          → ((r >>= λ hashed. ok (encrypted hashed)) >>= finish) ≡ ok g
          → Signs crypto s.key g header payload
      verified (ok hashed) h it =
          let made_of : Signature = record {
            number = s.seqno;
            signature = encrypted hashed;
            nodata = nodata;
          } in
          let same_g : made_of ≡ g = cc in
          subst (λ (x : Signature). Signs crypto s.key x header payload) same_g
            (
              rw (law.undoes, h, same_refl hashed) refl,
              law.undoes s.key hashed (replicate block_size 0)
                  ∙ ap some (sigver_hash-ok crypto s.seqno header payload nodata h),
            )
      verified (err e) h it = absurd cc

  sign-signature_of :
      (sign crypto entropy frame s).0 ≡ ok (some g)
      → signature_of crypto entropy
          (record s { seqno = s.seqno + 1 })
          frame
          (of_be (take 2 (drop 2 frame)))
        ≡ ok g
  unfolding sign
  sign-signature_of h =
      let opcode = of_be (take 2 (drop 2 frame)) in
      elim (Bool-cases (ltb (length frame) 4)) [
        | inl short ↦ absurd (ground (arith, h, short))
        | inr long ↦ elim (Bool-cases (not (required s opcode))) [
          | inl free ↦ absurd (ground (arith, h, long, free))
          | inr need ↦ elim (Bool-cases (ltb (length frame) 24)) [
            | inl cut ↦ absurd (ground (arith, h, long, need, cut))
            | inr whole ↦ wrapped _ (ground (arith, h, long, need, whole))
          ]
        ]
      ]
    where
      wrapped :
          (r : Result Signature) → (r >>= λ signature. ok (some signature)) ≡ ok (some g) → r ≡ ok g
      wrapped (ok made) it = cc
      wrapped (err e) it = absurd cc

-- A sendable request that is signed, none of whose payload travels on another path, by a signer
-- that embeds no vector, given that the cipher decrypts what it encrypted: the peer that checks the
-- signature against the header of its frame and its payload accepts it, and what it decrypts is the
-- hash of the number, this header and this payload, or no payload with `nodata`. A trailer behind the
-- payload is not signed.
pub sign-verifies :
    (crypto : Crypto) (entropy : Bytes) (s : Signer) (req : Request) (sid : ℕ) (g : Signature)
    → IsCipher crypto
    → s.embedded_iv ≡ false
    → IsSendable req
    → req.path_data ≡ []
    → (sign crypto entropy (frame_of req sid) s).0 ≡ ok (some g)
    → (sigver_verify crypto s.key g.signature g.number
          (take 24 (frame_of req sid))
          req.payload
          g.nodata
          false
        ≡ ok true)
      × (crypto.cbc_decrypt s.key g.signature (replicate block_size 0)
          ≡ some (
              crypto.sha256 (
                (to_be 8 g.number ++ take 24 (frame_of req sid))
                ++ (if g.nodata then [] else req.payload))))
unfolding sign
sign-verifies crypto entropy s req sid g law plain v no_path h =
    let frame = frame_of req sid in
    let s' = record s { seqno = s.seqno + 1 } in
    let opcode = of_be (take 2 (drop 2 frame)) in
    subst (λ (payload : Bytes). Signs crypto s.key g (take 24 frame) payload)
      (slice_payload-frame_of req sid v no_path)
      (signature_of-verifies crypto entropy s' frame g opcode law plain
        (sign-signature_of crypto entropy s frame g h))

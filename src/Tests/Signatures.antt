-- ===== src/Tests/Signatures.antt =====
-- crypto/sigver.py at concrete inputs.
use xrdclient.Prelude.{◌≡◌, refl, arith, true, false, [], ◌∷◌, ◌++◌, none, some, take, replicate}
use xrdclient.Errors.{Bytes, ok}
use xrdclient.Wire.Words.{of_be, to_be, pack_unsigned}
use xrdclient.Wire.Frames.RoundTrip.{IsSendable, frame_of}
use xrdclient.Signing.{Signature, sigver_hash, sigver_sign, sigver_verify, sign, is_signed}
use xrdclient.Signing.Verify.{IsCipher, Accepts, sigver_verify-sigver_sign, sign-verifies}
use xrdclient.Tests.{write_request, toy_crypto, signer}

toy_crypto-IsCipher : IsCipher toy_crypto
toy_crypto-IsCipher = record { undoes = λ key plain iv. refl }

write_request-IsSendable : IsSendable write_request
write_request-IsSendable = record {
  params_16 = refl;
  opcode_fits = omega arith;
  fits = omega arith;
}

sigver_verify-sigver_sign_example :
    Accepts toy_crypto [] 7
      (1 ∷ [])
      (2 ∷ [])
      false
      false
      (sigver_sign toy_crypto [] 7 (1 ∷ []) (2 ∷ []) false none)
    × Accepts toy_crypto [] 7
        (1 ∷ [])
        (2 ∷ [])
        false
        true
        (sigver_sign toy_crypto [] 7 (1 ∷ []) (2 ∷ []) false (some (replicate 16 3)))
sigver_verify-sigver_sign_example =
    sigver_verify-sigver_sign toy_crypto [] 7 (1 ∷ []) (2 ∷ []) (replicate 16 3) false
      toy_crypto-IsCipher refl

abbrev frame : Bytes
frame = frame_of write_request 4

abbrev signature : Signature
signature = record {
  number = 1;
  signature =
      toy_crypto.cbc_encrypt (1 ∷ 2 ∷ [])
        (toy_crypto.sha256 ((to_be 8 1 ++ take 24 frame) ++ (9 ∷ 8 ∷ 7 ∷ 6 ∷ 5 ∷ [])))
        (replicate 16 0);
  nodata = false;
}

signed : (sign toy_crypto [] frame signer).0 ≡ ok (some signature)
unfolding sign sigver_sign sigver_hash pack_unsigned is_signed to_be of_be
    xrdclient.Wire.Words.signed
signed = refl

sign-verifies_example :
    (sigver_verify toy_crypto
        (1 ∷ 2 ∷ [])
        signature.signature
        1
        (take 24 frame)
        (9 ∷ 8 ∷ 7 ∷ 6 ∷ 5 ∷ [])
        false
        false
      ≡ ok true)
    × (toy_crypto.cbc_decrypt (1 ∷ 2 ∷ []) signature.signature (replicate 16 0)
        ≡ some (toy_crypto.sha256 ((to_be 8 1 ++ take 24 frame) ++ (9 ∷ 8 ∷ 7 ∷ 6 ∷ 5 ∷ []))))
sign-verifies_example =
    sign-verifies toy_crypto [] signer write_request 4 signature toy_crypto-IsCipher refl
      write_request-IsSendable refl signed

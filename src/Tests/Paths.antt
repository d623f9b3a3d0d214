-- ===== src/Tests/Paths.antt =====
-- Requests about paths (proto/_requests_ns.py, proto/_requests_query.py) at concrete inputs.
use xrdclient.Prelude.{◌≤◌, ◌<◌, ◌^◌, ◌≡◌, refl, true, false, [], ◌∷◌, ◌++◌, length, replicate}
use xrdclient.Errors.{Bytes, ok, err, struct_error}
use xrdclient.Wire.Buffer.{write_unsigned}
use xrdclient.Wire.Words.{pack_unsigned, to_be}
use xrdclient.Wire.Frames.{Request}
use xrdclient.Wire.Requests.{plain}
use xrdclient.Wire.Requests.Namespace.{two_paths, changing, statx_request, prepare_request}
use xrdclient.Wire.Requests.Namespace.Splits.{Splits, two_paths-Splits, lines-split}
use xrdclient.Session.Text.{split}

-- "/a b", and where it goes
abbrev src : Bytes
src = 47 ∷ 97 ∷ 32 ∷ 98 ∷ []

abbrev dst : Bytes
dst = 47 ∷ 99 ∷ []

two_paths-Splits_example :
    (length src < 2 ^ 16
      → (req : Request) × (two_paths 3009 src dst ≡ ok req)
        × Splits src dst req
        × (req.signed ≡ true)
        × (req.idempotent ≡ false))
    × (2 ^ 16 ≤ length src → two_paths 3009 src dst ≡ err struct_error)
two_paths-Splits_example = two_paths-Splits 3009 src dst

abbrev staged : Request
staged = changing (record (plain 3021 (8 ∷ 1 ∷ replicate 14 0)) { payload = src ++ (10 ∷ dst) })

staged_lem : prepare_request (src ∷ dst ∷ []) 8 1 0 0 ≡ ok staged
unfolding prepare_request write_unsigned pack_unsigned to_be
staged_lem = refl

lines-split_example :
    (split 10 (statx_request (src ∷ dst ∷ [])).payload ≡ src ∷ dst ∷ [])
    × (split 10 staged.payload ≡ src ∷ dst ∷ [])
lines-split_example = lines-split src (dst ∷ []) 8 1 0 0 staged (refl, (refl, tt)) staged_lem

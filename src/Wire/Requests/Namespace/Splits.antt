-- ===== src/Wire/Requests/Namespace/Splits.antt =====
-- How a server takes the bodies of the namespace requests apart (proto/_requests_ns.py).
use xrdclient.Prelude.{
  ℕ, ◌^◌, ◌≤◌, ◌<◌, ◌≡◌, refl, sym, subst, arith, true, false, List, [], ◌∷◌, ◌++◌, ltb,
  if◌then◌else◌, length, take, drop, take-append, drop-append, All, ◌∙◌,
}
use xrdclient.Errors.{Bytes, ok, err, struct_error}
use xrdclient.Wire.Words.{to_be, of_be, of_be-to_be, pack_unsigned}
use xrdclient.Wire.Buffer.{write_unsigned, zeros}
use xrdclient.Wire.Frames.{Request}
use xrdclient.Wire.Requests.{plain}
use xrdclient.Wire.Requests.Namespace.{two_paths, changing, lines, statx_request, prepare_request}
use xrdclient.Session.Text.{split}
use xrdclient.Session.Text.Laws.{Lacks, split-join}

-- A request with two paths that a server can take apart: by the length in its last two parameter bytes.
abbrev pub Splits : Bytes → Bytes → Request → Type 0
Splits src dst req =
    let n = of_be (drop 14 req.header_params) in
    (n ≡ length src) × (take n req.payload ≡ src) × (drop n req.payload ≡ 32 ∷ dst)

made : ℕ → Bytes → Bytes → Request
made opcode src dst =
    changing
      (record (plain opcode (zeros [] 14 ++ to_be 2 (length src))) { payload = src ++ (32 ∷ dst) })

two_paths_fits :
    (opcode : ℕ) (src dst : Bytes)
    → two_paths opcode src dst
      ≡ (if ltb (length src) (256 ^ 2) then ok (made opcode src dst) else err struct_error)
unfolding two_paths write_unsigned pack_unsigned made
two_paths_fits opcode src dst = ground arith

made-Splits :
    (opcode : ℕ) (src dst : Bytes) → length src < 256 ^ 2 → Splits src dst (made opcode src dst)
unfolding made
made-Splits opcode src dst short =
    let n : of_be (to_be 2 (length src)) ≡ length src = of_be-to_be 2 (length src) short in
    rw n (refl, take-append src (32 ∷ dst), drop-append src (32 ∷ dst))

-- A rename, a symbolic or a hard link is refused exactly if its first path is longer than its length's
-- field can say. If not, a server that reads this length splits the body into the two paths, also where
-- they have spaces; and the request is signed, and is not sent again after a lost link.
pub two_paths-Splits :
    (opcode : ℕ) (src dst : Bytes)
    → (length src < 2 ^ 16
        → (req : Request) × (two_paths opcode src dst ≡ ok req)
          × Splits src dst req
          × (req.signed ≡ true)
          × (req.idempotent ≡ false))
      × (2 ^ 16 ≤ length src → two_paths opcode src dst ≡ err struct_error)
unfolding made
two_paths-Splits opcode src dst = (
  λ (short : length src < 2 ^ 16).
      let e : ltb (length src) (256 ^ 2) ≡ true = ground (arith, short) in
      (
        made opcode src dst,
        two_paths_fits opcode src dst ∙ rw e refl,
        made-Splits opcode src dst short,
        refl,
        refl,
      ),
  λ (long : 2 ^ 16 ≤ length src).
      let e : ltb (length src) (256 ^ 2) ≡ false = ground (arith, long) in
      two_paths_fits opcode src dst ∙ rw e refl,
)

-- The paths of a statx or a prepare, none with a line break, are the lines of its body.
pub lines-split :
    (path : Bytes) (paths : List Bytes) (options priority port extended : ℕ) (req : Request)
    → All (Lacks 10) (path ∷ paths)
    → prepare_request (path ∷ paths) options priority port extended ≡ ok req
    → (split 10 (statx_request (path ∷ paths)).payload ≡ path ∷ paths)
      × (split 10 req.payload ≡ path ∷ paths)
unfolding prepare_request write_unsigned pack_unsigned
lines-split path paths options priority port extended req plain_paths e =
    let joined = split-join 10 path paths plain_paths in
    (joined, subst (λ (body : Bytes). split 10 body ≡ path ∷ paths) (sym (payload_of e)) joined)
  where
    payload_of :
        prepare_request (path ∷ paths) options priority port extended ≡ ok req
        → req.payload ≡ lines (path ∷ paths)
    payload_of e = ground (arith, e)

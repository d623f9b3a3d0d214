-- ===== src/Wire/Requests/Namespace/Headers.antt =====
-- The headers of the requests about paths (proto/_requests_ns.py, proto/_requests_query.py).
use xrdclient.Prelude.{
  Option, ℕ, ◌<◌, ◌^◌, refl, arith, Bool, List, [], ◌∷◌, ◌++◌, if◌then◌else◌, ℤ, pos, length,
}
use xrdclient.Errors.{Bytes, Result, ok, ◌>>=◌}
use xrdclient.Wire.Buffer.{write_signed, zeros, padded}
use xrdclient.Wire.Frames.{Request}
use xrdclient.Wire.Requests.Fields.{
  Framed, length-padded, length-zeros, then_unsigned, then_signed, then_body,
}
use xrdclient.Wire.Requests.Namespace.{
  about, changing, stat_request, statx_request, dirlist_options, dirlist_request, locate_request,
  mkdir_request, rm_request, rmdir_request, two_paths, mv_request, symlink_request, link_request,
  readlink_request, setattr_request, chmod_request, truncate_request, query_request,
  prepare_request,
}

-- One call of an encoder.
pub data Named : Type 0 where
  for_stat : Bytes → ℕ → Bytes → Named
  for_statx : List Bytes → Named
  for_dirlist : Bytes → Option ℕ → Named
  for_locate for_chmod : Bytes → ℕ → Named
  for_mkdir : Bytes → ℕ → Bool → Named
  for_rm for_rmdir for_readlink : Bytes → Named
  for_mv for_symlink for_link : Bytes → Bytes → Named
  for_setattr : Bytes → ℕ → ℤ × ℤ → ℤ × ℤ → ℤ × ℤ → Named
  for_truncate : Bytes → ℕ → Bytes → Named
  for_query : ℕ → Bytes → Bytes → Named
  for_prepare : List Bytes → ℕ → ℕ → ℕ → ℕ → Named

-- What it returns.
abbrev pub named : Named → Result Request
named (for_stat path options fhandle) = stat_request path options fhandle
named (for_statx paths) = ok (statx_request paths)
named (for_dirlist path options) = dirlist_request path options
named (for_locate path options) = locate_request path options
named (for_chmod path mode) = chmod_request path mode
named (for_mkdir path mode mkpath) = mkdir_request path mode mkpath
named (for_rm path) = ok (rm_request path)
named (for_rmdir path) = ok (rmdir_request path)
named (for_readlink path) = ok (readlink_request path)
named (for_mv src dst) = mv_request src dst
named (for_symlink src dst) = symlink_request src dst
named (for_link src dst) = link_request src dst
named (for_setattr path flags accessed modified owner) =
    setattr_request path flags accessed modified owner
named (for_truncate path size fhandle) = truncate_request path size fhandle
named (for_query infotype args fhandle) = query_request infotype args fhandle
named (for_prepare paths options priority port extended) =
    prepare_request paths options priority port extended

two_paths-Framed :
    (opcode : ℕ) (src dst : Bytes) → opcode < 2 ^ 16 → Framed (two_paths opcode src dst)
unfolding two_paths
two_paths-Framed opcode src dst fits =
    then_unsigned 2 (zeros [] 14) (pos (length src)) _ (λ w e. (omega (arith, e), fits))

-- Fields that are written one after the other, and what is done with them.
write_fields : (Bytes → Result Request) → List (ℕ × ℤ) → Bytes → Result Request
write_fields done [] w = done w
write_fields done ((width, v) ∷ fields) w = write_signed width w v >>= write_fields done fields

fields-Framed :
    (done : Bytes → Result Request)
    → ((w : Bytes) → Framed (done w))
    → (fields : List (ℕ × ℤ)) (w : Bytes) → Framed (write_fields done fields w)
unfolding write_fields
fields-Framed done framed [] w = framed w
fields-Framed done framed ((width, v) ∷ fields) w =
    then_body (write_signed width w v) (write_fields done fields) (fields-Framed done framed fields)

pub named-Framed : (a : Named) → Framed (named a)
unfolding write_fields stat_request dirlist_request locate_request mkdir_request setattr_request
    chmod_request truncate_request query_request prepare_request
named-Framed (for_stat path options fhandle) = then_unsigned 1 [] (pos options) _ (λ w e.
    (omega (arith, length-padded (zeros w 11) fhandle 4, length-zeros w 11, e), omega arith))
named-Framed (for_statx paths) = (refl, omega arith)
named-Framed (for_dirlist path options) =
    then_unsigned 1 (zeros [] 15) (pos (dirlist_options options)) _
      (λ w e. (omega (arith, e), omega arith))
named-Framed (for_locate path options) =
    then_unsigned 2 [] (pos options) _ (λ w e. (omega (arith, length-zeros w 14, e), omega arith))
named-Framed (for_chmod path mode) =
    then_unsigned 2 (zeros [] 14) (pos mode) _ (λ w e. (omega (arith, e), omega arith))
named-Framed (for_mkdir path mode mkpath) =
    then_unsigned 1 [] (pos (if mkpath then 1 else 0)) _ (λ w e.
      then_unsigned 2 (zeros w 13) (pos mode) _
        (λ w' e'. (omega (arith, length-zeros w 13, e, e'), omega arith)))
named-Framed (for_rm path) = (refl, omega arith)
named-Framed (for_rmdir path) = (refl, omega arith)
named-Framed (for_readlink path) = (refl, omega arith)
named-Framed (for_mv src dst) = two_paths-Framed 3009 src dst (omega arith)
named-Framed (for_symlink src dst) = two_paths-Framed 3501 src dst (omega arith)
named-Framed (for_link src dst) = two_paths-Framed 3503 src dst (omega arith)
named-Framed (for_setattr path flags (a, a') (m, m') (u, g)) =
    let done : Bytes → Result Request = λ w. ok (changing (about 3500 ((w ++ path) ++ (0 ∷ [])))) in
    let fields : List (ℕ × ℤ) = (8, a) ∷ (8, a') ∷ (8, m) ∷ (8, m') ∷ (4, u) ∷ (4, g) ∷ [] in
    then_body (write_signed 4 [] (pos flags)) _
      (λ w. fields-Framed done (λ t. (refl, omega arith)) fields w)
named-Framed (for_truncate path size fhandle) =
    then_signed 8 (padded [] fhandle 4) (pos size) _
      (λ w e. (omega (arith, length-zeros w 4, length-padded [] fhandle 4, e), omega arith))
named-Framed (for_query infotype args fhandle) = then_unsigned 2 [] (pos infotype) _ (λ w e. (
  omega (
    arith,
    length-zeros (padded (zeros w 2) fhandle 4) 8,
    length-padded (zeros w 2) fhandle 4,
    length-zeros w 2,
    e,
  ),
  omega arith,
))
named-Framed (for_prepare paths options priority port extended) =
    then_unsigned 1 [] (pos options) _ (λ w e. then_unsigned 1 w (pos priority) _ (λ w1 e1.
      then_unsigned 2 w1 (pos port) _ (λ w2 e2.
        then_unsigned 2 w2 (pos extended) _
          (λ w3 e3. (omega (arith, length-zeros w3 10, e, e1, e2, e3), omega arith)))))

-- ===== src/Wire/Requests/Headers.antt =====
-- What every encoder of proto/_requests_*.py promises of a header.
use xrdclient.Prelude.{
  ℕ, ◌+◌, ◌*◌, ◌≤◌, ◌≡◌, refl, arith, Bool, true, false, List, [], ◌∷◌, if◌then◌else◌, ℤ, pos,
  length, subst,
}
use xrdclient.Errors.{Bytes, Result, ok, ◌>>=◌}
use xrdclient.Wire.Buffer.{write_unsigned, zeros, padded}
use xrdclient.Wire.Frames.{Request, max_frame_payload}
use xrdclient.Wire.Frames.RoundTrip.{IsSendable}
use xrdclient.Wire.Requests.{
  plain, protocol_request, login_request, auth_request, ping_request, end_session_request,
  bind_request, set_request, sigver_request,
}
use xrdclient.Wire.Requests.File.{
  open_request, close_request, sync_request, read_request, write_request, ReadChunk, readv_request,
  readahead_list, wanted, paged_cap, write_list, written, clone_list, WriteChunk, writev_request,
  CloneItem, clone_request, pgread_request, pgwrite_request, chkpoint_request, retry_flag,
  handle_only,
}
use xrdclient.Wire.Requests.Attributes.{fattr_request}
use xrdclient.Wire.Requests.Fields.{
  Framed, length-padded, length-zeros, then-Framed, then_unsigned, then_signed, then_body,
  range_params-length, handle_only-length,
}
use xrdclient.Wire.Requests.Namespace.Headers.{Named, named, named-Framed}

-- One call of an encoder.
pub data Asked : Type 0 where
  for_protocol : ℕ → Asked
  for_login : Bytes → ℤ → Asked
  for_auth : Bytes → Bytes → Asked
  for_ping : Asked
  for_end for_bind for_set for_close for_sync : Bytes → Asked
  for_sigver : ℕ → ℕ → Bytes → Bool → Asked
  for_open : Bytes → ℕ → ℕ → ℕ → Bytes → Asked
  for_read : Bytes → ℕ → ℕ → ℕ → Asked
  for_write : Bytes → ℕ → Bytes → ℕ → Asked
  for_readv : List ReadChunk → ℕ → Asked
  for_writev : List WriteChunk → Bool → Asked
  for_clone : Bytes → List CloneItem → Asked
  for_pgread : Bytes → ℕ → ℕ → Bool → ℕ → Asked
  for_pgwrite : Bytes → ℕ → Bytes → Bool → ℕ → Asked
  for_chkpoint : Bytes → ℕ → Bytes → Bytes → Asked
  for_fattr : ℕ → Bytes → ℕ → ℕ → Bytes → Asked
  for_named : Named → Asked

-- What it returns.
abbrev pub encoded : Asked → Result Request
encoded (for_protocol flags) = protocol_request flags
encoded (for_login username pid) = login_request username pid
encoded (for_auth credtype cred) = auth_request credtype cred
encoded for_ping = ok ping_request
encoded (for_end sessid) = ok (end_session_request sessid)
encoded (for_bind sessid) = ok (bind_request sessid)
encoded (for_set directive) = ok (set_request directive)
encoded (for_close fhandle) = ok (close_request fhandle)
encoded (for_sync fhandle) = ok (sync_request fhandle)
encoded (for_sigver rid seqno signature nodata) = sigver_request rid seqno signature nodata
encoded (for_open path options mode optiont fh) = open_request path options mode optiont fh
encoded (for_read fh offset n pathid) = read_request fh offset n pathid
encoded (for_write fh offset bytes pathid) = write_request fh offset bytes pathid
encoded (for_readv chunks pathid) = readv_request chunks pathid
encoded (for_writev chunks sync) = writev_request chunks sync
encoded (for_clone fh items) = clone_request fh items
encoded (for_pgread fh offset n retry pathid) = pgread_request fh offset n retry pathid
encoded (for_pgwrite fh offset bytes retry pathid) = pgwrite_request fh offset bytes retry pathid
encoded (for_chkpoint fh subcode bytes tail) = chkpoint_request fh subcode bytes tail
encoded (for_fattr subcode body numattr options fh) = fattr_request subcode body numattr options fh
encoded (for_named a) = named a

encoded-Framed : (a : Asked) → Framed (encoded a)
unfolding protocol_request login_request auth_request ping_request end_session_request bind_request
    set_request sigver_request close_request sync_request open_request read_request write_request
    readv_request writev_request clone_request pgread_request pgwrite_request chkpoint_request
    fattr_request
encoded-Framed (for_protocol flags) = then_unsigned 1 (0 ∷ 0 ∷ 5 ∷ 32 ∷ []) (pos flags) _ (λ w e.
    then_unsigned 1 w (pos 3) (λ t. ok (plain 3006 (zeros t 10)))
      (λ (w' : Bytes) (e' : length w' ≡ length w + 1).
        (omega (arith, length-zeros w' 10), omega arith)))
encoded-Framed (for_login username pid) = then_signed 4 [] pid _ (λ (w : Bytes) (e : length w ≡ 4).
    let field = zeros (padded w username 8) 2 in
    then_unsigned 1 field (pos 0x85) (λ t. do u ← write_unsigned 1 t (pos 0); ok (plain 3007 u))
      (λ (w' : Bytes) (e' : length w' ≡ length field + 1).
        then_unsigned 1 w' (pos 0) (λ t. ok (plain 3007 t))
          (λ (w'' : Bytes) (e'' : length w'' ≡ length w' + 1). (
            omega (arith, length-zeros (padded w username 8) 2, length-padded w username 8),
            omega arith,
          ))))
encoded-Framed (for_auth credtype cred) =
    ground (arith, length-padded (zeros [] 12) credtype 4, length-zeros [] 12)
encoded-Framed for_ping = (refl, omega arith)
encoded-Framed (for_end sessid) = (length-padded [] sessid 16, omega arith)
encoded-Framed (for_bind sessid) = (length-padded [] sessid 16, omega arith)
encoded-Framed (for_set directive) = (refl, omega arith)
encoded-Framed (for_close fhandle) = (handle_only-length fhandle, omega arith)
encoded-Framed (for_sync fhandle) = (handle_only-length fhandle, omega arith)
encoded-Framed (for_sigver rid seqno signature nodata) =
    let done : Bytes → Result Request =
      λ t. ok (record (plain 3029 (zeros t 3)) { payload = signature }) in
    let last : Bytes → Result Request = λ t. (write_unsigned 1 t (pos 1) >>= done) in
    let number : Bytes → Result Request = λ t. (write_unsigned 8 t (pos seqno) >>= last) in
    let flag : Bytes → Result Request =
      λ t. (write_unsigned 1 t (pos (if nodata then 1 else 0)) >>= number) in
    then_unsigned 2 [] (pos rid) _ (λ (w : Bytes) (e : length w ≡ 2).
      then_unsigned 1 w (pos 0) flag (λ (w1 : Bytes) (e1 : length w1 ≡ length w + 1).
        then_unsigned 1 w1 (pos (if nodata then 1 else 0)) number
          (λ (w2 : Bytes) (e2 : length w2 ≡ length w1 + 1).
            then_unsigned 8 w2 (pos seqno) last (λ (w3 : Bytes) (e3 : length w3 ≡ length w2 + 8).
              then_unsigned 1 w3 (pos 1) done (λ (w4 : Bytes) (e4 : length w4 ≡ length w3 + 1).
                (omega (arith, length-zeros w4 3), omega arith))))))
encoded-Framed (for_open path options mode optiont fh) = then_unsigned 2 [] (pos mode) _ (λ w e.
    then_unsigned 2 w (pos options) _ (λ w' e'. then_unsigned 2 w' (pos optiont) _ (λ w'' e''.
      (omega (arith, length-padded (zeros w'' 6) fh 4, length-zeros w'' 6), omega arith))))
encoded-Framed (for_read fh offset n pathid) =
    then-Framed _ _ (range_params-length fh offset n) (λ w e.
      then_body _
        (λ args. ok (record (plain 3013 w) {
          pathid = pathid;
          reply_on_path = true;
          payload = args;
          reply_cap = n;
        }))
        (λ args. (e, omega arith)))
encoded-Framed (for_write fh offset bytes pathid) =
    then_signed 8 (padded [] fh 4) (pos offset) _ (λ w e.
      then_unsigned 1 w (pos pathid) _
        (λ w' e'. (omega (arith, length-zeros w' 3, length-padded [] fh 4), omega arith)))
encoded-Framed (for_readv chunks pathid) = then_unsigned 1 (zeros [] 15) (pos pathid) _ (λ w e.
    then_body (readahead_list [] chunks)
      (λ body. ok (record (plain 3025 w) {
        pathid = pathid;
        reply_on_path = true;
        payload = body;
        reply_cap = 16 * length chunks + wanted chunks;
      }))
      (λ body. (e, omega arith)))
encoded-Framed (for_writev chunks sync) =
    then_unsigned 1 [] (pos (if sync then 1 else 0)) _ (λ (w : Bytes) (e : length w ≡ 1).
      then_body (write_list [] chunks)
        (λ body. ok (record (plain 3031 (zeros w 15)) {
          signed = true;
          idempotent = false;
          payload = body;
          trailer = written chunks;
        }))
        (λ body. (omega (arith, length-zeros w 15), omega arith)))
encoded-Framed (for_clone fh items) =
    then_body (clone_list [] items)
      (λ body. ok (record (plain 3032 (handle_only fh)) {
        signed = true;
        idempotent = false;
        payload = body;
      }))
      (λ body. (handle_only-length fh, omega arith))
encoded-Framed (for_pgread fh offset n retry pathid) =
    then-Framed _ _ (range_params-length fh offset n) (λ w e.
      then_body _
        (λ args. ok (record (plain 3030 w) {
          pathid = pathid;
          reply_on_path = true;
          payload = args;
          reply_cap = paged_cap offset n;
        }))
        (λ args. (e, omega arith)))
encoded-Framed (for_pgwrite fh offset bytes retry pathid) =
    then_signed 8 (padded [] fh 4) (pos offset) _ (λ w e. then_unsigned 1 w (pos pathid) _ (λ w' e'.
      then_unsigned 1 w' (pos (retry_flag retry)) _
        (λ w'' e''. (omega (arith, length-zeros w'' 2, length-padded [] fh 4), omega arith))))
encoded-Framed (for_chkpoint fh subcode bytes tail) =
    then_unsigned 1 (zeros (padded [] fh 4) 11) (pos subcode) _
      (λ w e. (omega (arith, length-zeros (padded [] fh 4) 11, length-padded [] fh 4), omega arith))
encoded-Framed (for_fattr subcode body numattr options fh) =
    then_unsigned 1 (padded [] fh 4) (pos subcode) _ (λ w e.
      then_unsigned 1 w (pos numattr) _ (λ w' e'.
        then_unsigned 1 w' (pos options) _
          (λ w'' e''. (omega (arith, length-zeros w'' 9, length-padded [] fh 4), omega arith))))
encoded-Framed (for_named a) = named-Framed a

-- Whatever any encoder of a session, file or namespace request was called with: if it returned a request, and
-- the payload fits a frame, the request is sendable.
pub encoded-IsSendable :
    (a : Asked) (req : Request)
    → encoded a ≡ ok req
    → length req.payload + length req.path_data ≤ max_frame_payload
    → IsSendable req
encoded-IsSendable a req e fits =
    let (params, opcode) = subst Framed e (encoded-Framed a) in
    record { params_16 = params; opcode_fits = opcode; fits = fits }

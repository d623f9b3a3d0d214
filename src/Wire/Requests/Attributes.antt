-- ===== src/Wire/Requests/Attributes.antt =====
-- proto/_requests_io.py: `Fattr`, extended attributes.
use xrdclient.Prelude.{ℕ, ◌+◌, Bool, true, ◌||◌, [], ◌++◌, ◌==◌, if◌then◌else◌, pos, length}
use xrdclient.Errors.{Bytes, Result, ok, ◌>>=◌}
use xrdclient.Wire.Buffer.{write_unsigned, zeros, padded, text, raw}
use xrdclient.Wire.Frames.{Request}
use xrdclient.Wire.Requests.{plain}

-- `Fattr`: fhandle[4] subcode[1] numattr[1] options[1] reserved[9]
unfoldable pub fattr_request : ℕ → Bytes → ℕ → ℕ → Bytes → Result Request
unfolding write_unsigned
fattr_request subcode body numattr options fhandle = do
  w ← write_unsigned 1 (padded [] fhandle 4) (pos subcode)
  w ← write_unsigned 1 w (pos numattr)
  w ← write_unsigned 1 w (pos options)
  ok (record (plain 3020 (zeros w 9)) {
    signed = true;
    idempotent = (subcode == 1) || (subcode == 2);
    payload = body;
  })

-- `Fattr._path_name`
unfoldable pub path_name : Bytes → Bytes → Result Bytes
unfolding write_unsigned
path_name path name = do w ← write_unsigned 2 (text [] path true) (pos 0); ok (text w name true)

-- `Fattr.get`
unfoldable pub fattr_get : Bytes → Bytes → Bytes → Result Request
unfolding fattr_request path_name
fattr_get path name fhandle = do body ← path_name path name; fattr_request 1 body 1 0 fhandle

-- `Fattr.delete`
unfoldable pub fattr_delete : Bytes → Bytes → Bytes → Result Request
unfolding fattr_request path_name
fattr_delete path name fhandle = do body ← path_name path name; fattr_request 0 body 1 0 fhandle

-- `Fattr.set`
unfoldable pub fattr_set : Bytes → Bytes → Bytes → Bool → Bytes → Result Request
unfolding fattr_request path_name write_unsigned
fattr_set path name value create_only fhandle = do
  head ← path_name path name
  size ← write_unsigned 4 [] (pos (length value))
  fattr_request 3 (head ++ raw size value) 1 (if create_only then 1 else 0) fhandle

-- `Fattr.list`; the two option bits are apart
unfoldable pub fattr_list : Bytes → Bool → Bytes → Bool → Result Request
unfolding fattr_request
fattr_list path values fhandle recurse =
    fattr_request 2 (text [] path true) 0
      ((if values then 0x10 else 0) + (if recurse then 0x20 else 0)) fhandle

-- ===== src/Wire/Requests/Namespace.antt =====
-- proto/_requests_ns.py and proto/_requests_query.py: the requests about paths, and the queries and
-- stagings of a server. Modes, options and new lengths are natural numbers, as the client passes them.
pub mod Splits
pub mod Headers
use xrdclient.Prelude.{
  ℕ, Bool, true, false, List, [], ◌∷◌, ◌++◌, Option, none, some, if◌then◌else◌, ℤ, pos, length,
  replicate,
}
use xrdclient.Errors.{Bytes, Result, ok, err, ◌>>=◌}
use xrdclient.Wire.Buffer.{write_unsigned, write_signed, zeros, padded}
use xrdclient.Wire.Frames.{Request}
use xrdclient.Wire.Requests.{plain}
use xrdclient.Session.Text.{join}

-- A request whose parameters are all reserved, with a path.
abbrev pub about : ℕ → Bytes → Request
about opcode path = record (plain opcode (replicate 16 0)) { payload = path }

-- A change of the namespace, which is signed and not replayed.
abbrev pub changing : Request → Request
changing request = record request { signed = true; idempotent = false }

-- `Stat`: options[1] reserved[11] fhandle[4]
unfoldable pub stat_request : Bytes → ℕ → Bytes → Result Request
unfolding write_unsigned
stat_request path options fhandle = do
  w ← write_unsigned 1 [] (pos options)
  ok (record (plain 3017 (padded (zeros w 11) fhandle 4)) { payload = path })

-- `StatVFS`
abbrev pub stat_vfs_request : Bytes → Result Request
stat_vfs_request path = stat_request path 1 (replicate 4 0)

-- "\n".join(paths)
abbrev pub lines : List Bytes → Bytes
lines paths = join 10 paths

-- `Statx`
abbrev pub statx_request : List Bytes → Request
statx_request paths = about 3022 (lines paths)

-- `Dirlist`: reserved[15] options[1]; kXR_dstat where no options are given
abbrev pub dirlist_options : Option ℕ → ℕ
dirlist_options none = 2
dirlist_options (some options) = options

unfoldable pub dirlist_request : Bytes → Option ℕ → Result Request
unfolding write_unsigned
dirlist_request path options = do
  w ← write_unsigned 1 (zeros [] 15) (pos (dirlist_options options))
  ok (record (plain 3004 w) { payload = path })

-- `Locate`: options[2] reserved[14]
unfoldable pub locate_request : Bytes → ℕ → Result Request
unfolding write_unsigned
locate_request path options = do
  w ← write_unsigned 2 [] (pos options)
  ok (record (plain 3027 (zeros w 14)) { payload = path })

-- `Mkdir`: options[1] reserved[13] mode[2]
unfoldable pub mkdir_request : Bytes → ℕ → Bool → Result Request
unfolding write_unsigned
mkdir_request path mode mkpath = do
  w ← write_unsigned 1 [] (pos (if mkpath then 1 else 0))
  w ← write_unsigned 2 (zeros w 13) (pos mode)
  ok (changing (record (plain 3008 w) { payload = path }))

-- `Rm` and `Rmdir`
abbrev pub rm_request : Bytes → Request
rm_request path = changing (about 3014 path)

abbrev pub rmdir_request : Bytes → Request
rmdir_request path = changing (about 3015 path)

-- `Mv`, and with other opcodes `Symlink` and `Link`: reserved[14] arg1len[2]
unfoldable pub two_paths : ℕ → Bytes → Bytes → Result Request
unfolding write_unsigned
two_paths opcode src dst = do
  w ← write_unsigned 2 (zeros [] 14) (pos (length src))
  ok (changing (record (plain opcode w) { payload = src ++ (32 ∷ dst) }))

abbrev pub mv_request : Bytes → Bytes → Result Request
mv_request src dst = two_paths 3009 src dst

abbrev pub symlink_request : Bytes → Bytes → Result Request
symlink_request src dst = two_paths 3501 src dst

abbrev pub link_request : Bytes → Bytes → Result Request
link_request src dst = two_paths 3503 src dst

-- `Readlink`
abbrev pub readlink_request : Bytes → Request
readlink_request path = record (about 3502 path) { signed = true }

-- `Setattr`: the body is flags[4] atime[8+8] mtime[8+8] uid[4] gid[4] and the path with a NUL
unfoldable pub setattr_request : Bytes → ℕ → ℤ × ℤ → ℤ × ℤ → ℤ × ℤ → Result Request
unfolding write_signed
setattr_request path flags (accessed, accessed_ns) (modified, modified_ns) (uid, gid) = do
  w ← write_signed 4 [] (pos flags)
  w ← write_signed 8 w accessed
  w ← write_signed 8 w accessed_ns
  w ← write_signed 8 w modified
  w ← write_signed 8 w modified_ns
  w ← write_signed 4 w uid
  w ← write_signed 4 w gid
  ok (changing (about 3500 ((w ++ path) ++ (0 ∷ []))))

-- `Chmod`: reserved[14] mode[2]
unfoldable pub chmod_request : Bytes → ℕ → Result Request
unfolding write_unsigned
chmod_request path mode = do
  w ← write_unsigned 2 (zeros [] 14) (pos mode)
  ok (changing (record (plain 3002 w) { payload = path }))

-- `Truncate`: fhandle[4] offset[8] reserved[4]
unfoldable pub truncate_request : Bytes → ℕ → Bytes → Result Request
unfolding write_signed
truncate_request path size fhandle = do
  w ← write_signed 8 (padded [] fhandle 4) (pos size)
  ok (changing (record (plain 3028 (zeros w 4)) { payload = path }))

-- `Query`: infotype[2] reserved[2] fhandle[4] reserved[8]
unfoldable pub query_request : ℕ → Bytes → Bytes → Result Request
unfolding write_unsigned
query_request infotype args fhandle = do
  w ← write_unsigned 2 [] (pos infotype)
  ok (record (plain 3001 (zeros (padded (zeros w 2) fhandle 4) 8)) { payload = args })

-- `Prepare`: options[1] prty[1] port[2] optionX[2] reserved[10]
unfoldable pub prepare_request : List Bytes → ℕ → ℕ → ℕ → ℕ → Result Request
unfolding write_unsigned
prepare_request paths options priority port extended = do
  w ← write_unsigned 1 [] (pos options)
  w ← write_unsigned 1 w (pos priority)
  w ← write_unsigned 2 w (pos port)
  w ← write_unsigned 2 w (pos extended)
  ok (changing (record (plain 3021 (zeros w 10)) { payload = lines paths }))

-- ===== src/Wire/Buffer.antt =====
-- proto/buffer.py: the big-endian cursors. A buffer is a list of bytes; text is its UTF-8 bytes.
pub mod Bounds
pub mod Layout
use xrdclient.Prelude.{
  ℕ, zero, suc, ◌+◌, ◌-◌, ◌%◌, Bool, true, false, ◌||◌, List, [], ◌∷◌, ◌++◌, Option, none, some,
  ltb, leb, ◌==◌, if◌then◌else◌, ℤ, pos, negsuc, length, take, drop, replicate,
}
use xrdclient.Errors.{Bytes, Result, ok, err, protocol_error, negative_read, truncated}
use xrdclient.Exec.{Exec, pure, ◌>>=◌, ◌>>◌}
use xrdclient.Wire.Words.{of_be, signed, pack_unsigned, pack_signed}

-- `Reader`; its label for messages is not modelled.
pub record Reader : Type 0 where
  pub buf : Bytes
  pub position : ℕ

-- `Reader.__init__`
abbrev pub reader : Bytes → Reader
reader data' = record { buf = data'; position = 0 }

-- `Reader.remaining`, `Reader.__len__`
abbrev pub remaining : Reader → ℕ
remaining r = length r.buf - r.position

-- `Reader._take`
unfoldable pub take_bytes : ℤ → Exec Reader Bytes
take_bytes (negsuc n) r = (err (protocol_error (negative_read (negsuc n))), r)
take_bytes (pos n) r =
    if ltb (length r.buf) (r.position + n)
    then (err (protocol_error (truncated n r.position (remaining r))), r)
    else (ok (take n (drop r.position r.buf)), record r { position = r.position + n })

-- `Reader._unpack` with the layouts `>B`, `>H`, `>I`, `>Q`
unfoldable pub unpack : ℕ → Exec Reader ℕ
unfolding take_bytes of_be
unpack w = do chunk ← take_bytes (pos w); pure (of_be chunk)

-- `Reader._unpack` with the layouts `>h`, `>i`, `>q`
unfoldable pub unpack_signed : ℕ → Exec Reader ℤ
unfolding take_bytes of_be signed
unpack_signed w = do chunk ← take_bytes (pos w); pure (signed w (of_be chunk))

unfoldable pub u8 : Exec Reader ℕ
unfolding unpack
u8 = unpack 1

unfoldable pub u16 : Exec Reader ℕ
unfolding unpack
u16 = unpack 2

unfoldable pub i16 : Exec Reader ℤ
unfolding unpack_signed
i16 = unpack_signed 2

unfoldable pub u32 : Exec Reader ℕ
unfolding unpack
u32 = unpack 4

unfoldable pub i32 : Exec Reader ℤ
unfolding unpack_signed
i32 = unpack_signed 4

unfoldable pub u64 : Exec Reader ℕ
unfolding unpack
u64 = unpack 8

unfoldable pub i64 : Exec Reader ℤ
unfolding unpack_signed
i64 = unpack_signed 8

-- `Reader.rest`
unfoldable pub rest : Exec Reader Bytes
unfolding take_bytes
rest r = take_bytes (pos (remaining r)) r

-- `Reader.skip`
unfoldable pub skip : ℤ → Exec Reader (Unit {0})
unfolding take_bytes
skip n = do take_bytes n; pure tt

-- `raw.split(b"\x00", 1)[0]`
unfoldable pub before_nul : Bytes → Bytes
before_nul [] = []
before_nul (b ∷ bs) = if b == 0 then [] else b ∷ before_nul bs

-- what `tail.find(b"\x00")` skips over: the text and its NUL, or all there is
unfoldable pub through_nul : Bytes → ℕ
through_nul [] = 0
through_nul (b ∷ bs) = if b == 0 then 1 else suc (through_nul bs)

-- `Reader.cstring(n)`: the whole field is consumed
unfoldable pub cstring_field : ℤ → Exec Reader Bytes
unfolding take_bytes before_nul
cstring_field n = do raw ← take_bytes n; pure (before_nul raw)

-- `Reader.cstring()`: up to the next NUL, which is consumed, or the end
unfoldable pub cstring : Exec Reader Bytes
unfolding before_nul through_nul
cstring r =
    let tail = drop r.position r.buf in
    (ok (before_nul tail), record r { position = r.position + through_nul tail })

-- `Writer`: what has been written so far.
abbrev pub Writer : Type 0
Writer = Bytes

-- `Writer.u8`, `u16`, `u32`, `u64`, by the width of the field
unfoldable pub write_unsigned : ℕ → Writer → ℤ → Result Writer
unfolding pack_unsigned
write_unsigned w out v = elim (pack_unsigned w v) [ ok bs ↦ ok (out ++ bs) | err e ↦ err e ]

-- `Writer.i32`, `i64`
unfoldable pub write_signed : ℕ → Writer → ℤ → Result Writer
unfolding pack_signed
write_signed w out v = elim (pack_signed w v) [ ok bs ↦ ok (out ++ bs) | err e ↦ err e ]

-- `Writer.raw`
abbrev pub raw : Writer → Bytes → Writer
raw out bs = out ++ bs

-- `Writer.text`
abbrev pub text : Writer → Bytes → Bool → Writer
text out s true = (out ++ s) ++ (0 ∷ [])
text out s false = out ++ s

-- `Writer.zeros`
abbrev pub zeros : Writer → ℕ → Writer
zeros out n = out ++ replicate n 0

-- `b[:width].ljust(width, b"\x00")`
abbrev pub fit : Bytes → ℕ → Bytes
fit b width = take width b ++ replicate (width - length (take width b)) 0

-- `Writer.padded`
abbrev pub padded : Writer → Bytes → ℕ → Writer
padded out b width = out ++ fit b width

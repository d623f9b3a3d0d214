-- ===== src/Client/Writing/Intact.antt =====
-- A paged write (client/_writing.py: `pgwrite`) that returns, and that does return.
use xrdclient.Prelude.{
  ℕ, ◌+◌, ◌-◌, ◌≤◌, ◌<◌, ◌≡◌, refl, sym, ap, subst, arith, true, false, ◌&&◌, max, List, [], ◌∷◌,
  some, ℤ, pos, negsuc, ltb, leb, length, All,
}
use xrdclient.Errors.{Bytes, Result, ok}
use xrdclient.Exec.{Exec, pure, ◌>>=◌, bind-ok}
use xrdclient.Pages.{unpack_pages}
use xrdclient.Pages.RoundTrip.{IsCrc, unpack_pages-pack_pages}
use xrdclient.Client.Writing.{
  Handle, PagedSend, reported, on_server, invalidate, pgwrite_once, attempts, page_at,
  pgwrite_retry, retry_all, pgwrite,
}
use xrdclient.Client.Writing.Store.{Store, put_at, put_at-nil}
use xrdclient.Client.Writing.Paged.{IsVerifying, once-stores, retry_all-stores}

on_server-ok :
    {S A : Type 0} (m : Exec S A) (f g : Handle S) (a : A)
    → on_server m f ≡ (ok a, g)
    → m f.server ≡ (ok a, g.server)
on_server-ok {S} {A} m f g a e = ap (λ (r : Result A × Handle S). (r.0, r.1.server)) e

-- If the server stores what it gets and names each page that it did not get whole: when `pgwrite`
-- returns, it returns the length of the bytes, and the file has these bytes at the offset, on every
-- page, and everywhere else what it had before.
pub pgwrite-intact :
    (crc32c : Bytes → ℕ) (send : PagedSend Store) (bytes : Bytes) (offset n : ℕ)
    (f g : Handle Store)
    → IsCrc crc32c
    → IsVerifying crc32c send
    → pgwrite crc32c send bytes offset f ≡ (ok n, g)
    → (n ≡ length bytes) × ((i : ℕ) → g.server i ≡ put_at offset bytes f.server i)
unfolding pgwrite
pgwrite-intact crc32c send [] offset n f g law server e =
    let same : f.server ≡ g.server = ap (λ (r : Result ℕ × Handle Store). r.1.server) e in
    (
      ground (arith, ap (λ (r : Result ℕ × Handle Store). r.0) e),
      λ i.
          subst (λ (u : Store). u i ≡ put_at offset [] f.server i) same
            (sym (put_at-nil offset f.server i)),
    )
pgwrite-intact crc32c send (b ∷ bytes) offset n f g law server e =
    let whole = b ∷ bytes in
    let (corrupt, f1, first, e1) =
      bind-ok (on_server (pgwrite_once crc32c send whole offset false))
        (λ corrupt. on_server (retry_all crc32c send whole offset corrupt) >>= λ _.
          (invalidate false (offset + length whole) >>= λ _. pure (length whole)))
        f n g e in
    let (_, f2, second, e2) =
      bind-ok (on_server (retry_all crc32c send whole offset corrupt))
        (λ _. invalidate false (offset + length whole) >>= λ _. pure (length whole)) f1 n g e1 in
    let stored =
      once-stores crc32c law send server whole offset false f.server f1.server corrupt
        (on_server-ok (pgwrite_once crc32c send whole offset false) f f1 corrupt first) in
    let last : f2.server ≡ g.server = ap (λ (r : Result ℕ × Handle Store). r.1.server) e2 in
    (
      ground (arith, ap (λ (r : Result ℕ × Handle Store). r.0) e2),
      λ i.
          subst (λ (u : Store). u i ≡ put_at offset whole f.server i) last
            (retry_all-stores crc32c law send server whole offset corrupt f.server f1.server
              f2.server (on_server-ok (retry_all crc32c send whole offset corrupt) f1 f2 tt second)
              i (stored i)),
    )

-- A page offset within what is written.
abbrev pub IsWithin : ℕ → Bytes → ℤ → Type 0
IsWithin offset bytes (pos p) = (offset ≤ p) × (p < offset + length bytes)
IsWithin offset bytes (negsuc n) = ⊥

-- A server that answers a write with pages of it, and takes a page that is sent again.
pub record IsAnswering {S : Type 0} (crc32c : Bytes → ℕ) (send : PagedSend S) : Type 0 where
  pub answers :
      (offset : ℕ) (wire bytes : Bytes) (s : S)
      → unpack_pages crc32c wire offset ≡ some (record { payload = bytes; corrupt = [] })
      → (body : Bytes) × (t : S) × (corrupt : List ℤ) × (send offset wire false s ≡ (ok body, t))
        × (reported body ≡ ok corrupt)
        × All (IsWithin offset bytes) corrupt
  pub takes :
      (offset : ℕ) (wire bytes : Bytes) (s : S)
      → unpack_pages crc32c wire offset ≡ some (record { payload = bytes; corrupt = [] })
      → (body : Bytes) × (t : S) × (send offset wire true s ≡ (ok body, t))
        × (reported body ≡ ok [])

module _ {S : Type 0} (crc32c : Bytes → ℕ) (law : IsCrc crc32c) (send : PagedSend S)
    (server : IsAnswering crc32c send) where
  once-first :
      (bytes : Bytes) (offset : ℕ) (s : S)
      → (corrupt : List ℤ) × (t : S) × (pgwrite_once crc32c send bytes offset false s
          ≡ (ok corrupt, t))
        × All (IsWithin offset bytes) corrupt
  unfolding pgwrite_once
  once-first bytes offset s =
      let (wire, packs, unpacks, _, _) = unpack_pages-pack_pages crc32c bytes offset law in
      let (body, t, corrupt, sent, rep, within) = server.answers offset wire bytes s unpacks in
      (corrupt, t, rw (packs, sent, rep) refl, within)

  once-again :
      (bytes : Bytes) (offset : ℕ) (s : S)
      → (t : S) × (pgwrite_once crc32c send bytes offset true s ≡ (ok [], t))
  unfolding pgwrite_once
  once-again bytes offset s =
      let (wire, packs, unpacks, _, _) = unpack_pages-pack_pages crc32c bytes offset law in
      let (body, t, sent, rep) = server.takes offset wire bytes s unpacks in
      (t, rw (packs, sent, rep) refl)

  retry-returns :
      (bytes : Bytes) (base : ℕ) (p : ℤ) (s : S)
      → IsWithin base bytes p
      → (t : S) × (pgwrite_retry crc32c send bytes base p s ≡ (ok tt, t))
  unfolding pgwrite_retry attempts
  retry-returns bytes base (negsuc n) s within = absurd within
  retry-returns bytes base (pos p) s within =
      let (t, took) = once-again (page_at bytes base p) p s in
      let inside : (leb base p && ltb (p - base) (length bytes)) ≡ true =
        ground (arith, within.0, within.1) in
      (t, rw (inside, took) refl)

  retry_all-returns :
      (bytes : Bytes) (base : ℕ) (corrupt : List ℤ) (s : S)
      → All (IsWithin base bytes) corrupt
      → (t : S) × (retry_all crc32c send bytes base corrupt s ≡ (ok tt, t))
  unfolding retry_all
  retry_all-returns bytes base [] s within = (s, refl)
  retry_all-returns bytes base (p ∷ corrupt) s within =
      let (s', did) = retry-returns bytes base p s within.0 in
      let (t, rest) = retry_all-returns bytes base corrupt s' within.1 in (t, rw (did, rest) refl)

-- If the server answers every write, names only pages of it, and takes a page that is sent again:
-- `pgwrite` returns, with the length of the bytes, and without a `stat` that it kept.
pub pgwrite-returns :
    {S : Type 0} (crc32c : Bytes → ℕ) (send : PagedSend S) (bytes : Bytes) (offset : ℕ)
    (f : Handle S)
    → IsCrc crc32c
    → IsAnswering crc32c send
    → 1 ≤ length bytes
    → (g : Handle S) × (pgwrite crc32c send bytes offset f ≡ (ok (length bytes), g))
      × (g.stat_known ≡ false)
      × (offset + length bytes ≤ g.size_hint)
unfolding pgwrite
pgwrite-returns {S} crc32c send [] offset f law server some_byte = absurd (omega (arith, some_byte))
pgwrite-returns {S} crc32c send (b ∷ bytes) offset f law server some_byte =
    let (corrupt, s, first, within) =
      once-first crc32c law send server (b ∷ bytes) offset f.server in
    let (t, rest) = retry_all-returns crc32c law send server (b ∷ bytes) offset corrupt s within in
    let high = offset + length (b ∷ bytes) in
    let g : Handle S = record f {
      server = t;
      size_hint = max f.size_hint high;
      stat_known = false;
    } in
    (g, rw (first, rest) refl, refl, omega arith)

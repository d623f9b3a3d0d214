-- ===== src/Client/Writing/Paged.antt =====
-- Paged writes (client/_writing.py: `pgwrite`) to a server that names the pages that it did not get whole.
use xrdclient.Prelude.{
  ℕ, zero, suc, ◌+◌, ◌-◌, ◌≤◌, ◌<◌, ◌≡◌, ap, subst, ◌∙◌, ◌⊎◌, arith, Bool, true, false, not, ◌&&◌,
  List, [], ◌∷◌, Option, some, ℤ, pos, negsuc, ltb, leb, if◌then◌else◌, length, drop, truthy,
  length-take, length-drop, Bool-cases, inl, inr,
}
use xrdclient.Errors.{Bytes, Result, ok, protocol_error, page_outside}
use xrdclient.Exec.{pure, raise, lift, ◌>>=◌, bind-ok}
use xrdclient.Pages.{page_span, unpack_pages}
use xrdclient.Pages.RoundTrip.{IsCrc, unpack_pages-pack_pages}
use xrdclient.Client.Writing.{
  PagedSend, reported, packed_or_error, pgwrite_once, attempts, page_at, pgwrite_retry, retry_all,
  pgw_max_retry,
}
use xrdclient.Client.Writing.Store.{
  Store, put_at, put_at-agree, put_at-behind, put_at-before, put_at-inside, put_at-piece,
}

-- A byte on the page at an offset of what is written, as far as it is written.
abbrev pub OnPage : ℕ → Bytes → ℕ → ℕ → Type 0
OnPage offset bytes p i =
    (offset ≤ p) × (p ≤ i) × (i < p + page_span p (length bytes - (p - offset)))

-- A byte on one of the pages that the server named.
abbrev pub IsNamed : ℕ → Bytes → List ℤ → ℕ → Type 0
IsNamed offset bytes [] i = ⊥
IsNamed offset bytes (pos p ∷ corrupt) i = OnPage offset bytes p i ⊎ IsNamed offset bytes corrupt i
IsNamed offset bytes (negsuc n ∷ corrupt) i = IsNamed offset bytes corrupt i

-- What the protocol has a server do with pages whose checksums were right when they were sent: it
-- stores them, and names each page that it did not get whole.
pub record IsVerifying (crc32c : Bytes → ℕ) (send : PagedSend Store) : Type 0 where
  pub stores :
      (offset : ℕ) (wire : Bytes) (retry : Bool) (bytes body : Bytes) (s t : Store)
      (corrupt : List ℤ)
      → unpack_pages crc32c wire offset ≡ some (record { payload = bytes; corrupt = [] })
      → send offset wire retry s ≡ (ok body, t)
      → reported body ≡ ok corrupt
      → (i : ℕ) → (t i ≡ put_at offset bytes s i) ⊎ IsNamed offset bytes corrupt i

IsNamed-within :
    (offset : ℕ) (bytes : Bytes) (corrupt : List ℤ) (i : ℕ)
    → IsNamed offset bytes corrupt i
    → (offset ≤ i) × (i < offset + length bytes)
IsNamed-within offset bytes [] i h = absurd h
IsNamed-within offset bytes (pos p ∷ corrupt) i (inl on) =
    (omega (arith, on.0, on.1), omega (arith, on.0, on.1, on.2))
IsNamed-within offset bytes (pos p ∷ corrupt) i (inr h) = IsNamed-within offset bytes corrupt i h
IsNamed-within offset bytes (negsuc n ∷ corrupt) i h = IsNamed-within offset bytes corrupt i h

beside : (p i n : ℕ) → (leb p i && ltb i (p + n)) ≡ false → (i < p) ⊎ (p + n ≤ i)
beside p i n off = ground (arith, off)

module _ (crc32c : Bytes → ℕ) (law : IsCrc crc32c) (send : PagedSend Store)
    (server : IsVerifying crc32c send) where
  pub once-stores :
      (bytes : Bytes) (offset : ℕ) (retry : Bool) (s t : Store) (corrupt : List ℤ)
      → pgwrite_once crc32c send bytes offset retry s ≡ (ok corrupt, t)
      → (i : ℕ) → (t i ≡ put_at offset bytes s i) ⊎ IsNamed offset bytes corrupt i
  unfolding pgwrite_once
  once-stores bytes offset retry s t corrupt e =
      let (wire, packs, unpacks, _, _) = unpack_pages-pack_pages crc32c bytes offset law in
      let e' =
        subst
          (λ (o : Option Bytes).
            (lift (packed_or_error o) >>= λ w.
            (send offset w retry >>= λ body. lift (reported body)))
              s
            ≡ (ok corrupt, t))
          packs e in
      let (body, s', sent, answered) =
        bind-ok (send offset wire retry) (λ body. lift (reported body)) s corrupt t e' in
      let left : s' ≡ t = ap (λ (r : Result (List ℤ) × Store). r.1) answered in
      server.stores offset wire retry bytes body s t corrupt unpacks
        (subst (λ (u : Store). send offset wire retry s ≡ (ok body, u)) left sent)
        (ap (λ (r : Result (List ℤ) × Store). r.0) answered)

  -- Outside of what is written an attempt changes nothing.
  once-outside :
      (bytes : Bytes) (offset : ℕ) (retry : Bool) (s t : Store) (corrupt : List ℤ)
      → pgwrite_once crc32c send bytes offset retry s ≡ (ok corrupt, t)
      → (i : ℕ) → (i < offset) ⊎ (offset + length bytes ≤ i)
      → t i ≡ s i
  once-outside bytes offset retry s t corrupt e i out =
      elim (once-stores bytes offset retry s t corrupt e i) [
        | inl h ↦ h ∙ outside out
        | inr h ↦
            let w = IsNamed-within offset bytes corrupt i h in absurd (omega (arith, w.0, w.1, out))
      ]
    where
      outside : (i < offset) ⊎ (offset + length bytes ≤ i) → put_at offset bytes s i ≡ s i
      outside (inl h) = put_at-before offset bytes s i h
      outside (inr h) = put_at-behind offset bytes s i h

  -- A page that was sent until the server had it is there, and nothing else has changed.
  attempts-stores :
      (n : ℕ) (page : Bytes) (p : ℕ) (s t : Store)
      → attempts crc32c send n page p s ≡ (ok tt, t)
      → (i : ℕ) → t i ≡ put_at p page s i
  unfolding attempts
  attempts-stores zero page p s t e i = ground (arith, e)
  attempts-stores (suc n) page p s t e i =
      let (corrupt, s', did, rest) =
        bind-ok (pgwrite_once crc32c send page p true)
          (λ corrupt. if not (truthy corrupt) then pure tt else attempts crc32c send n page p) s tt
          t e in
      after corrupt s' (λ again. attempts-stores n page p s' t again i) did rest
    where
      after :
          (corrupt : List ℤ) (s' : Store)
          → (attempts crc32c send n page p s' ≡ (ok tt, t) → t i ≡ put_at p page s' i)
          → pgwrite_once crc32c send page p true s ≡ (ok corrupt, s')
          → (if not (truthy corrupt) then pure tt else attempts crc32c send n page p) s'
            ≡ (ok tt, t)
          → t i ≡ put_at p page s i
      after [] s' more did rest =
          let left : s' ≡ t = ap (λ (r : Result (Unit {0}) × Store). r.1) rest in
          elim (once-stores page p true s s' [] did i) [
            | inl h ↦ subst (λ (u : Store). u i ≡ put_at p page s i) left h
            | inr h ↦ absurd h
          ]
      after (c ∷ corrupt) s' more did rest =
          let same = more rest in
          elim (Bool-cases (leb p i && ltb i (p + length page))) [
            | inl on ↦ same ∙ put_at-inside p page s' s i (ground (arith, on)) (ground (arith, on))
            | inr off ↦
                same
                ∙ put_at-agree p page s' s i (
                    once-outside page p true s s' (c ∷ corrupt) did i
                      (beside p i (length page) off))
          ]

  page-stores :
      (bytes : Bytes) (base p : ℕ) (start s t : Store) (i : ℕ)
      → base ≤ p
      → t i ≡ put_at p (page_at bytes base p) s i
      → (s i ≡ put_at base bytes start i) ⊎ OnPage base bytes p i
      → t i ≡ put_at base bytes start i
  page-stores bytes base p start s t i above same h =
      let page = page_at bytes base p in
      let k = page_span p (length bytes - (p - base)) in
      let size : length page ≡ k =
        omega (arith, length-take k (drop (p - base) bytes), length-drop (p - base) bytes) in
      elim (Bool-cases (leb p i && ltb i (p + k))) [
        | inl on ↦
            same
            ∙ put_at-piece base p k bytes s i above (ground (arith, on)) (ground (arith, on))
            ∙ put_at-inside base bytes s start i (ground (arith, on, above))
                (ground (arith, on, above))
        | inr off ↦ same ∙ kept p page s i (beside p i (length page) (rw size off)) ∙ was k off h
      ]
    where
      kept :
          (p : ℕ) (page : Bytes) (s : Store) (i : ℕ)
          → (i < p) ⊎ (p + length page ≤ i)
          → put_at p page s i ≡ s i
      kept p page s i (inl before) = put_at-before p page s i before
      kept p page s i (inr behind) = put_at-behind p page s i behind

      was :
          (k : ℕ)
          → (leb p i && ltb i (p + page_span p (length bytes - (p - base)))) ≡ false
          → (s i ≡ put_at base bytes start i) ⊎ OnPage base bytes p i
          → s i ≡ put_at base bytes start i
      was k off (inl h) = h
      was k off (inr on) = ground (arith, off, on.1, on.2)

  -- A page that is retried is as it should be then, and what was as it should be stays so.
  retry-stores :
      (bytes : Bytes) (base : ℕ) (p : ℤ) (start s t : Store)
      → pgwrite_retry crc32c send bytes base p s ≡ (ok tt, t)
      → (i : ℕ) → (s i ≡ put_at base bytes start i) ⊎ IsNamed base bytes (p ∷ []) i
      → t i ≡ put_at base bytes start i
  unfolding pgwrite_retry
  retry-stores bytes base (negsuc n) start s t e i h = ground (arith, e)
  retry-stores bytes base (pos p) start s t e i h =
      let tries = attempts crc32c send pgw_max_retry (page_at bytes base p) p in
      let refused = raise (protocol_error (page_outside (pos p) (length bytes))) in
      let chosen = λ (b : Bool). (if b then tries else refused) s ≡ (ok tt, t) in
      elim (Bool-cases (leb base p && ltb (p - base) (length bytes))) [
        | inr off ↦ ground (arith, subst chosen off e)
        | inl within ↦
            page-stores bytes base p start s t i (ground (arith, within))
              (attempts-stores pgw_max_retry (page_at bytes base p) p s t (subst chosen within e) i)
              (only h)
      ]
    where
      only :
          (s i ≡ put_at base bytes start i) ⊎ (OnPage base bytes p i ⊎ ⊥)
          → (s i ≡ put_at base bytes start i) ⊎ OnPage base bytes p i
      only (inl h) = inl h
      only (inr (inl h)) = inr h
      only (inr (inr h)) = absurd h

  pub retry_all-stores :
      (bytes : Bytes) (base : ℕ) (corrupt : List ℤ) (start s t : Store)
      → retry_all crc32c send bytes base corrupt s ≡ (ok tt, t)
      → (i : ℕ) → (s i ≡ put_at base bytes start i) ⊎ IsNamed base bytes corrupt i
      → t i ≡ put_at base bytes start i
  unfolding retry_all
  retry_all-stores bytes base [] start s t e i (inl h) =
      subst (λ (u : Store). u i ≡ put_at base bytes start i)
        (ap (λ (r : Result (Unit {0}) × Store). r.1) e) h
  retry_all-stores bytes base [] start s t e i (inr h) = absurd h
  retry_all-stores bytes base (p ∷ corrupt) start s t e i h =
      let (_, s', did, rest) =
        bind-ok (pgwrite_retry crc32c send bytes base p)
          (λ _. retry_all crc32c send bytes base corrupt) s tt t e in
      retry_all-stores bytes base corrupt start s' t rest i
        (sort p s' h (λ now. retry-stores bytes base p start s s' did i now))
    where
      sort :
          (p : ℤ) (s' : Store)
          → (s i ≡ put_at base bytes start i) ⊎ IsNamed base bytes (p ∷ corrupt) i
          → ((s i ≡ put_at base bytes start i) ⊎ IsNamed base bytes (p ∷ []) i
              → s' i ≡ put_at base bytes start i)
          → (s' i ≡ put_at base bytes start i) ⊎ IsNamed base bytes corrupt i
      sort p s' (inl h) right = inl (right (inl h))
      sort (pos p) s' (inr (inl h)) right = inl (right (inr (inl h)))
      sort (pos p) s' (inr (inr h)) right = inr h
      sort (negsuc n) s' (inr h) right = inr h

-- ===== src/Session/Pool/Takes.antt =====
-- Which session `acquire` takes (session/pool.py: `_take`, `acquire`).
use xrdclient.Prelude.{
  ℕ, ◌≡◌, refl, Bool, true, false, not, ◌&&◌, ◌||◌, List, [], ◌∷◌, ◌++◌, Option, none, some, leb,
  All, Bool-cases, inl, inr, sym, subst, ◌∙◌, append_assoc, append-nil, if◌then◌else◌,
}
use xrdclient.Session.Pool.{
  Url, Config, Scene, Bucket, Pool, key_at, bucket_of, is_stale, take_from,
}
use xrdclient.Session.Pool.Calls.{take_for, left_over, reap, acquire}

-- An idle session that may be handed out.
abbrev pub is_fit : Scene → Config → ℕ × ℕ → Bool
is_fit w config (when, s) = not (w.closed s || w.broken s) && not (is_stale w config when)

-- The sessions of a bucket that are alive, the last first.
abbrev pub alive_of : Scene → Bucket → List ℕ
alive_of w [] = []
alive_of w ((when, s) ∷ b) =
    if w.closed s || w.broken s then alive_of w b else alive_of w b ++ (s ∷ [])

-- The newest session of a bucket that may be handed out, with the sessions to close, which are those
-- that are alive among the newer, and what is older than it; or none, with all that are alive to close,
-- and then nothing is older.
abbrev pub Newest : Scene → Config → Bucket → Option ℕ × List ℕ × Bucket → Type 0
Newest w config b (none, stale, older) =
    (older ≡ []) × All (λ (e : ℕ × ℕ). is_fit w config e ≡ false) b × (stale ≡ alive_of w b)
Newest w config b (some s, stale, older) =
    (newer : Bucket) × (when : ℕ) × (b ≡ newer ++ ((when, s) ∷ older))
    × All (λ (e : ℕ × ℕ). is_fit w config e ≡ false) newer
    × (is_fit w config (when, s) ≡ true)
    × (stale ≡ alive_of w newer)

module _ (w : Scene) (config : Config) where
  -- The same, with sessions that were to be closed before.
  abbrev NewestAfter : List ℕ → Bucket → Option ℕ × List ℕ × Bucket → Type 0
  NewestAfter before b (found, stale, older) =
      (here : List ℕ) × (stale ≡ here ++ before) × Newest w config b (found, here, older)

  NewestAfter-dead :
      (before : List ℕ) (when s : ℕ) (b : Bucket) (r : Option ℕ × List ℕ × Bucket)
      → (w.closed s || w.broken s) ≡ true
      → NewestAfter before b r
      → NewestAfter before ((when, s) ∷ b) r
  NewestAfter-dead before when s b (none, stale, older) d (here, e, (gone, all, all_alive)) =
      (here, e, (gone, (rw d refl, all), rw d all_alive))
  NewestAfter-dead before when s b (some t, stale, older) d
        (here, e, (newer, at, cut, all, fit, all_alive)) =
      (here, e, ((when, s) ∷ newer, at, rw cut refl, (rw d refl, all), fit, rw d all_alive))

  NewestAfter-stale :
      (before : List ℕ) (when s : ℕ) (b : Bucket) (r : Option ℕ × List ℕ × Bucket)
      → (w.closed s || w.broken s) ≡ false
      → is_stale w config when ≡ true
      → NewestAfter (s ∷ before) b r
      → NewestAfter before ((when, s) ∷ b) r
  NewestAfter-stale before when s b (none, stale, older) d f (here, e, (gone, all, all_alive)) = (
    here ++ (s ∷ []),
    e ∙ sym (append_assoc here (s ∷ []) before),
    (gone, (rw (d, f) refl, all), rw (d, all_alive) refl),
  )
  NewestAfter-stale before when s b (some t, stale, older) d f
        (here, e, (newer, at, cut, all, fit, all_alive)) =
      (
        here ++ (s ∷ []),
        e ∙ sym (append_assoc here (s ∷ []) before),
        ((when, s) ∷ newer, at, rw cut refl, (rw (d, f) refl, all), fit, rw (d, all_alive) refl),
      )

  take_from-NewestAfter :
      (stale : List ℕ) (b : Bucket) → NewestAfter stale b (take_from w config stale b)
  unfolding take_from
  take_from-NewestAfter stale [] = ([], refl, (refl, tt, refl))
  take_from-NewestAfter stale ((when, s) ∷ b) = elim (Bool-cases (w.closed s || w.broken s)) [
    | inl d ↦ rw d (
        NewestAfter-dead stale when s b (take_from w config stale b) d
          (take_from-NewestAfter stale b))
    | inr d ↦ rw d (elim (Bool-cases (is_stale w config when)) [
      | inl f ↦ rw f (
          NewestAfter-stale stale when s b (take_from w config (s ∷ stale) b) d f
            (take_from-NewestAfter (s ∷ stale) b))
      | inr f ↦ rw f ([], refl, ([], when, refl, tt, rw (d, f) refl, refl))
    ])
  ]

  take_from-Newest : (b : Bucket) → Newest w config b (take_from w config [] b)
  take_from-Newest b =
      let r = take_from w config [] b in
      let after = take_from-NewestAfter [] b in
      subst (λ (stale : List ℕ). Newest w config b (r.0, stale, r.2))
        (sym (after.1 ∙ append-nil after.0)) after.2

-- Where pooling is on, `acquire` hands out the newest idle session of the caller's key that is alive
-- and has not been idle for too long. Those newer than it are dropped, and exactly those of them that are
-- alive are put on the list of sessions to close, the last first; those older than it stay. If no
-- session may be handed out, none is, those that are alive are put on that list, and the key has none
-- any more.
pub acquire-Newest :
    (w : Scene) (url : Url) (config : Config) (p : Pool)
    → leb config.pool_size 0 ≡ false
    → let q = (reap w p).1 in
      let k = key_at url config (w.identity url config) in
      (r : Option ℕ × List ℕ × Bucket) × Newest w config (bucket_of k q.idle) r
      × (acquire w url config p
          ≡ (r.0, record q { idle = left_over k r.2 q.idle; ended = r.1 ++ q.ended }))
unfolding acquire take_for
acquire-Newest w url config p on =
    let q = (reap w p).1 in
    let k = key_at url config (w.identity url config) in
    (
      take_from w config [] (bucket_of k q.idle),
      take_from-Newest w config (bucket_of k q.idle),
      rw on refl,
    )

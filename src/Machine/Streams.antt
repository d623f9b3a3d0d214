-- ===== src/Machine/Streams.antt =====
-- proto/machine.py: stream ids, from `_acquire_sid` to the ways in which a stream is given up.
use xrdclient.Prelude.{
  ℕ, zero, suc, ◌+◌, Bool, ◌&&◌, ◌||◌, List, [], ◌∷◌, ◌++◌, ltb, leb, ◌==◌, not, if◌then◌else◌,
  truthy, Dict, without, keys, mem, add, discard, length,
}
use xrdclient.Errors.{ok, err, protocol_error, sids_exhausted, value_error}
use xrdclient.Exec.{Exec, pure, modify, ◌>>=◌, ◌>>◌, refuse_if}
use xrdclient.Machine.Types.{Machine, Pending, first_sid, is_ready}

-- The counter after an id was taken from it.
abbrev pub advance : ℕ → ℕ
advance sid = if ltb 0xFFFF (sid + 1) then first_sid else sid + 1

-- `sid in self._pending or sid in self._leased or sid in self._retired`
abbrev pub in_use : ℕ → Machine → Bool
in_use sid m = mem sid (keys m.pending) || (mem sid m.leased || mem sid m.retired)

-- the counter's half of `_acquire_sid`; it has advanced when the id is refused
unfoldable pub take_counter : Exec Machine ℕ
take_counter m =
    let m' = record m { next_sid = advance m.next_sid } in
    if in_use m.next_sid m then (err (protocol_error sids_exhausted), m') else (ok m.next_sid, m')

-- `_acquire_sid`
unfoldable pub acquire_sid : Exec Machine ℕ
unfolding take_counter
acquire_sid m = elim m.free [
  | [] ↦ take_counter m
  | sid ∷ free ↦ (ok sid, record m { free = free })
]

-- `release`
unfoldable pub release : ℕ → Machine → Machine
release sid m =
    let popped = record m { pending = without sid m.pending } in
    if mem sid (keys m.pending) && leb first_sid sid
    then record popped { free = m.free ++ (sid ∷ []) }
    else popped

-- `abandon`
unfoldable pub abandon : ℕ → Machine → Machine
abandon sid m =
    if mem sid (keys m.pending)
    then record m { pending = without sid m.pending; retired = add sid m.retired }
    else m

-- `idle`
unfoldable pub idle : Machine → Bool
idle m = is_ready m.state && (not (truthy m.pending) && not (truthy m.retired))

-- the loop of `lease_sids`
unfoldable pub lease_loop : ℕ → List ℕ → Exec Machine (List ℕ)
unfolding acquire_sid
lease_loop zero leased = pure leased
lease_loop (suc n) leased = do
  sid ← acquire_sid
  modify (λ m. record m { leased = add sid m.leased })
  lease_loop n (leased ++ (sid ∷ []))

unfoldable pub lease_sids : ℕ → Exec Machine (List ℕ)
unfolding lease_loop
lease_sids count = do refuse_if (ltb count 1) value_error; lease_loop count []

unfoldable pub release_sids : List ℕ → Machine → Machine
release_sids [] m = m
release_sids (sid ∷ sids) m =
    release_sids sids (record m { leased = discard sid m.leased; free = m.free ++ (sid ∷ []) })

-- one round of the loop of `retire_sids`
unfoldable pub retire_sid : ℕ → List ℕ → Machine → Machine
retire_sid sid owed m =
    let m' = record m { leased = discard sid m.leased } in
    if mem sid owed
    then record m' { retired = add sid m.retired }
    else record m' { free = m.free ++ (sid ∷ []) }

unfoldable pub retire_sids : List ℕ → List ℕ → Machine → Machine
unfolding retire_sid
retire_sids [] owed m = m
retire_sids (sid ∷ sids) owed m = retire_sids sids owed (retire_sid sid owed m)

-- `in_flight`
abbrev pub in_flight : Machine → ℕ
in_flight m = length m.pending

-- `streams_on`
unfoldable pub streams_on : ℕ → Dict Pending → List ℕ
streams_on pathid [] = []
streams_on pathid ((sid, p) ∷ pending) =
    let more = streams_on pathid pending in if p.pathid == pathid then sid ∷ more else more

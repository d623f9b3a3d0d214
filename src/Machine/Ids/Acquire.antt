-- ===== src/Machine/Ids/Acquire.antt =====
-- The operations of proto/machine.py that hand out stream ids and take them back.
use xrdclient.Prelude.{
  ℕ, ◌+◌, ◌≤◌, ◌≡◌, refl, arith, false, List, [], ◌∷◌, ◌==◌, mem-add, mem-keys-without,
}
use xrdclient.Errors.{ok, err, Fault}
use xrdclient.Machine.Types.{Machine}
use xrdclient.Machine.Streams.{in_use, acquire_sid, release, abandon}
use xrdclient.Machine.Ids

-- What an operation may do: no id gains a claim.
abbrev pub Keeps : Machine → Machine → Type 0
Keeps m m' = (x : ℕ) → Ids.claims x m' ≤ Ids.claims x m

-- An id that was handed out: nobody holds it, and no id is held twice.
abbrev pub IsFresh : ℕ → Machine → Type 0
IsFresh sid m = (x : ℕ) → Ids.claims x m + Ids.tally (sid == x) ≤ 1

acquired :
    (m : Machine) (free : List ℕ) (sid : ℕ)
    → m.free ≡ free
    → Ids.IsApart m
    → (acquire_sid m).0 ≡ ok sid
    → IsFresh sid (acquire_sid m).1 × (in_use sid m ≡ false)
unfolding acquire_sid
acquired m [] sid e apart h = (λ x. ground (arith, apart x), ground arith)
acquired m (y ∷ free) sid e apart h = (λ x. ground (arith, apart x), ground (arith, apart sid))

-- Where no id is held twice, the id that `_acquire_sid` returns is held by no pending request, no lease and no late reply, is
-- not in the line of free ids any more, and no id is held twice.
pub acquire_sid-IsFresh :
    (m : Machine) (sid : ℕ)
    → Ids.IsApart m
    → (acquire_sid m).0 ≡ ok sid
    → IsFresh sid (acquire_sid m).1 × (in_use sid m ≡ false)
acquire_sid-IsFresh m sid apart h = acquired m m.free sid refl apart h

refused :
    (m : Machine) (free : List ℕ) (e : Fault)
    → m.free ≡ free
    → (acquire_sid m).0 ≡ err e
    → Keeps m (acquire_sid m).1
unfolding acquire_sid
refused m [] e f h x = ground arith
refused m (y ∷ free) e f h x = ground arith

pub acquire_sid-refused :
    (m : Machine) (e : Fault) → (acquire_sid m).0 ≡ err e → Keeps m (acquire_sid m).1
acquire_sid-refused m e h = refused m m.free e refl h

pub release-Keeps : (sid : ℕ) (m : Machine) → Keeps m (release sid m)
unfolding release
release-Keeps sid m x =
    ground (arith, mem-keys-without sid x m.pending, Ids.count-concat x sid m.free)

pub abandon-Keeps : (sid : ℕ) (m : Machine) → Ids.IsApart m → Keeps m (abandon sid m)
unfolding abandon
abandon-Keeps sid m apart x =
    ground (arith, mem-keys-without sid x m.pending, mem-add sid x m.retired)

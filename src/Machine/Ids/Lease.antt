-- ===== src/Machine/Ids/Lease.antt =====
-- The bulk reader's leases (proto/machine.py: `lease_sids`, `release_sids`, `retire_sids`).
use xrdclient.Prelude.{
  ℕ, zero, suc, ◌+◌, ◌≤◌, ◌≡◌, refl, arith, false, List, [], ◌∷◌, ◌++◌, mem, add, discard, mem-add,
  mem-discard, length, length-append, inl, inr, ltb, Bool-cases,
}
use xrdclient.Errors.{Result, ok, err, Result-cases}
use xrdclient.Machine.Types.{Machine}
use xrdclient.Machine.Streams.{
  acquire_sid, lease_loop, lease_sids, release_sids, retire_sid, retire_sids,
}
use xrdclient.Machine.Ids
use xrdclient.Machine.Ids.Acquire.{IsFresh, acquire_sid-IsFresh, acquire_sid-refused}

abbrev lease_one : ℕ → Machine → Machine
lease_one sid m = record m { leased = add sid m.leased }

lease_one-IsApart : (sid : ℕ) (m : Machine) → IsFresh sid m → Ids.IsApart (lease_one sid m)
lease_one-IsApart sid m fresh x = ground (arith, fresh x, mem-add sid x m.leased)

-- Each id of the list is leased, and none occurs twice.
abbrev pub AreLeased : List ℕ → Machine → Type 0
AreLeased sids m = (x : ℕ) → Ids.count x sids ≤ Ids.tally (mem x m.leased)

-- What `lease_sids` may end in: n more ids, all of them leased; or an exception. No id is held
-- twice in either case.
abbrev pub Leases : ℕ → Result (List ℕ) × Machine → Type 0
Leases n (ok sids, m) = (length sids ≡ n) × AreLeased sids m × Ids.IsApart m
Leases n (err e, m) = Ids.IsApart m

leased_after :
    (sid : ℕ) (leased : List ℕ) (m m' : Machine)
    → m'.leased ≡ m.leased
    → AreLeased leased m
    → mem sid m.leased ≡ false
    → AreLeased (leased ++ (sid ∷ [])) (lease_one sid m')
leased_after sid leased m m' e old fresh x =
    ground (arith, old x, Ids.count-concat x sid leased, mem-add sid x m'.leased)

leased-acquire : (m : Machine) (free : List ℕ) → m.free ≡ free → (acquire_sid m).1.leased ≡ m.leased
unfolding acquire_sid
leased-acquire m [] e = ground arith
leased-acquire m (y ∷ free) e = ground arith

lease_loop-Leases :
    (n k t : ℕ) (leased : List ℕ) (m : Machine)
    → k + n ≡ t
    → length leased ≡ k
    → AreLeased leased m
    → Ids.IsApart m
    → Leases t (lease_loop n leased m)
unfolding lease_loop
lease_loop-Leases zero k t leased m total e old apart = (omega arith, old, apart)
lease_loop-Leases (suc n) k t leased m total e old apart = elim (Result-cases (acquire_sid m).0) [
  | inl (sid, got) ↦
      let m' = (acquire_sid m).1 in
      let fresh = acquire_sid-IsFresh m sid apart got in
      rw got (
        lease_loop-Leases n (suc k) t (leased ++ (sid ∷ [])) (lease_one sid m') (omega arith)
          (omega (arith, length-append leased (sid ∷ [])))
          (leased_after sid leased m m' (leased-acquire m m.free refl) old
            (ground (arith, fresh.1)))
          (lease_one-IsApart sid m' fresh.0))
  | inr (f, refusal) ↦ rw refusal (λ x. ground (arith, apart x, acquire_sid-refused m f refusal x))
]

-- Where no id is held twice, a lease of n ids returns n different ids, every one of them leased, or
-- raises; whichever it does, no id is held twice afterwards.
pub lease_sids-Leases : (n : ℕ) (m : Machine) → Ids.IsApart m → Leases n (lease_sids n m)
unfolding lease_sids
lease_sids-Leases n m apart = elim (Bool-cases (ltb n 1)) [
  | inl few ↦ rw few apart
  | inr enough ↦
      rw enough (lease_loop-Leases n 0 n [] m (omega arith) refl (λ x. ground arith) apart)
]

release_one : ℕ → Machine → Machine
release_one sid m = record m { leased = discard sid m.leased; free = m.free ++ (sid ∷ []) }

rest-leased :
    (sid : ℕ) (sids : List ℕ) (m m' : Machine)
    → m'.leased ≡ discard sid m.leased
    → AreLeased (sid ∷ sids) m
    → AreLeased sids m'
rest-leased sid sids m m' e own x = ground (arith, own x, mem-discard sid x m.leased)

-- Giving back ids that are leased, each once: no id is held twice.
pub release_sids-IsApart :
    (sids : List ℕ) (m : Machine)
    → AreLeased sids m
    → Ids.IsApart m
    → Ids.IsApart (release_sids sids m)
unfolding release_sids release_one
release_sids-IsApart [] m own apart = apart
release_sids-IsApart (sid ∷ sids) m own apart =
    release_sids-IsApart sids (release_one sid m)
      (rest-leased sid sids m (release_one sid m) refl own)
      (λ x.
        ground (arith, own x, apart x, mem-discard sid x m.leased, Ids.count-concat x sid m.free))

retire_sid-IsApart :
    (sid : ℕ) (sids owed : List ℕ) (m : Machine)
    → AreLeased (sid ∷ sids) m
    → Ids.IsApart m
    → Ids.IsApart (retire_sid sid owed m)
unfolding retire_sid
retire_sid-IsApart sid sids owed m own apart x = ground (
  arith,
  own x,
  apart x,
  mem-discard sid x m.leased,
  mem-add sid x m.retired,
  Ids.count-concat x sid m.free,
)

leased-retire_sid :
    (sid : ℕ) (owed : List ℕ) (m : Machine) → (retire_sid sid owed m).leased ≡ discard sid m.leased
unfolding retire_sid
leased-retire_sid sid owed m = ground arith

-- So too where some of them are still owed a reply and are kept back.
pub retire_sids-IsApart :
    (sids owed : List ℕ) (m : Machine)
    → AreLeased sids m
    → Ids.IsApart m
    → Ids.IsApart (retire_sids sids owed m)
unfolding retire_sids
retire_sids-IsApart [] owed m own apart = apart
retire_sids-IsApart (sid ∷ sids) owed m own apart =
    retire_sids-IsApart sids owed (retire_sid sid owed m)
      (rest-leased sid sids m (retire_sid sid owed m) (leased-retire_sid sid owed m) own)
      (retire_sid-IsApart sid sids owed m own apart)

-- ===== src/Machine/Ids.antt =====
-- Stream ids (proto/machine.py): how many of the four books that a machine keeps hold an id.
pub mod Acquire
pub mod Lease
pub mod Outbound
pub mod Answers
pub mod Bringup
pub mod Inbound
pub mod Runs
use xrdclient.Prelude.{
  ℕ, ◌+◌, ◌≤◌, ◌≡◌, Bool, List, [], ◌∷◌, ◌++◌, ◌==◌, if◌then◌else◌, keys, mem, arith, refl,
}
use xrdclient.Machine.Types.{Machine}

abbrev pub tally : Bool → ℕ
tally b = if b then 1 else 0

abbrev pub count : ℕ → List ℕ → ℕ
count x [] = 0
count x (y ∷ ys) = tally (y == x) + count x ys

-- The claims on an id: its places in the line of free ids, and whether a pending request, a lease
-- or a late reply holds it.
abbrev pub claims : ℕ → Machine → ℕ
claims x m =
    count x m.free
    + (tally (mem x (keys m.pending)) + (tally (mem x m.leased) + tally (mem x m.retired)))

-- No id is held twice.
abbrev pub IsApart : Machine → Type 0
IsApart m = (x : ℕ) → claims x m ≤ 1

pub count-concat : (x y : ℕ) (ys : List ℕ) → count x (ys ++ (y ∷ [])) ≡ count x ys + tally (y == x)
count-concat x y [] = ground arith
count-concat x y (z ∷ ys) = ground (arith, count-concat x y ys)

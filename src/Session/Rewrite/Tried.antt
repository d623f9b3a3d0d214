-- ===== src/Session/Rewrite/Tried.antt =====
-- The servers that a path says were tried (session/_rewrite.py: `with_tried`, `_without_tried`).
use xrdclient.Prelude.{
  ◌≡◌, refl, ap, ◌∙◌, false, List, [], ◌∷◌, ◌++◌, All, All-append, append-nil, Bool-cases, inl, inr,
}
use xrdclient.Errors.{Bytes}
use xrdclient.Session.Pool.{same_text}
use xrdclient.Session.Text.{split, join, partition, filled, among}
use xrdclient.Session.Text.Laws.{
  Lacks, IsFilled, split-join, split-All, split-All_other, join-Lacks, partition-behind, All-both,
  All-map, split-join_filled, filled-All, filled-IsFilled, filled_all,
}
use xrdclient.Session.Rewrite.{
  and_sign, comma, equals_sign, tried_key, triedrc_key, sort_items, without_tried, tried_item,
  reason_items,
}

-- A host as it may stand in a list of hosts.
abbrev pub IsHost : Bytes → Type 0
IsHost host = IsFilled host × Lacks comma host × Lacks and_sign host

-- A parameter that is not about servers that were tried.
abbrev pub IsOther : Bytes → Type 0
IsOther item =
    (same_text (partition equals_sign item).0 tried_key ≡ false)
    × (same_text (partition equals_sign item).0 triedrc_key ≡ false)

abbrev pub IsItem : Bytes → Type 0
IsItem item = IsFilled item × Lacks and_sign item

-- No text twice.
abbrev pub Distinct : List Bytes → Type 0
Distinct [] = Unit {0}
Distinct (t ∷ ts) = (among t ts ≡ false) × Distinct ts

filled-IsHost : (value : Bytes) → Lacks and_sign value → All IsHost (filled (split comma value))
filled-IsHost value h =
    let parts = split comma value in
    let clean : (t : Bytes) → Lacks comma t → Lacks and_sign t → Lacks comma t × Lacks and_sign t =
      λ t a b. (a, b) in
    let host : (t : Bytes) → IsFilled t → Lacks comma t × Lacks and_sign t → IsHost t =
      λ t a b. (a, b.0, b.1) in
    All-both host (filled parts) (filled-IsFilled parts) (
      filled-All (λ (t : Bytes). Lacks comma t × Lacks and_sign t) parts
        (All-both clean parts (split-All comma value) (split-All_other comma and_sign value h)))

-- What `_without_tried` reads: parameters about something else, and hosts.
pub sort_items-reads :
    (items : List Bytes)
    → All IsItem items
    → All (λ (t : Bytes). IsItem t × IsOther t) (sort_items items).0
      × All IsHost (sort_items items).1
unfolding sort_items
sort_items-reads [] h = (tt, tt)
sort_items-reads (item ∷ items) h =
    let r = partition equals_sign item in
    let rest = sort_items-reads items h.1 in
    let value = filled (split comma r.2) in
    elim (Bool-cases (same_text r.0 tried_key)) [
      | inl e ↦ rw e (
        rest.0,
        All-append IsHost value (sort_items items).1
            (filled-IsHost r.2 (partition-behind equals_sign and_sign item h.0.1)) rest.1,
      )
      | inr e ↦ rw e (elim (Bool-cases (same_text r.0 triedrc_key)) [
        | inl f ↦ rw f rest
        | inr f ↦ rw f (((h.0, (e, f)), rest.0), rest.1)
      ])
    ]

-- Parameters about something else are all kept.
sort_items-others :
    (items more : List Bytes)
    → All (λ (t : Bytes). IsItem t × IsOther t) items
    → sort_items (items ++ more) ≡ (items ++ (sort_items more).0, (sort_items more).1)
unfolding sort_items
sort_items-others [] more h = refl
sort_items-others (item ∷ items) more h =
    rw (sort_items-others items more h.1, h.0.1.0, h.0.1.1) refl

host_names : (names : List Bytes) → All IsHost names → All (Lacks comma) names × All IsFilled names
host_names [] h = (tt, tt)
host_names (t ∷ ts) h = let rest = host_names ts h.1 in ((h.0.1, rest.0), (h.0.0, rest.1))

-- The list of hosts comes back as it was written, and the reason is no parameter of the caller's.
sort_items-tried :
    (name : Bytes) (names : List Bytes) (reason : Bytes)
    → All IsHost (name ∷ names)
    → sort_items (tried_item (name ∷ names) ∷ reason_items reason) ≡ ([], name ∷ names)
unfolding sort_items same_text
sort_items-tried name names [] h =
    let parts = host_names (name ∷ names) h in
    rw (split-join comma name names parts.0, filled_all (name ∷ names) parts.1, append-nil names)
      refl
sort_items-tried name names (b ∷ reason) h =
    let parts = host_names (name ∷ names) h in
    rw (split-join comma name names parts.0, filled_all (name ∷ names) parts.1, append-nil names)
      refl

tried_item-IsItem : (names : List Bytes) → All IsHost names → IsItem (tried_item names)
tried_item-IsItem names h = (refl, join-Lacks comma and_sign names refl (lacking names h))
  where
    lacking : (ts : List Bytes) → All IsHost ts → All (Lacks and_sign) ts
    lacking [] h = tt
    lacking (t ∷ ts) h = (h.0.2, lacking ts h.1)

reason_items-IsItem : (reason : Bytes) → Lacks and_sign reason → All IsItem (reason_items reason)
reason_items-IsItem [] h = tt
reason_items-IsItem (b ∷ reason) h = ((refl, h), tt)

-- What is written behind the question mark is read back.
pub items-read :
    (kept : List Bytes) (name : Bytes) (names : List Bytes) (reason : Bytes)
    → All (λ (t : Bytes). IsItem t × IsOther t) kept
    → All IsHost (name ∷ names)
    → Lacks and_sign reason
    → without_tried (join and_sign (kept ++ (tried_item (name ∷ names) ∷ reason_items reason)))
      ≡ (kept, name ∷ names)
unfolding without_tried
items-read kept name names reason others hosts clean =
    let written = tried_item (name ∷ names) ∷ reason_items reason in
    let items = kept ++ written in
    let drop_other : (t : Bytes) → IsItem t × IsOther t → IsItem t = λ t a. a.0 in
    let lacking : (t : Bytes) → IsItem t → Lacks and_sign t = λ t a. a.1 in
    let full : (t : Bytes) → IsItem t → IsFilled t = λ t a. a.0 in
    let new : All IsItem written =
      (tried_item-IsItem (name ∷ names) hosts, reason_items-IsItem reason clean) in
    let all : All IsItem items =
      All-append IsItem kept written (All-map drop_other kept others) new in
    let parsed : filled (split and_sign (join and_sign items)) ≡ items =
      ap filled (
        split-join_filled and_sign kept (tried_item (name ∷ names)) (reason_items reason)
          (All-map lacking items all))
      ∙ filled_all items (All-map full items all) in
    ap sort_items parsed
    ∙ rw (sort_items-others kept written others, sort_items-tried name names reason hosts)
        (rw append-nil refl)

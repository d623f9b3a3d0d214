-- ===== src/Session/Rewrite/Hops.antt =====
-- A path that goes back to the manager again and again (session/_rewrite.py: `with_tried`).
use xrdclient.Prelude.{
  ◌≡◌, refl, sym, ap, ◌∙◌, arith, Bool, true, ◌||◌, List, [], ◌∷◌, ◌++◌, truthy, All, All-append,
  append_assoc,
}
use xrdclient.Errors.{Bytes}
use xrdclient.Session.Text.{split, join, partition, filled, among}
use xrdclient.Session.Text.Laws.{
  Lacks, IsFilled, split-All, All-both, filled-All, filled-IsFilled, partition-append,
  partition-Lacks, among-append, same_text_refl,
}
use xrdclient.Session.Rewrite.{
  and_sign, question_mark, merged, without_tried, tried_item, reason_items, put_together,
  with_tried,
}
use xrdclient.Session.Rewrite.Tried.{
  IsHost, IsItem, IsOther, Distinct, sort_items-reads, items-read,
}
use xrdclient.Session.Rewrite.Merge.{
  among-merged, merged-All, merged-append, merged-Distinct, merged-nil,
}

-- A path without its query, the other parameters of the query, and the servers it says were tried.
abbrev pub base_of : Bytes → Bytes
base_of path = (partition question_mark path).0

abbrev pub read_back : Bytes → List Bytes × List Bytes
read_back path = without_tried (partition question_mark path).2

read_back-reads :
    (path : Bytes)
    → All (λ (t : Bytes). IsItem t × IsOther t) (read_back path).0 × All IsHost (read_back path).1
unfolding without_tried
read_back-reads path =
    let query = (partition question_mark path).2 in
    let parts = split and_sign query in
    let item : (t : Bytes) → IsFilled t → Lacks and_sign t → IsItem t = λ t a b. (a, b) in
    sort_items-reads (filled parts) (
      All-both item (filled parts) (filled-IsFilled parts)
        (filled-All (Lacks and_sign) parts (split-All and_sign query)))

module _ (path : Bytes) (hosts : List Bytes) (reason : Bytes) where
  -- The hosts that `with_tried` names.
  abbrev pub names_for : List Bytes
  names_for = merged [] ((read_back path).1 ++ hosts)

  with_tried-put_together :
      truthy path ≡ true
      → truthy hosts ≡ true
      → with_tried path hosts reason
        ≡ put_together (base_of path) (read_back path).0 names_for reason
  unfolding with_tried
  with_tried-put_together p h = rw (p, h) refl

names-some :
    (earlier hosts : List Bytes)
    → truthy hosts ≡ true
    → truthy (merged [] (earlier ++ hosts)) ≡ true
names-some earlier [] h = ground (arith, h)
names-some earlier (host ∷ hosts) h = some_of (merged [] (earlier ++ (host ∷ hosts))) named
  where
    named : among host (merged [] (earlier ++ (host ∷ hosts))) ≡ true
    named = ground (
      arith,
      among-merged host [] (earlier ++ (host ∷ hosts)),
      among-append host earlier (host ∷ hosts),
      same_text_refl host,
    )

    some_of : (ts : List Bytes) → among host ts ≡ true → truthy ts ≡ true
    some_of [] e = ground (arith, e)
    some_of (t ∷ ts) e = refl

items-read_names :
    (kept names : List Bytes) (reason : Bytes)
    → All (λ (t : Bytes). IsItem t × IsOther t) kept
    → All IsHost names
    → truthy names ≡ true
    → Lacks and_sign reason
    → without_tried (join and_sign (kept ++ (tried_item names ∷ reason_items reason)))
      ≡ (kept, names)
items-read_names kept [] reason others hosts some_name clean = ground (arith, some_name)
items-read_names kept (name ∷ names) reason others hosts some_name clean =
    items-read kept name names reason others hosts clean

-- What is put together is read back.
put_together-reads :
    (base : Bytes) (kept names : List Bytes) (reason : Bytes)
    → Lacks question_mark base
    → All (λ (t : Bytes). IsItem t × IsOther t) kept
    → All IsHost names
    → truthy names ≡ true
    → Lacks and_sign reason
    → (base_of (put_together base kept names reason) ≡ base)
      × (read_back (put_together base kept names reason) ≡ (kept, names))
put_together-reads base kept names reason plain others hosts some_name clean =
    let query = join and_sign (kept ++ (tried_item names ∷ reason_items reason)) in
    let cut = partition-append question_mark base query plain in
    (
      ap (λ (r : Bytes × Bool × Bytes). r.0) cut,
      ap (λ (r : Bytes × Bool × Bytes). without_tried r.2) cut
          ∙ items-read_names kept names reason others hosts some_name clean,
    )

-- For hosts that are not empty and have no `,` or `&`, and a reason without `&`: the path that
-- `with_tried` makes has the base of the path it was given, and its query has that path's other
-- parameters in their order, and names the servers that were named before and these, each once.
pub with_tried-reads :
    (path : Bytes) (hosts : List Bytes) (reason : Bytes)
    → truthy path ≡ true
    → truthy hosts ≡ true
    → All IsHost hosts
    → Lacks and_sign reason
    → (base_of (with_tried path hosts reason) ≡ base_of path)
      × (read_back (with_tried path hosts reason)
          ≡ ((read_back path).0, names_for path hosts reason))
      × Distinct (names_for path hosts reason)
      × ((t : Bytes)
          → among t (names_for path hosts reason) ≡ (among t (read_back path).1 || among t hosts))
with_tried-reads path hosts reason p h are_hosts clean =
    let old = read_back-reads path in
    let earlier = (read_back path).1 in
    let names = names_for path hosts reason in
    let reads =
      put_together-reads (base_of path) (read_back path).0 names reason
        (partition-Lacks question_mark path) old.0
        (merged-All IsHost [] (earlier ++ hosts) tt
          (All-append IsHost earlier hosts old.1 are_hosts))
        (names-some earlier hosts h) clean in
    let made = with_tried-put_together path hosts reason p h in
    (
      ap base_of made ∙ reads.0,
      ap read_back made ∙ reads.1,
      merged-Distinct [] (earlier ++ hosts) tt,
      λ t. among-merged t [] (earlier ++ hosts) ∙ among-append t earlier hosts,
    )

truthy-put_together :
    (base : Bytes) (kept names : List Bytes) (reason : Bytes)
    → truthy (put_together base kept names reason) ≡ true
truthy-put_together [] kept names reason = refl
truthy-put_together (b ∷ base) kept names reason = refl

merged-twice :
    (earlier more others : List Bytes)
    → merged [] (merged [] (earlier ++ more) ++ others) ≡ merged [] (earlier ++ (more ++ others))
merged-twice earlier more others =
    let names = merged [] (earlier ++ more) in
    merged-append [] names others
    ∙ ap (λ (ts : List Bytes). merged ts others)
        (merged-nil names (merged-Distinct [] (earlier ++ more) tt))
    ∙ sym (merged-append [] (earlier ++ more) others)
    ∙ ap (merged []) (append_assoc earlier more others)

-- For a path that is not empty, two lists of servers that are not empty, hosts in the first that are
-- not empty and have no comma or `&`, and a first reason without `&`: a path that goes back to the
-- manager twice says what it would have said of both lists of servers at once, with the later reason.
pub with_tried-with_tried :
    (path : Bytes) (hosts more : List Bytes) (first later : Bytes)
    → truthy path ≡ true
    → truthy hosts ≡ true
    → truthy more ≡ true
    → All IsHost hosts
    → Lacks and_sign first
    → with_tried (with_tried path hosts first) more later ≡ with_tried path (hosts ++ more) later
with_tried-with_tried path hosts more first later p h m are_hosts clean =
    let path' = with_tried path hosts first in
    let reads = with_tried-reads path hosts first p h are_hosts clean in
    let made = with_tried-put_together path hosts first p h in
    let p' : truthy path' ≡ true =
      ap truthy made
      ∙ truthy-put_together (base_of path) (read_back path).0 (names_for path hosts first) first in
    with_tried-put_together path' more later p' m
    ∙ rw (reads.0, reads.1)
        (ap (λ (names : List Bytes). put_together (base_of path) (read_back path).0 names later)
          (merged-twice (read_back path).1 hosts more))
    ∙ sym (with_tried-put_together path (hosts ++ more) later p (truthy-append hosts more h))
  where
    truthy-append : (ts us : List Bytes) → truthy ts ≡ true → truthy (ts ++ us) ≡ true
    truthy-append [] us e = ground (arith, e)
    truthy-append (t ∷ ts) us e = refl

-- ===== src/Session/Rewrite.antt =====
-- session/_rewrite.py: what a request that is issued again says, after a redirect or a server that
-- failed.
--
-- A request is the fields that a token may be folded into, by the number of the field's name.
pub mod Tried
pub mod Merge
pub mod Hops
pub mod Tokens
use xrdclient.Prelude.{
  ℕ, Bool, true, false, ◌&&◌, ◌||◌, not, List, [], ◌∷◌, ◌++◌, Option, none, some, map, ◌==◌,
  if◌then◌else◌, truthy, mem, Dict, put,
}
use xrdclient.Errors.{Bytes}
use xrdclient.Session.Pool.{same_text}
use xrdclient.Session.Text.{split, join, partition, filled, among}

-- the characters & , = ? and the keys
abbrev pub and_sign : ℕ
and_sign = 38

abbrev pub comma : ℕ
comma = 44

abbrev pub equals_sign : ℕ
equals_sign = 61

abbrev pub question_mark : ℕ
question_mark = 63

abbrev pub tried_key : Bytes
tried_key = 116 ∷ 114 ∷ 105 ∷ 101 ∷ 100 ∷ []

abbrev pub triedrc_key : Bytes
triedrc_key = tried_key ++ (114 ∷ 99 ∷ [])

-- `PathFields`
pub data Field : Type 0 where
  one : Bytes → Field
  many : List Bytes → Field

abbrev pub PathFields : Type 0
PathFields = Dict Field

-- `_with_token`
unfoldable pub with_token : Bytes → Bytes → Bytes
with_token path token =
    if not (truthy token) || not (truthy path)
    then path
    else path ++ ((if mem question_mark path then and_sign else question_mark) ∷ token)

-- `_retarget`
abbrev pub retoken : Bytes → Field → Field
retoken token (one path) = one (with_token path token)
retoken token (many paths) = many (map (λ path. with_token path token) paths)

unfoldable pub retarget : Dict Field → PathFields → Bytes → Dict Field
retarget request [] token = request
retarget request ((name, value) ∷ original) token =
    retarget (put name (retoken token value) request) original token

-- `_repath`, which changes the last field that is a path and not empty
abbrev pub onto : Bytes → Bytes × Bool × Bytes → Bytes
onto path (before, true, query) = path ++ (question_mark ∷ query)
onto path (before, false, query) = path ++ query

abbrev pub repath_field : Bytes → Field → Option Field
repath_field path (one []) = none
repath_field path (one (b ∷ value)) = some (one (onto path (partition question_mark (b ∷ value))))
repath_field path (many paths) = none

abbrev pub repath_here : ℕ → Field → Option Field → PathFields × Bool → PathFields × Bool
repath_here name value changed (rest, true) = ((name, value) ∷ rest, true)
repath_here name value none (rest, false) = ((name, value) ∷ rest, false)
repath_here name value (some new) (rest, false) = ((name, new) ∷ rest, true)

unfoldable pub repath : Bytes → PathFields → PathFields × Bool
repath path [] = ([], false)
repath path ((name, value) ∷ original) =
    repath_here name value (repath_field path value) (repath path original)

-- `_base_path` of a snapshot
unfoldable pub base_path : PathFields → Bytes
base_path [] = []
base_path ((name, one []) ∷ original) = base_path original
base_path ((name, one (b ∷ value)) ∷ original) = (partition question_mark (b ∷ value)).0
base_path ((name, many paths) ∷ original) = base_path original

-- `tried`
unfoldable pub tried : List Bytes → Bytes → List Bytes
tried hosts host = if among host hosts then hosts else hosts ++ (host ∷ [])

-- for host in more: names = tried(names, host)
unfoldable pub merged : List Bytes → List Bytes → List Bytes
unfolding tried
merged names [] = names
merged names (host ∷ more) = merged (tried names host) more

-- one round of `_without_tried`, in front of the rounds behind it
abbrev pub sorted_in :
    Bytes → Bytes × Bool × Bytes → List Bytes × List Bytes → List Bytes × List Bytes
sorted_in item (key, found, value) (kept, earlier) =
    if same_text key tried_key
    then (kept, filled (split comma value) ++ earlier)
    else (if not (same_text key triedrc_key) then (item ∷ kept, earlier) else (kept, earlier))

unfoldable pub sort_items : List Bytes → List Bytes × List Bytes
sort_items [] = ([], [])
sort_items (item ∷ items) = sorted_in item (partition equals_sign item) (sort_items items)

-- `_without_tried`
unfoldable pub without_tried : Bytes → List Bytes × List Bytes
unfolding sort_items
without_tried query = sort_items (filled (split and_sign query))

abbrev pub tried_item : List Bytes → Bytes
tried_item names = tried_key ++ (equals_sign ∷ join comma names)

abbrev pub reason_items : Bytes → List Bytes
reason_items [] = []
reason_items (b ∷ reason) = (triedrc_key ++ (equals_sign ∷ (b ∷ reason))) ∷ []

-- `with_tried`
abbrev pub put_together : Bytes → List Bytes → List Bytes → Bytes → Bytes
put_together base kept names reason =
    base ++ (question_mark ∷ join and_sign (kept ++ (tried_item names ∷ reason_items reason)))

unfoldable pub with_tried : Bytes → List Bytes → Bytes → Bytes
unfolding without_tried merged
with_tried path hosts reason =
    if not (truthy hosts) || not (truthy path)
    then path
    else (let (base, _, query) = partition question_mark path in
        let (kept, earlier) = without_tried query in
        put_together base kept (merged [] (earlier ++ hosts)) reason)

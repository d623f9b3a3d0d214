-- ===== src/Tests/Rewrites.antt =====
-- Requests that are issued again (session/_rewrite.py) at concrete inputs.
use xrdclient.Prelude.{some, ◌≡◌, refl, ◌||◌, List, [], ◌∷◌, ◌++◌, Dict, lookup}
use xrdclient.Errors.{Bytes}
use xrdclient.Session.Pool.{same_text}
use xrdclient.Session.Text.{among}
use xrdclient.Session.Rewrite.{
  Field, one, many, retarget, tried, merged, sort_items, without_tried, with_tried,
}
use xrdclient.Session.Rewrite.Tried.{Distinct}
use xrdclient.Session.Rewrite.Hops.{
  base_of, read_back, names_for, with_tried-reads, with_tried-with_tried,
}
use xrdclient.Session.Rewrite.Tokens.{Retargeted, retarget-retarget}

-- /f?a=1&tried=x
abbrev path : Bytes
path = 47 ∷ 102 ∷ 63 ∷ 97 ∷ 61 ∷ 49 ∷ 38 ∷ 116 ∷ 114 ∷ 105 ∷ 101 ∷ 100 ∷ 61 ∷ 120 ∷ []

-- x and y
abbrev hosts : List Bytes
hosts = (120 ∷ []) ∷ (121 ∷ []) ∷ []

-- /f?a=1&tried=x,y&triedrc=e
abbrev again : Bytes
again = path ++ (44 ∷ 121 ∷ 38 ∷ 116 ∷ 114 ∷ 105 ∷ 101 ∷ 100 ∷ 114 ∷ 99 ∷ 61 ∷ 101 ∷ [])

says_again : with_tried path hosts (101 ∷ []) ≡ again
unfolding with_tried without_tried sort_items merged tried same_text
says_again = refl

with_tried-reads_example :
    (base_of (with_tried path hosts (101 ∷ [])) ≡ base_of path)
    × (read_back (with_tried path hosts (101 ∷ []))
        ≡ ((read_back path).0, names_for path hosts (101 ∷ [])))
    × Distinct (names_for path hosts (101 ∷ []))
    × ((t : Bytes)
        → among t (names_for path hosts (101 ∷ [])) ≡ (among t (read_back path).1 || among t hosts))
with_tried-reads_example =
    with_tried-reads path hosts (101 ∷ []) refl refl ((refl, refl, refl), ((refl, refl, refl), tt))
      refl

with_tried-with_tried_example :
    with_tried (with_tried path hosts (101 ∷ [])) ((122 ∷ []) ∷ []) []
    ≡ with_tried path (hosts ++ ((122 ∷ []) ∷ [])) []
with_tried-with_tried_example =
    with_tried-with_tried path hosts ((122 ∷ []) ∷ []) (101 ∷ []) [] refl refl refl
      ((refl, refl, refl), ((refl, refl, refl), tt)) refl

-- a rename, of which the second path has a query
abbrev fields : Dict Field
fields = (0, one (47 ∷ 97 ∷ [])) ∷ (1, one path) ∷ (2, many []) ∷ []

retarget-retarget_example :
    (lookup 1 (retarget (retarget fields fields (116 ∷ [])) fields (117 ∷ []))
      ≡ lookup 1 (retarget fields fields (117 ∷ [])))
    × Retargeted
        (117 ∷ [])
        (some (one path))
        (lookup 1 fields)
        (lookup 1 (retarget fields fields (117 ∷ [])))
retarget-retarget_example =
    retarget-retarget fields fields (116 ∷ []) (117 ∷ []) (refl, (refl, (refl, tt))) 1

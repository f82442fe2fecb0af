-- ===== src/Gitreceive/NodeSelector/Parts.antt =====
-- What a node selector says.
use builder.Text.Equality.{eqb_nil}
use builder.Base.{
  All-append, length, if◌then◌else◌, ◌==◌, err, codes, arith, ◌≢◌, suc, ℕ, All, ok, Bytes, map,
  ◌++◌, ◌∷◌, [], List, ◌∙◌, ap, refl, ◌≡◌,
}
use builder.Text.{join, put_front, split, trim_space}
use builder.Text.Search.{Lacks}
use builder.Text.Split.{split-join, split-ne-nil, split_absent, split-part}
use builder.Maps.{Map, insert}
use builder.Gitreceive.NodeSelector.{build_builder_pod_node_selector, add_parts}

-- A label and its value, as the configuration writes them.
abbrev pub print : Bytes × Bytes → Bytes
print (key, value) = key ++ b':' ∷ value

abbrev pub IsLabel : Bytes × Bytes → Type 0
IsLabel (key, value) = Lacks b':' key × Lacks b':' value × Lacks b',' key × Lacks b',' value

-- The map of some labels: a later one replaces an earlier one of the same trimmed name.
pub labels : List (Bytes × Bytes) → Map Bytes → Map Bytes
labels [] m = m
labels ((key, value) ∷ ls) m = labels ls (insert (trim_space key) (trim_space value) m)

split-print :
    (key value : Bytes)
    → Lacks b':' key
    → Lacks b':' value
    → split (print (key, value)) b':' ≡ key ∷ value ∷ []
split-print key value k v =
    split-part key value b':' k ∙ ap (λ (l : List Bytes). key ∷ l) (split_absent value b':' v)

add_parts-labels :
    (config : Bytes) (ls : List (Bytes × Bytes)) (m : Map Bytes)
    → All IsLabel ls
    → add_parts config (map print ls) m ≡ ok (labels ls m)
unfolding add_parts labels
add_parts-labels config [] m h = refl
add_parts-labels config ((key, value) ∷ ls) m h =
    rw (split-print key value h.0.0 h.0.1, add_parts)
      (add_parts-labels config ls (insert (trim_space key) (trim_space value) m) h.1)

print-Lacks : (l : Bytes × Bytes) → IsLabel l → Lacks b',' (print l)
print-Lacks (key, value) h = All-append _ key (b':' ∷ value) h.2 ((λ e. omega arith), h.3)

map-print-Lacks : (ls : List (Bytes × Bytes)) → All IsLabel ls → All (Lacks b',') (map print ls)
map-print-Lacks [] h = tt
map-print-Lacks (l ∷ ls) h = (print-Lacks l h.0, map-print-Lacks ls h.1)

print-ne-nil : (l : Bytes × Bytes) → print l ≢ []
print-ne-nil ([], value) e = cc
print-ne-nil ((c ∷ key), value) e = cc

join-ne-nil : (p : Bytes) (ps : List Bytes) (sep : Bytes) → p ≢ [] → join (p ∷ ps) sep ≢ []
unfolding join
join-ne-nil [] ps sep h e = h refl
join-ne-nil (c ∷ p) [] sep h e = cc
join-ne-nil (c ∷ p) (q ∷ ps) sep h e = cc

-- Labels `key:value` with commas between them, none of which has a colon or a comma in its key or its
-- value, are read as the map of these labels, trimmed of space; a later label replaces an earlier one of
-- the same key.
pub build_builder_pod_node_selector-labels :
    (l : Bytes × Bytes) (ls : List (Bytes × Bytes))
    → All IsLabel (l ∷ ls)
    → build_builder_pod_node_selector (join (map print (l ∷ ls)) (codes ","))
      ≡ ok (labels (l ∷ ls) [])
unfolding build_builder_pod_node_selector
build_builder_pod_node_selector-labels l ls h =
    rw
      (
        eqb_nil (join (map print (l ∷ ls)) (codes ","))
            (join-ne-nil (print l) (map print ls) (codes ",") (print-ne-nil l)),
        split-join (print l) (map print ls) b',' (map-print-Lacks (l ∷ ls) h),
      )
      (add_parts-labels (join (map print (l ∷ ls)) (codes ",")) (l ∷ ls) [] h)

-- How often a byte stands in a text.
abbrev pub count : ℕ → Bytes → ℕ
count b [] = 0
count b (c ∷ s) = if c == b then suc (count b s) else count b s

length-put_front :
    (c sep : ℕ) (ps : List Bytes)
    → ps ≢ []
    → length (put_front c sep ps) ≡ (if c == sep then suc (length ps) else length ps)
length-put_front c sep [] h = absurd (h refl)
length-put_front c sep (p ∷ ps) h = ground arith

length-split : (s : Bytes) (sep : ℕ) → length (split s sep) ≡ suc (count sep s)
unfolding split
length-split [] sep = refl
length-split (c ∷ s) sep =
    ground (arith, length-put_front c sep (split s sep) (split-ne-nil s sep), length-split s sep)

-- A part that does not have exactly one colon.
bad_part :
    (config line : Bytes) (lines ps : List Bytes) (m : Map Bytes)
    → split line b':' ≡ ps
    → length ps ≢ 2
    → add_parts config (line ∷ lines) m ≡ err (record { config = config })
unfolding add_parts
bad_part config line lines [] m e h = rw (e, add_parts)
bad_part config line lines (x ∷ []) m e h = rw (e, add_parts)
bad_part config line lines (x ∷ y ∷ []) m e h = absurd (h refl)
bad_part config line lines (x ∷ y ∷ z ∷ ps) m e h = rw (e, add_parts)

good_part :
    (config line : Bytes) (lines ps : List Bytes) (m : Map Bytes)
    → split line b':' ≡ ps
    → ((n : Map Bytes) → add_parts config lines n ≡ err (record { config = config }))
    → add_parts config (line ∷ lines) m ≡ err (record { config = config })
unfolding add_parts
good_part config line lines [] m e h = rw (e, add_parts)
good_part config line lines (x ∷ []) m e h = rw (e, add_parts)
good_part config line lines (x ∷ y ∷ []) m e h =
    rw (e, add_parts) (h (insert (trim_space x) (trim_space y) m))
good_part config line lines (x ∷ y ∷ z ∷ ps) m e h = rw (e, add_parts)

add_parts_bad :
    (config : Bytes) (before : List Bytes) (line : Bytes) (after : List Bytes) (m : Map Bytes)
    → count b':' line ≢ 1
    → add_parts config (before ++ line ∷ after) m ≡ err (record { config = config })
add_parts_bad config [] line after m h =
    bad_part config line after (split line b':') m refl
      (λ e. h (omega (arith, length-split line b':')))
add_parts_bad config (x ∷ before) line after m h =
    good_part config x (before ++ line ∷ after) (split x b':') m refl
      (λ n. add_parts_bad config before line after n h)

-- A configuration with a part between commas that has no colon, or more than one, is refused with the
-- error that holds the whole configuration.
pub build_builder_pod_node_selector_bad :
    (config : Bytes) (before : List Bytes) (line : Bytes) (after : List Bytes)
    → config ≢ []
    → split config b',' ≡ before ++ line ∷ after
    → count b':' line ≢ 1
    → build_builder_pod_node_selector config ≡ err (record { config = config })
unfolding build_builder_pod_node_selector
build_builder_pod_node_selector_bad config before line after ne parts h =
    rw (eqb_nil config ne, parts) (add_parts_bad config before line after [] h)

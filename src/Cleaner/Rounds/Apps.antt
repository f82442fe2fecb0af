-- ===== src/Cleaner/Rounds/Apps.antt =====
-- Which apps a round deletes, and which a later one does.
use builder.Base.{
  Bytes, true, false, List, [], ◌∷◌, ◌++◌, ◌&&◌, ◌≡◌, map, arith, Bool-cases, inl, inr,
}
use builder.Text.{to_lower}
use builder.Text.Equality.{eqb, eqb_iff, eqb_complete}
use builder.Cleaner.Members.{member, All-member}
use builder.Cleaner.Diff.{member-get_diff}
use builder.Cleaner.Round.{Listed, IsGone, get_diff-IsGone}
use builder.Cleaner.Selected.{among}
use builder.Cleaner.{
  DirEntry, dot_git_suffix, dir_has_git_suffix, get_diff, select_dirs, strip_suffixes,
}
use builder.Cleaner.Rounds.{is_listed}

-- The apps that a round deletes, of the entries that it reads.
abbrev pub gone_apps : List Bytes → List DirEntry → List Bytes
gone_apps nss es = get_diff nss (strip_suffixes (select_dirs es dir_has_git_suffix) dot_git_suffix)

is_listed-Listed : (name : Bytes) (es : List DirEntry) → is_listed name es ≡ true → Listed name es
is_listed-Listed name [] h = absurd (cc h)
is_listed-Listed name (e ∷ es) h = elim (Bool-cases (eqb e.name name && e.is_dir)) [
  | inl here ↦ inl (ground (arith, here, eqb_iff e.name name), ground (arith, here))
  | inr later ↦ inr (is_listed-Listed name es (ground (arith, h, later)))
]

pub Listed-is_listed :
    (name : Bytes) (es : List DirEntry) → Listed name es → is_listed name es ≡ true
Listed-is_listed name [] h = absurd h
Listed-is_listed name (e ∷ es) (inl (same, is_dir)) = rw (is_dir, eqb_complete e.name name same)
Listed-is_listed name (e ∷ es) (inr h) = ground (arith, Listed-is_listed name es h)

member-map-lower :
    (d : Bytes) (dirs : List Bytes)
    → member d dirs ≡ true
    → member (to_lower d) (map to_lower dirs) ≡ true
unfolding member
member-map-lower d [] h = absurd (cc h)
member-map-lower d (x ∷ dirs) h =
    ground (arith, eqb_iff x d, eqb_iff (to_lower x) (to_lower d), member-map-lower d dirs)

-- An app that is the name of a listed directory in lower case, and not that of a namespace, is deleted.
pub member-gone_apps :
    (d : Bytes) (nss : List Bytes) (es : List DirEntry)
    → is_listed (d ++ dot_git_suffix) es ≡ true
    → member (to_lower d) (map to_lower nss) ≡ false
    → member (to_lower d) (gone_apps nss es) ≡ true
member-gone_apps d nss es listed gone = ground (
  arith,
  member-get_diff (to_lower d) nss
      (strip_suffixes (select_dirs es dir_has_git_suffix) dot_git_suffix),
  member-map-lower d (strip_suffixes (select_dirs es dir_has_git_suffix) dot_git_suffix)
      (among d es (is_listed-Listed (d ++ dot_git_suffix) es listed)),
  gone,
)

-- Every namespace of the first list is in the second.
abbrev pub Includes : List Bytes → List Bytes → Type 0
Includes nss more =
    (x : Bytes) → member x (map to_lower nss) ≡ true → member x (map to_lower more) ≡ true

-- Where directories only went and namespaces only came, a later round deletes no other app.
pub gone_apps_again :
    (app : Bytes) (nss more : List Bytes) (before after : List DirEntry)
    → Includes nss more
    → ((name : Bytes) → is_listed name after ≡ true → is_listed name before ≡ true)
    → member app (gone_apps more after) ≡ true
    → member app (gone_apps nss before) ≡ true
gone_apps_again app nss more before after included shrunk h =
    from (All-member (IsGone [] more after) app _ (get_diff-IsGone [] more after) h)
  where
    from : IsGone [] more after app → member app (gone_apps nss before) ≡ true
    from (gone, (d, same, listed)) = rw same (
        member-gone_apps d nss before
          (shrunk (d ++ dot_git_suffix) (Listed-is_listed (d ++ dot_git_suffix) after listed))
          (rw (← same) (elim (Bool-cases (member app (map to_lower nss))) [
            | inl there ↦ absurd (cc (included app there, gone))
            | inr absent ↦ absent
          ])))

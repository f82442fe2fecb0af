-- ===== src/Cleaner/Selected.antt =====
-- Which apps a round sees.
use builder.Text.Trim.{has_suffix-append}
use builder.Cleaner.Round.{strip_suffix-append, Listed}
use builder.Base.{
  if◌then◌else◌, Bool, codes, ◌==◌, arith, inr, inl, length, Bytes, map, ◌++◌, ◌∷◌, [], List, false,
  true, refl, ◌≡◌,
}
use builder.Text.Equality.{eqb, eqb_refl, eqb_iff}
use builder.Text.{to_lower}
use builder.Cleaner.{DirEntry, dir_has_git_suffix, strip_suffixes, select_dirs, dot_git_suffix}
use builder.Cleaner.Members.{member}

pub member-map :
    (x : Bytes) (dirs : List Bytes)
    → to_lower x ≡ x
    → member x dirs ≡ true
    → member x (map to_lower dirs) ≡ true
unfolding member
member-map x [] low h = h
member-map x (d ∷ dirs) low h =
    ground (arith, eqb_iff d x, eqb_iff (to_lower d) x, member-map x dirs low)

kept : (d : Bytes) → (length (d ++ dot_git_suffix) == 0) ≡ false
kept [] = refl
kept (c ∷ d) = ground arith

not_dot : (d : Bytes) → eqb (d ++ dot_git_suffix) (codes ".") ≡ false
unfolding eqb
not_dot [] = refl
not_dot (c ∷ []) = ground arith
not_dot (c ∷ e ∷ d) = ground arith

member-if :
    (b : Bool) (d : Bytes) (xs ys : List Bytes)
    → member d (strip_suffixes xs dot_git_suffix) ≡ true
    → member d (strip_suffixes ys dot_git_suffix) ≡ true
    → member d (strip_suffixes (if b then xs else ys) dot_git_suffix) ≡ true
member-if true d xs ys h k = h
member-if false d xs ys h k = k

member-behind :
    (d name : Bytes) (names : List Bytes)
    → member d (strip_suffixes names dot_git_suffix) ≡ true
    → member d (strip_suffixes (name ∷ names) dot_git_suffix) ≡ true
unfolding strip_suffixes member
member-behind d name names h = ground arith

member-front :
    (d : Bytes) (names : List Bytes)
    → member d (strip_suffixes ((d ++ dot_git_suffix) ∷ names) dot_git_suffix) ≡ true
unfolding strip_suffixes member
member-front d names = rw (strip_suffix-append d, eqb_refl d)

-- A directory that is listed as `d.git` is among the apps.
pub among :
    (d : Bytes) (entries : List DirEntry)
    → Listed (d ++ dot_git_suffix) entries
    → member d (strip_suffixes (select_dirs entries dir_has_git_suffix) dot_git_suffix) ≡ true
unfolding select_dirs dir_has_git_suffix
among d [] h = absurd h
among d (e ∷ entries) (inl (name, is_dir)) =
    rw (name, is_dir)
      (rw (kept d, not_dot d, has_suffix-append d dot_git_suffix)
        (member-front d (select_dirs entries dir_has_git_suffix)))
among d (e ∷ entries) (inr listed) =
    let tail = select_dirs entries dir_has_git_suffix in
    let rest = among d entries listed in
    member-if _ d tail _ rest (
      member-if (dir_has_git_suffix e.name) d (e.name ∷ tail) tail
        (member-behind d e.name tail rest) rest)

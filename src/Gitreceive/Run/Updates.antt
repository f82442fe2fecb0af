-- ===== src/Gitreceive/Run/Updates.antt =====
-- The lines that git writes to the hook, and what is built for them.
use builder.Base.{
  All, if◌then◌else◌, arith, map, some, none, Option, ◌↔◌, ◌∙◌, ap, sym, ok, codes, Bytes, ◌∷◌, [],
  List, ◌≡◌,
}
use mathlib.Core.Option
use builder.Text.{split, join, has_prefix}
use builder.Text.Search.{Lacks}
use builder.Text.Split.{split-join, join-split}
use builder.Gitreceive.Config.{Config}
use builder.Gitreceive.Run.{three_parts, read_line, build_failed, run}

-- A change of a reference.
pub record Update : Type 0 where
  pub old_rev : Bytes
  pub new_rev : Bytes
  pub ref_name : Bytes

-- The line for it.
abbrev pub print : Update → Bytes
print u = join (u.old_rev ∷ u.new_rev ∷ u.ref_name ∷ []) (codes " ")

abbrev pub HasNoSpace : Update → Type 0
HasNoSpace u = Lacks b' ' u.old_rev × Lacks b' ' u.new_rev × Lacks b' ' u.ref_name

read_line-print :
    (u : Update) → HasNoSpace u → read_line (print u) ≡ ok (u.old_rev, u.new_rev, u.ref_name)
unfolding read_line
read_line-print u (a, b, c) =
    rw (split-join u.old_rev (u.new_rev ∷ u.ref_name ∷ []) b' ' (a, (b, (c, tt))))

three_parts_sound :
    (line : Bytes) (ps : List Bytes) {a b c : Bytes}
    → three_parts line ps ≡ ok (a, b, c)
    → ps ≡ a ∷ b ∷ c ∷ []
three_parts_sound line [] h = cc
three_parts_sound line (x ∷ []) h = cc
three_parts_sound line (x ∷ y ∷ []) h = cc
three_parts_sound line (x ∷ y ∷ z ∷ []) h = ground arith
three_parts_sound line (x ∷ y ∷ z ∷ t ∷ ps) h = cc

-- A line is accepted exactly when it is three parts without a space, with one space between each two;
-- and what is read are those parts.
pub read_line_lem :
    (line : Bytes) (u : Update)
    → (read_line line ≡ ok (u.old_rev, u.new_rev, u.ref_name)) ↔ ((line ≡ print u) × HasNoSpace u)
unfolding read_line
read_line_lem line u = (forth, λ (e, plain). rw e (read_line-print u plain))
  where
    forth : read_line line ≡ ok (u.old_rev, u.new_rev, u.ref_name) → (line ≡ print u) × HasNoSpace u
    forth h =
        let parts = three_parts_sound line (split line b' ') h in
        let (whole, plain) = join-split line b' ' in
        (
          sym whole ∙ ap (λ (ps : List Bytes). join ps (codes " ")) parts,
          (let q : All (Lacks b' ') (u.old_rev ∷ u.new_rev ∷ u.ref_name ∷ []) = rw parts at plain in
              (q.0, q.1.0, q.1.1.0)),
        )

-- The revisions are built one after another, up to the first that fails.
pub build_all : {W E : Type 0} → (Bytes → W → W × Option E) → List Bytes → W → W × Option E
build_all build [] w = (w, none)
build_all build (rev ∷ revs) w =
    let (w', failure) = build rev w in
    elim failure [ some e ↦ (w', some e) | none ↦ build_all build revs w' ]

-- On lines that are changes with no space in their parts, where reading them does not fail:
-- where the hook runs for a push, it builds the new revisions of the changes in the order of their lines,
-- up to the first that fails, whose error it returns; for any other command it builds nothing.
pub run_lem :
    {W E : Type 0} (conf : Config) (build : Bytes → W → W × Option E) (us : List Update) (w : W)
    → All HasNoSpace us
    → run conf build (map print us) none w ≡ (
        if has_prefix conf.ssh_original_command (codes "git-receive-pack")
        then (
          (build_all build (map (λ (u : Update). u.new_rev) us) w).0,
          Option.map build_failed (build_all build (map (λ (u : Update). u.new_rev) us) w).1,
        )
        else (w, none))
unfolding run build_all
run_lem conf build [] w h = ground arith
run_lem conf build (u ∷ us) w h =
    rw (run, read_line-print u h.0)
      (ground (arith, run_lem conf build us w h.1, run_lem conf build us (build u.new_rev w).0 h.1))

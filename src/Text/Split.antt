-- ===== src/Text/Split.antt =====
-- Split and Join undo each other.
use builder.Base.{All, Bytes, arith, ◌++◌, ◌∷◌, [], List, ◌≢◌, ◌∙◌, ap, refl, ◌≡◌, ℕ}
use builder.Text.{put_front, split, join}
use builder.Text.Search.{Lacks}

pub split_absent : (s : Bytes) (sep : ℕ) → Lacks sep s → split s sep ≡ s ∷ []
unfolding split
split_absent [] sep h = refl
split_absent (c ∷ s) sep h = ground (arith, split_absent s sep h.1)

pub split-ne-nil : (s : Bytes) (sep : ℕ) → split s sep ≢ []
unfolding split
split-ne-nil [] sep e = cc
split-ne-nil (c ∷ s) sep e = ground arith

-- A part without the separator, then a separator.
pub split-part : (p s : Bytes) (sep : ℕ) → Lacks sep p → split (p ++ sep ∷ s) sep ≡ p ∷ split s sep
unfolding split
split-part [] s sep h = ground (arith, split-ne-nil s sep)
split-part (c ∷ p) s sep h = ground (arith, split-part p s sep h.1)

pub split-join :
    (p : Bytes) (ps : List Bytes) (sep : ℕ)
    → All (Lacks sep) (p ∷ ps)
    → split (join (p ∷ ps) (sep ∷ [])) sep ≡ p ∷ ps
unfolding join
split-join p [] sep h = split_absent p sep h.0
split-join p (q ∷ ps) sep h =
    split-part p (join (q ∷ ps) (sep ∷ [])) sep h.0
    ∙ ap (λ (l : List Bytes). p ∷ l) (split-join q ps sep h.1)

abbrev AreParts : ℕ → Bytes → List Bytes → Type 0
AreParts sep s ps = (join ps (sep ∷ []) ≡ s) × All (Lacks sep) ps

put_front-AreParts :
    (c sep : ℕ) (s : Bytes) (ps : List Bytes)
    → ps ≢ []
    → AreParts sep s ps
    → AreParts sep (c ∷ s) (put_front c sep ps)
unfolding join
put_front-AreParts c sep s [] ne h = absurd (ne refl)
put_front-AreParts c sep s (p ∷ []) ne h = ground arith
put_front-AreParts c sep s (p ∷ q ∷ ps) ne h = ground arith

-- The parts of a split give the text back, and none has the separator.
pub join-split :
    (s : Bytes) (sep : ℕ) → (join (split s sep) (sep ∷ []) ≡ s) × All (Lacks sep) (split s sep)
unfolding join split
join-split [] sep = (refl, (tt, tt))
join-split (c ∷ s) sep =
    put_front-AreParts c sep s (split s sep) (split-ne-nil s sep) (join-split s sep)

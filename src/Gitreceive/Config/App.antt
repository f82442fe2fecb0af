-- ===== src/Gitreceive/Config/App.antt =====
-- `App`, on the names that the SSH server gives to repositories.
use builder.Text.Equality.{eqb}
use builder.Base.{take_append, length, codes, Bytes, arith, ◌++◌, ◌∷◌, [], some, none, refl, ◌≡◌}
use builder.Text.{last_index, has_prefix}
use builder.Text.Search.{Lacks}
use builder.Gitreceive.Config.{app_name}

last_index_absent : (s : Bytes) → Lacks b'.' s → last_index s (codes ".") ≡ none
unfolding last_index has_prefix eqb
last_index_absent [] h = refl
last_index_absent (c ∷ s) h = ground (arith, last_index_absent s h.1)

last_index-append :
    (stem ext : Bytes)
    → Lacks b'.' ext
    → last_index (stem ++ b'.' ∷ ext) (codes ".") ≡ some (length stem)
unfolding last_index has_prefix eqb
last_index-append [] ext h = ground (arith, last_index_absent ext h)
last_index-append (c ∷ stem) ext h = rw (last_index-append stem ext h)

-- The name of the app is the repository's name without its last dot and what is behind that; a name
-- without a dot is the app's. In particular the SSH server's `name.git` is the repository of `name`.
pub app_name_lem :
    (stem ext : Bytes)
    → Lacks b'.' ext
    → (app_name (stem ++ b'.' ∷ ext) ≡ stem)
      × (app_name ext ≡ ext)
      × (app_name (stem ++ codes ".git") ≡ stem)
unfolding app_name
app_name_lem stem ext h = (
  rw (app_name, last_index-append stem ext h) (take_append stem (b'.' ∷ ext) (length stem) refl),
  ground (arith, last_index_absent ext h),
  rw (app_name, last_index-append stem (codes "git") (omega arith))
      (take_append stem (codes ".git") (length stem) refl),
)

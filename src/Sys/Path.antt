-- ===== src/Sys/Path.antt =====
-- Go's package filepath, as far as it is used.
use builder.Base.{Bytes, codes, ◌++◌}

-- filepath.Join, for a clean directory and a name that is one element of a path.
unfoldable pub filepath_join : Bytes → Bytes → Bytes
filepath_join dir name = dir ++ (codes "/" ++ name)

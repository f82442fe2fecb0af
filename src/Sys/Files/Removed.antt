-- ===== src/Sys/Files/Removed.antt =====
-- What can be read after a removal.
use builder.Base.{Bytes, ◌≡◌, err, if◌then◌else◌, is_none, arith}
use builder.Maps.{has_key, lookup-delete}
use builder.Text.Equality.{eqb, eqb_iff}
use builder.Sys.Files.{FakeFs, read_file, remove_all}

-- `RemoveAll` succeeds exactly when the file exists; afterwards reading it fails with its name, and any
-- other file reads as before.
pub remove_all_lem :
    (f : FakeFs) (name k : Bytes)
    → (is_none (remove_all f name).1 ≡ has_key name f.files)
      × (read_file (remove_all f name).0 k
          ≡ (if eqb name k then err (record { filename = k }) else read_file f k))
unfolding remove_all read_file has_key
remove_all_lem f name k = ground (arith, lookup-delete name k f.files, eqb_iff name k)

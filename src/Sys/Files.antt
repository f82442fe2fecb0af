-- ===== src/Sys/Files.antt =====
-- The file system in memory of pkg/sys/fs.go.
pub mod Removed
use builder.Base.{[], Bytes, Option, some, none, Result, ok, err}
use builder.Maps.{Map, lookup, delete}

-- FakeFileNotFound
pub record FileNotFound : Type 0 where
  pub filename : Bytes

pub record FakeFs : Type 0 where
  pub files : Map Bytes

unfoldable pub new_fake_fs : FakeFs
new_fake_fs = record { files = [] }

unfoldable pub read_file : FakeFs → Bytes → Result FileNotFound Bytes
read_file f name = elim (lookup name f.files) [
  | none ↦ err (record { filename = name })
  | some b ↦ ok b
]

unfoldable pub remove_all : FakeFs → Bytes → FakeFs × Option FileNotFound
remove_all f name = elim (lookup name f.files) [
  | none ↦ (f, some (record { filename = name }))
  | some b ↦ (record { files = delete name f.files }, none)
]

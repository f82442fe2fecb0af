-- ===== src/Gitreceive/Command.antt =====
-- The commands that `build` of pkg/gitreceive/build.go starts, and the paths and keys that they work on.
use builder.Base.{Bytes, codes, List, [], ◌∷◌, ◌++◌}
use builder.Sys.Path.{filepath_join}
use builder.Git.Sha.{Sha}
use builder.Gitreceive.Config.{Config, app}

-- exec.Cmd: its arguments, the program first, and its directory.
pub record Command : Type 0 where
  pub args : List Bytes
  pub dir : Bytes

-- `repoCmd`
unfoldable pub repo_cmd : Bytes → Bytes → List Bytes → Command
repo_cmd repo_dir first others = record { args = first ∷ others; dir = repo_dir }

module _ (conf : Config) where
  unfoldable pub repo_dir : Bytes
  unfolding filepath_join
  repo_dir = filepath_join conf.git_home conf.repository

  unfoldable pub build_dir : Bytes
  unfolding repo_dir filepath_join
  build_dir = filepath_join repo_dir (codes "build")

  -- appTgz, the name of the archive in the repository
  unfoldable pub app_tgz : Bytes
  unfolding app
  app_tgz = app conf ++ codes ".tar.gz"

  unfoldable pub abs_app_tgz : Bytes
  unfolding repo_dir app_tgz
  abs_app_tgz = repo_dir ++ (codes "/" ++ app_tgz)

  -- It archives the new revision.
  unfoldable pub git_archive_cmd : Sha → Command
  unfolding repo_cmd repo_dir app_tgz
  git_archive_cmd sha =
      repo_cmd repo_dir (codes "git") (
        codes "archive" ∷ codes "--format=tar.gz" ∷ (codes "--output=" ++ app_tgz) ∷ sha.short ∷ [])

  -- It unpacks the archive into the temporary directory.
  unfoldable pub tar_cmd : Bytes → Command
  unfolding repo_cmd repo_dir app_tgz
  tar_cmd tmp_dir =
      repo_cmd repo_dir (codes "tar")
        (codes "-xzf" ∷ app_tgz ∷ codes "-C" ∷ (tmp_dir ++ codes "/") ∷ [])

  -- `GitKeyPattern`, of the app and the short hash.
  unfoldable pub git_key : Sha → Bytes
  unfolding app
  git_key sha = codes "home/" ++ (app conf ++ (codes ":git-" ++ sha.short))

  -- `TarKeyPattern`, of such a key.
  unfoldable pub tar_key : Sha → Bytes
  unfolding git_key
  tar_key sha = git_key sha ++ codes "/tar"

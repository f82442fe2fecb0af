-- ===== src/Gitreceive/Build/Published.antt =====
-- When a release is published.
use builder.Base.{◌++◌, Bytes, codes, ◌≡◌, refl, All, some, ok, All-append}
use builder.Maps.{Map, get}
use builder.Git.Sha.{Sha, new_sha}
use builder.Gitreceive.Calls.{Calls, get_procfile, get_dockerfile}
use builder.Gitreceive.Command.{tar_key, abs_app_tgz, build_dir}
use builder.Gitreceive.Config.{Config, app}
use builder.Gitreceive.Stack.{Stack, get_stack}
use builder.Gitreceive.Build.{Action, Run, put_tar, created_build, build}
use builder.Gitreceive.Build.Stages.{HasBuilt, stages}
use builder.Gitreceive.Build.Trace.{Each, IsTrace-All}
use builder.Gitreceive.Build.Traced.{IsBuild, refused, unprepared, staged, build-IsBuild}

module _ {E : Type 0} (c : Calls E) (conf : Config) where
  -- The files that come with a release are those of the directory that the revision was unpacked into;
  -- the Dockerfile depends on the stack.
  abbrev pub IsUnpacked : (stack_name : Bytes) → Map Bytes → Bytes → Bytes → Type 0
  IsUnpacked stack_name procfile dryccfile dockerfile =
      (tmp_dir : Bytes) × (c.mkdir_temp (build_dir conf) ≡ ok tmp_dir)
      × (get_procfile c tmp_dir ≡ ok procfile)
      × (c.parse_dryccfile (tmp_dir ++ codes "/.drycc") ≡ ok dryccfile)
      × ((stack : Stack) × (get_stack c.exists c.stacks c.loaded_stacks tmp_dir c.app_config.0
            ≡ some stack)
          × (stack_name ≡ get (codes "name") stack)
          × (get_dockerfile c tmp_dir stack ≡ ok dockerfile))

  -- A release of this app as this user, for the short hash of the revision, with the files of the
  -- revision, whose job has built; and an upload of the archive, under the key of the short hash.
  abbrev pub IsPublishable : Bytes → Action → Type 0
  IsPublishable raw
        (created_build username app_name image stack_name short_sha procfile dryccfile dockerfile) =
      (username ≡ conf.username)
      × (app_name ≡ app conf)
      × ((sha : Sha) × (new_sha raw ≡ some (ok sha)) × (sha.short ≡ short_sha))
      × HasBuilt c conf
      × IsUnpacked stack_name procfile dryccfile dockerfile
  IsPublishable raw (put_tar key content) =
      ((sha : Sha) × (new_sha raw ≡ some (ok sha)) × (key ≡ tar_key conf sha))
      × (c.read_file (abs_app_tgz conf) ≡ ok content)
  IsPublishable raw _ = Unit

  stages-IsPublishable :
      (raw : Bytes) (sha : Sha) (tmp_dir : Bytes)
      → new_sha raw ≡ some (ok sha)
      → c.mkdir_temp (build_dir conf) ≡ ok tmp_dir
      → Each (IsPublishable raw) (stages c conf sha tmp_dir)
  stages-IsPublishable raw sha tmp_dir valid made = (
    λ a same. rw (same) tt,
    (
      λ a same. rw (same) tt,
      (
        λ a (content, got, same). rw (same) ((sha, valid, refl), got),
        (
          λ a (stack, chosen, (env, e, (policy, q, (selector, s, same)))). rw (same) tt,
          (
            λ a (built, (stack, chosen, (procfile, p, (dryccfile, y, (dockerfile, d, same))))).
                rw (same) (
                  refl,
                  refl,
                  (sha, valid, refl),
                  built,
                  (tmp_dir, made, p, y, (stack, chosen, refl, d)),
                ),
            tt,
          ),
        ),
      ),
    ),
  )

  IsBuild-IsPublishable :
      (raw : Bytes) {r : Run E} → IsBuild c conf raw r → All (IsPublishable raw) r.0
  IsBuild-IsPublishable raw (refused o invalid h) = tt
  IsBuild-IsPublishable raw (unprepared sha o valid h) = (tt, tt)
  IsBuild-IsPublishable raw (staged sha tmp_dir actions o valid made_all made trace) = (
    tt,
    (
      tt,
      All-append (IsPublishable raw) _ _
          (IsTrace-All (IsPublishable raw) _ actions o
            (stages-IsPublishable raw sha tmp_dir valid made) trace)
          (tt, tt),
    ),
  )

  -- A build that is announced to the controller is one of this app by this user, for the short hash of a
  -- valid revision, with the Procfile and the Dockerfile that it was unpacked with, and only after the pod
  -- of its job came up and ended and its containers all exited with 0; and what is uploaded is the archive
  -- that was read, under the key of the app and that short hash.
  pub build-IsPublishable :
      (raw_git_sha : Bytes) → All (IsPublishable raw_git_sha) (build c conf raw_git_sha).0
  build-IsPublishable raw_git_sha =
      IsBuild-IsPublishable raw_git_sha (build-IsBuild c conf raw_git_sha)

-- ===== src/Gitreceive/Build/Traced.antt =====
-- What a build leaves behind, in the order in which it does it, however it ends.
use builder.Base.{◌++◌, Bytes, ◌≡◌, refl, List, [], ◌∷◌, Option, some, none, Result, ok, err}
use builder.Git.Sha.{InvalidGitSha, Sha, new_sha}
use builder.Gitreceive.Calls.{Calls}
use builder.Gitreceive.Command.{build_dir}
use builder.Gitreceive.Config.{Config}
use builder.Gitreceive.Build.{
  Outcome, done, Action, made_dirs, made_temp, removed_all, Run, perform, obtain, build_sha, build,
}
use builder.Gitreceive.Build.Trace.{IsTrace}
use builder.Gitreceive.Build.Stages.{stages, upload-IsTrace}

module _ {E : Type 0} (c : Calls E) (conf : Config) where
  -- A build of the text `raw_git_sha` has done nothing, where it is no hash, and has failed; or it has made
  -- its build directory only, and has failed; or it has made a temporary directory, gone through the
  -- stages from the first one on, and removed the temporary directory at the end.
  pub data IsBuild (raw_git_sha : Bytes) : Run E → Type 0 where
    refused :
        (o : Outcome E)
        → ((sha : Sha) → ¬ (new_sha raw_git_sha ≡ some (ok sha)))
        → ¬ (o ≡ done)
        → IsBuild raw_git_sha ([], o)
    unprepared :
        (sha : Sha) (o : Outcome E)
        → new_sha raw_git_sha ≡ some (ok sha)
        → ¬ (o ≡ done)
        → IsBuild raw_git_sha (made_dirs (build_dir conf) ∷ [], o)
    staged :
        (sha : Sha) (tmp_dir : Bytes) (actions : List Action) (o : Outcome E)
        → new_sha raw_git_sha ≡ some (ok sha)
        → c.mkdir_all ≡ none
        → c.mkdir_temp (build_dir conf) ≡ ok tmp_dir
        → IsTrace (stages c conf sha tmp_dir) actions o
        → IsBuild raw_git_sha (
          made_dirs (build_dir conf) ∷ made_temp tmp_dir ∷ (actions ++ removed_all tmp_dir ∷ []),
          o,
        )

  -- The two directories.
  prepared-IsBuild :
      (raw_git_sha : Bytes) (sha : Sha) (o : Option E) (r : Result E Bytes) (rest : Bytes → Run E)
      → new_sha raw_git_sha ≡ some (ok sha)
      → ((tmp_dir : Bytes)
          → o ≡ none
          → r ≡ ok tmp_dir
          → IsBuild raw_git_sha (made_dirs (build_dir conf) ∷ (rest tmp_dir).0, (rest tmp_dir).1))
      → IsBuild raw_git_sha (perform (made_dirs (build_dir conf)) o (obtain r rest))
  unfolding perform obtain
  prepared-IsBuild raw_git_sha sha (some e) r rest valid h = unprepared sha _ valid (λ d. cc)
  prepared-IsBuild raw_git_sha sha none (err e) rest valid h = unprepared sha _ valid (λ d. cc)
  prepared-IsBuild raw_git_sha sha none (ok tmp_dir) rest valid h = h tmp_dir refl refl

  build_sha-IsBuild :
      (raw_git_sha : Bytes) (sha : Sha)
      → new_sha raw_git_sha ≡ some (ok sha)
      → IsBuild raw_git_sha (build_sha c conf sha)
  unfolding build_sha
  build_sha-IsBuild raw_git_sha sha valid =
      prepared-IsBuild raw_git_sha sha c.mkdir_all (c.mkdir_temp (build_dir conf)) _ valid
        λ tmp_dir made_all made.
          staged sha tmp_dir _ _ valid made_all made (upload-IsTrace c conf sha tmp_dir)

  -- Whatever its calls give, a build does nothing to a text that is no hash; else it makes its
  -- directory and a temporary directory in it, runs `git archive` and `tar`, uploads the archive, creates
  -- the job for the stack that is chosen and announces the release of what the job has built, each at
  -- most once and in this order, and no step after one that has failed; it removes the temporary
  -- directory at the end; and it returns no error only after the last step, when the controller took the
  -- release or said only that its version is another.
  pub build-IsBuild : (raw_git_sha : Bytes) → IsBuild raw_git_sha (build c conf raw_git_sha)
  build-IsBuild raw_git_sha = by_sha (new_sha raw_git_sha) refl
    where
      by_sha :
          (r : Option (Result InvalidGitSha Sha))
          → new_sha raw_git_sha ≡ r
          → IsBuild raw_git_sha (build c conf raw_git_sha)
      by_sha none e = unfold build in rw (e, build) (refused _ (λ sha v. cc (e, v)) (λ d. cc))
      by_sha (some (err bad)) e =
          unfold build in rw (e, build) (refused _ (λ sha v. cc (e, v)) (λ d. cc))
      by_sha (some (ok sha)) e = unfold build in rw (e, build) (build_sha-IsBuild raw_git_sha sha e)

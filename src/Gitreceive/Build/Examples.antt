-- ===== src/Gitreceive/Build/Examples.antt =====
-- A concrete build.
use builder.Base.{some, Bytes, codes, ◌≡◌, [], ◌∷◌, refl}
use builder.Maps.{lookup, get, insert, has_key}
use builder.Text.Equality.{eqb}
use builder.Git.Sha.{new_sha}
use builder.Gitreceive.Config.{app}
use builder.Gitreceive.Samples.{conf, build_calls}
use builder.Gitreceive.Command.{tar_key, abs_app_tgz, build_dir, git_archive_cmd, tar_cmd}
use builder.Gitreceive.Build.{
  ran, made_temp, made_dirs, Run, done, put_tar, created_job, created_build, removed_all,
}
use builder.Gitreceive.Calls.{get_procfile, get_dockerfile}
use builder.Gitreceive.Build.Traced.{IsBuild, build-IsBuild}
use builder.Gitreceive.Build.Given.{Given, Built, Prepared, Finished, build_job}
use builder.Gitreceive.Build.Succeeds.{build_lem}

abbrev revision : Bytes
revision = codes "0123456789abcdef0123456789abcdef01234567"

abbrev given : Given
given = record {
  sha = record { full = revision; short = codes "01234567" };
  tmp_dir = codes "/home/git/blog.git/build/tmp1";
  stack = (codes "name", codes "container") ∷ (codes "image", codes "builder") ∷ [];
  content = codes "tar";
  selector = [];
  policy = codes "Always";
  image = codes "p/blog/blog:git-01234567";
  builder_env =
      (codes "DRYCC_STORAGE_BUCKET", codes "b")
      ∷ (codes "DRYCC_STORAGE_ENDPOINT", codes "e")
      ∷ (codes "DRYCC_STORAGE_PATH_STYLE", codes "on")
      ∷ (codes "DRYCC_REGISTRY_HOST", codes "h")
      ∷ (codes "DRYCC_REGISTRY_PROXY_HOST", codes "p")
      ∷ (codes "DRYCC_REGISTRY_ORGANIZATION", codes "blog")
      ∷ [];
}

abbrev given_built : Built
given_built = record {
  pod = codes "imagebuild-blog";
  pods = [];
  exits = some 0 ∷ [];
  procfile = (codes "web", codes "run") ∷ [];
  dryccfile = codes "run: {}";
  dockerfile = codes "web: run";
}

given-Prepared : Prepared build_calls conf revision given
unfolding abs_app_tgz new_sha lookup get insert has_key eqb app builder.Controller.check_api_compat
    builder.Gitreceive.Stack.get_stack
    builder.Gitreceive.NodeSelector.build_builder_pod_node_selector
    builder.K8s.pull_policy_from_string builder.Gitreceive.Imagebuilder.get_imagebuilder_env
    builder.Text.last_index builder.Text.has_prefix
given-Prepared = record {
  sha = refl;
  mkdir_all = refl;
  mkdir_temp = refl;
  new_client = refl;
  app_config = refl;
  archive = refl;
  untar = refl;
  stack = refl;
  app_data = refl;
  put_content = refl;
  selector = refl;
  policy = refl;
  env = refl;
  create_job = refl;
}

given-Finished : Finished build_calls conf revision given given_built
unfolding get_procfile get_dockerfile get lookup eqb builder.Gitreceive.Pod.wait_for_pod
    builder.Gitreceive.Pod.wait_for_pod_end builder.Controller.check_api_compat
    builder.Gitreceive.Config.session_idle_interval
given-Finished = record {
  ticks = refl;
  up = refl;
  pods = refl;
  stream = refl;
  copy = refl;
  over = refl;
  exit_codes = refl;
  zeros = (refl, tt);
  procfile = refl;
  dockerfile = refl;
  dryccfile = refl;
  taken = refl;
}

sample_build : builder.Gitreceive.Build.build build_calls conf revision ≡ (
  made_dirs (codes "/home/git/blog.git/build")
      ∷ made_temp (codes "/home/git/blog.git/build/tmp1")
      ∷ ran (git_archive_cmd conf given.sha)
      ∷ ran (tar_cmd conf given.tmp_dir)
      ∷ put_tar (codes "home/blog:git-01234567/tar") (codes "tar")
      ∷ created_job (build_job build_calls conf revision given)
      ∷ created_build
          (codes "alice")
          (codes "blog")
          (codes "p/blog/blog:git-01234567")
          (codes "container")
          (codes "01234567")
          ((codes "web", codes "run") ∷ [])
          (codes "run: {}")
          (codes "web: run")
      ∷ removed_all (codes "/home/git/blog.git/build/tmp1")
      ∷ [],
  done,
)
unfolding get lookup eqb app builder.Text.last_index builder.Text.has_prefix build_dir tar_key
sample_build = build_lem build_calls conf revision given given_built given-Prepared given-Finished

build-IsBuild_example :
    IsBuild build_calls conf revision (builder.Gitreceive.Build.build build_calls conf revision)
build-IsBuild_example = build-IsBuild build_calls conf revision

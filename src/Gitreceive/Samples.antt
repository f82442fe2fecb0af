-- ===== src/Gitreceive/Samples.antt =====
-- A concrete configuration, and the calls of a build in which everything succeeds.
use builder.Text.Equality.{eqb}
use builder.Gitreceive.Calls.{Calls}
use builder.Gitreceive.Pod.{Pod, running, succeeded}
use builder.Base.{if◌then◌else◌, ◌==◌, some, true, ℕ, codes, none, false, [], ◌∷◌, ok}
use builder.Base.Int.{pos, negsuc}
use builder.Gitreceive.Config.{Config}

abbrev pub conf : Config
conf = record {
  controller_url = codes "http://drycc-controller-api:80";
  git_home = codes "/home/git";
  ssh_connection = codes "1.2.3.4 22";
  ssh_original_command = codes "git-receive-pack 'blog.git'";
  repository = codes "blog.git";
  username = codes "alice";
  fingerprint = codes "aa:bb";
  pod_namespace = codes "drycc";
  storage_region = codes "us-east-1";
  debug = false;
  builder_pod_tick_duration_msec = negsuc 4;
  builder_pod_wait_duration_msec = pos 900000;
  object_storage_tick_duration_msec = pos 500;
  object_storage_wait_duration_msec = pos 300000;
  session_idle_interval_msec = pos 10000;
  imagebuilder_image_pull_policy = codes "Always";
  builder_pod_node_selector = [];
}

abbrev pub running_pod : Pod
running_pod = record { phase = running; reason = []; message = [] }

abbrev pub ended_pod : Pod
ended_pod = record { phase = succeeded; reason = []; message = [] }

-- A build in which everything succeeds.
abbrev pub build_calls : Calls ℕ
build_calls = record {
  is_api_mismatch = λ e. e == 406;
  mkdir_all = none;
  mkdir_temp = λ parent. ok (codes "/home/git/blog.git/build/tmp1");
  new_client = none;
  app_config = ([], none);
  archive = none;
  untar = none;
  exists = λ path. true;
  stacks = ((codes "name", codes "container") ∷ (codes "image", codes "builder") ∷ []) ∷ [];
  loaded_stacks = [];
  put_content = none;
  uid = codes "8c6a3f0e-1111-2222-3333-444444444444";
  environ =
      (codes "DRYCC_STORAGE_BUCKET", codes "b")
      ∷ (codes "DRYCC_STORAGE_ENDPOINT", codes "e")
      ∷ (codes "DRYCC_STORAGE_PATH_STYLE", codes "on")
      ∷ (codes "DRYCC_REGISTRY_HOST", codes "h")
      ∷ (codes "DRYCC_REGISTRY_PROXY_HOST", codes "p")
      ∷ [];
  ttl_setting = [];
  create_job = none;
  start_polls = ok (running_pod ∷ []) ∷ [];
  pods = ok (codes "imagebuild-blog" ∷ []);
  stream = none;
  copy = none;
  end_polls = ok (running_pod ∷ []) ∷ ok (ended_pod ∷ []) ∷ [];
  exit_codes = ok (some 0 ∷ []);
  read_file = λ path.
      ok (
        if eqb path (codes "/home/git/blog.git/blog.tar.gz")
        then codes "tar"
        else codes "web: run");
  unmarshal = λ text. ok ((codes "web", codes "run") ∷ []);
  parse_dryccfile = λ path. ok (codes "run: {}");
  create_build = none;
}

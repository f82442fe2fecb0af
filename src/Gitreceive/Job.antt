-- ===== src/Gitreceive/Job.antt =====
-- pkg/gitreceive/k8s_util.go: the job that builds an app.
pub mod Built
mod Examples
use builder.Base.{
  ◌==◌, ◌&&◌, ◌^◌, ◌*◌, ◌-◌, ◌+◌, ℕ, Bytes, codes, Bool, List, [], ◌∷◌, ◌++◌, Option, some, none,
  length, take, ltb, leb, if◌then◌else◌,
}
use builder.Base.Int.{ℤ, pos, negsuc}
use builder.K8s.{SecurityContext}
use builder.Maps.{Map}
use builder.Text.Equality.{eqb}
use builder.Gitreceive.Stack.{ConfigValue, Value, string, other}

-- `imagebuilderJobName`, where `uid` is the text of a new UUID, of 36 characters: both slices are in range.
unfoldable pub imagebuilder_job_name : Bytes → Bytes → Bytes → Bytes
imagebuilder_job_name uid app_name short_sha =
    let app = if ltb 33 (length app_name) then take 33 app_name else app_name in
    codes "imagebuild-" ++ (app ++ (codes "-" ++ (short_sha ++ (codes "-" ++ take 8 uid))))

pub record EnvVar : Type 0 where
  pub name : Bytes
  pub value : Bytes

pub record VolumeMount : Type 0 where
  pub name : Bytes
  pub mount_path : Bytes
  pub read_only : Bool

pub record Container : Type 0 where
  pub name : Bytes
  pub image : Bytes
  pub image_pull_policy : Bytes
  pub security_context : SecurityContext
  pub volume_mounts : List VolumeMount
  pub env : List EnvVar

-- `volumes` are the names of config maps, each the source of the volume of that name.
pub record PodSpec : Type 0 where
  pub containers : List Container
  pub restart_policy : Bytes
  pub volumes : List Bytes
  pub node_selector : Map Bytes

pub record Job : Type 0 where
  pub name : Bytes
  pub namespace : Bytes
  pub labels : Map Bytes
  pub pod_labels : Map Bytes
  pub backoff_limit : ℤ
  pub ttl_seconds_after_finished : ℤ
  pub spec : PodSpec

-- What is done to `Containers[0]`, if there is one.
map_first : (Container → Container) → List Container → List Container
map_first f [] = []
map_first f (c ∷ cs) = f c ∷ cs

unfoldable on_container : (Container → Container) → Job → Job
unfolding map_first
on_container f job = record job {
  spec = record (job.spec) { containers = map_first f job.spec.containers };
}

-- `addEnvToJob`. The job is passed by value, but the containers are shared with the caller's.
unfoldable pub add_env_to_job : Bytes → Bytes → Job → Job
unfolding on_container
add_env_to_job key value =
    on_container
      (λ (c : Container). record c { env = c.env ++ record { name = key; value = value } ∷ [] })

is_digit : ℕ → Bool
is_digit c = leb b'0' c && leb c b'9'

-- The digits' value, or `none` where one is no digit.
digits : Bytes → ℕ → Option ℕ
unfolding is_digit
digits [] n = some n
digits (c ∷ s) n = let rest = digits s (n * 10 + (c - b'0')) in if is_digit c then rest else none

-- The digits behind a sign; there is at least one.
magnitude : Bytes → Option ℕ
unfolding digits
magnitude [] = none
magnitude (c ∷ s) = digits (c ∷ s) 0

negative : Option ℕ → Option ℤ
negative none = none
negative (some n) =
    if ltb (2 ^ 31) n then none else if n == 0 then some (pos 0) else some (negsuc (n - 1))

positive : Option ℕ → Option ℤ
positive none = none
positive (some n) = if ltb n (2 ^ 31) then some (pos n) else none

-- strconv.ParseInt(s, 10, 32), where `none` is an error.
parse_int_32 : Bytes → Option ℤ
unfolding magnitude negative positive
parse_int_32 [] = none
parse_int_32 (c ∷ s) =
    if c == b'-'
    then negative (magnitude s)
    else if c == b'+'
    then positive (magnitude s)
    else positive (magnitude (c ∷ s))

-- The seconds a finished job is kept, where `setting` is TTL_SECONDS_AFTER_FINISHED, or empty.
ttl_seconds : Bytes → ℤ
unfolding parse_int_32
ttl_seconds setting = elim (parse_int_32 setting) [
  | none ↦ pos 21600
  | some ttl ↦ if eqb setting [] then pos 21600 else ttl
]

-- fmt.Sprintf("%v", value)
print_value : Value → Bytes
print_value (string s) = s
print_value (other printed) = printed

-- The environment from the values of the global group.
unfoldable pub global_env : List ConfigValue → List EnvVar
unfolding print_value
global_env [] = []
global_env (v ∷ values) =
    let rest = global_env values in
    if eqb v.group (codes "global")
    then record { name = v.name; value = print_value v.value } ∷ rest
    else rest

abbrev pub job_labels : Bytes → Bytes → Map Bytes
job_labels builder_name name =
    (codes "app", builder_name) ∷ (codes "job-name", name) ∷ (codes "heritage", codes "drycc") ∷ []

-- `buildJob`
unfoldable pub build_job :
    Bytes
    → Bool
    → Bytes
    → Bytes
    → Bytes
    → Bytes
    → SecurityContext
    → Map Bytes
    → List ConfigValue
    → Job
unfolding add_env_to_job global_env ttl_seconds
build_job ttl_setting debug name namespace builder_name pull_policy security_context node_selector
      values =
    let job : Job = record {
      name = name;
      namespace = namespace;
      labels = job_labels builder_name name;
      pod_labels = job_labels builder_name name;
      backoff_limit = pos 0;
      ttl_seconds_after_finished = ttl_seconds ttl_setting;
      spec = record {
        containers =
            record {
              name = [];
              image = [];
              image_pull_policy = pull_policy;
              security_context = security_context;
              volume_mounts =
                  record {
                    name = codes "imagebuilder-config";
                    mount_path = codes "/etc/imagebuilder";
                    read_only = Bool.true;
                  }
                  ∷ [];
              env = global_env values;
            }
            ∷ [];
        restart_policy = codes "Never";
        volumes = codes "imagebuilder-config" ∷ [];
        node_selector = node_selector;
      };
    } in
    if debug then add_env_to_job (codes "DRYCC_DEBUG") (codes "1") job else job

-- The loop over the environment of the builder's image.
add_all : Map Bytes → Job → Job
unfolding add_env_to_job
add_all [] job = job
add_all ((key, value) ∷ envs) job = add_all envs (add_env_to_job key value job)

-- `createBuilderJob`
unfoldable pub create_builder_job :
    Bytes
    → Bool
    → Bytes
    → Bytes
    → List ConfigValue
    → Bytes
    → Bytes
    → Bytes
    → Bytes
    → Bytes
    → Map Bytes
    → Bytes
    → SecurityContext
    → Map Bytes
    → Job
unfolding build_job on_container add_all
create_builder_job ttl_setting debug name namespace config tar_key git_short_hash image_name
      builder_name builder_image builder_image_env pull_policy security_context node_selector =
    let job =
      build_job ttl_setting debug name namespace builder_name pull_policy security_context
        node_selector config in
    let named =
      on_container (λ (c : Container). record c { name = builder_name; image = builder_image })
        job in
    add_all builder_image_env (
      add_env_to_job (codes "IMAGE_NAME") image_name (
        add_env_to_job (codes "SOURCE_VERSION") git_short_hash
          (add_env_to_job (codes "TAR_PATH") tar_key named)))

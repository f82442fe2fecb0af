-- ===== src/Gitreceive/Job/Built.antt =====
-- The name of a job, and the environment of its container.
use builder.Base.{
  take, Bool-cases, ltb, inr, inl, ◌+◌, Bytes, codes, ◌≡◌, ◌≤◌, ◌∙◌, ap, refl, List, [], ◌∷◌, ◌++◌,
  map, append_assoc, append-nil, length, length-append, length-take, Bool, true, false,
  if◌then◌else◌, arith,
}
use builder.Maps.{Map}
use builder.K8s.{SecurityContext}
use builder.Gitreceive.Stack.{ConfigValue}
use builder.Gitreceive.Job.{
  imagebuilder_job_name, Job, Container, EnvVar, on_container, map_first, add_env_to_job, add_all,
  build_job, create_builder_job, global_env,
}

-- The name of a job is a name that kubernetes accepts for its length: at most 63 bytes, whatever the
-- length of the app's name, for a short hash of 8 bytes.
pub imagebuilder_job_name-length :
    (uid app_name short_sha : Bytes)
    → length short_sha ≡ 8
    → length (imagebuilder_job_name uid app_name short_sha) ≤ 63
unfolding imagebuilder_job_name
imagebuilder_job_name-length uid app_name short_sha h =
    elim (Bool-cases (ltb 33 (length app_name))) [
      | inl long ↦
          rw (long, imagebuilder_job_name)
            (omega (arith, h, parts (take 33 app_name), length-take 33 app_name, length-take 8 uid))
      | inr short ↦
          rw (short, imagebuilder_job_name) (ground (arith, h, parts app_name, length-take 8 uid))
    ]
  where
    parts :
        (app : Bytes)
        → length (app ++ (codes "-" ++ (short_sha ++ (codes "-" ++ take 8 uid))))
          ≡ length app + (1 + (length short_sha + (1 + length (take 8 uid))))
    parts app = omega (
      arith,
      length-append app (codes "-" ++ (short_sha ++ (codes "-" ++ take 8 uid))),
      length-append short_sha (codes "-" ++ take 8 uid),
    )

-- The environment of the first container.
first_env : List Container → List EnvVar
first_env [] = []
first_env (c ∷ cs) = c.env

abbrev pub has_container : List Container → Bool
has_container [] = false
has_container (c ∷ cs) = true

pub job_env : Job → List EnvVar
unfolding first_env
job_env job = first_env job.spec.containers

abbrev pub env_var : Bytes × Bytes → EnvVar
env_var (key, value) = record { name = key; value = value }

added :
    (e : EnvVar) (cs : List Container)
    → has_container cs ≡ true
    → (first_env (map_first (λ (c : Container). record c { env = c.env ++ e ∷ [] }) cs)
        ≡ first_env cs ++ e ∷ [])
      × (has_container (map_first (λ (c : Container). record c { env = c.env ++ e ∷ [] }) cs)
          ≡ true)
unfolding map_first first_env
added e [] h = absurd (ground arith)
added e (c ∷ cs) h = (refl, refl)

add_all-env :
    (envs : Map Bytes) (job : Job)
    → has_container job.spec.containers ≡ true
    → job_env (add_all envs job) ≡ job_env job ++ map env_var envs
unfolding job_env add_all add_env_to_job on_container map_first first_env
add_all-env [] job h = rw append-nil
add_all-env ((key, value) ∷ envs) job h =
    let (one, kept) = added (env_var (key, value)) job.spec.containers h in
    add_all-env envs (add_env_to_job key value job) kept
    ∙ ap (λ (es : List EnvVar). es ++ map env_var envs) one
    ∙ append_assoc (job_env job) (env_var (key, value) ∷ []) (map env_var envs)

-- The container of a job has the variables of the global group, then the debugging flag, if it is set,
-- then the archive's path, the hash and the image's name, and last the builder's own variables, so that
-- of two variables of one name it is the builder's that comes later.
pub create_builder_job-env :
    (ttl_setting name namespace : Bytes) (debug : Bool) (config : List ConfigValue)
    (tar_key git_short_hash image_name builder_name builder_image : Bytes)
    (builder_image_env : Map Bytes) (pull_policy : Bytes) (security_context : SecurityContext)
    (node_selector : Map Bytes)
    → job_env (
        create_builder_job ttl_setting debug name namespace config tar_key git_short_hash image_name
          builder_name builder_image builder_image_env pull_policy security_context node_selector)
      ≡ global_env config
        ++ ((if debug then env_var (codes "DRYCC_DEBUG", codes "1") ∷ [] else [])
            ++ (env_var (codes "TAR_PATH", tar_key)
                ∷ env_var (codes "SOURCE_VERSION", git_short_hash)
                ∷ env_var (codes "IMAGE_NAME", image_name)
                ∷ map env_var builder_image_env))
unfolding create_builder_job build_job job_env add_env_to_job on_container map_first first_env
create_builder_job-env ttl_setting name namespace true config tar_key git_short_hash image_name
      builder_name builder_image builder_image_env pull_policy security_context node_selector =
    add_all-env builder_image_env _ refl ∙ simp append_assoc
create_builder_job-env ttl_setting name namespace false config tar_key git_short_hash image_name
      builder_name builder_image builder_image_env pull_policy security_context node_selector =
    add_all-env builder_image_env _ refl ∙ simp append_assoc

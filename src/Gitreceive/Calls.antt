-- ===== src/Gitreceive/Calls.antt =====
-- What the calls of other programs give in a build of pkg/gitreceive/build.go, and the files that it reads
-- from what it has unpacked.
use builder.Base.{ℕ, Bytes, codes, Bool, List, [], ◌++◌, Option, Result, ok, if◌then◌else◌, ◌>>=◌}
use builder.Text.Equality.{eqb}
use builder.Maps.{Map, get}
use builder.Gitreceive.Stack.{Stack, ConfigValue}
use builder.Gitreceive.Pod.{Pod}

pub record Calls (E : Type 0) : Type 0 where
  pub is_api_mismatch : E → Bool
  pub mkdir_all : Option E
  -- os.MkdirTemp, of the directory that it makes one in
  pub mkdir_temp : Bytes → Result E Bytes
  pub new_client : Option E
  -- hooks.GetAppConfig
  pub app_config : List ConfigValue × Option E
  -- the commands `git archive` and `tar`
  pub archive : Option E
  pub untar : Option E
  -- os.Stat has no error
  pub exists : Bytes → Bool
  -- `Stacks`, and what `initStack` would leave in it
  pub stacks : List Stack
  pub loaded_stacks : List Stack
  pub put_content : Option E
  pub uid : Bytes
  -- env.Environ
  pub environ : Map Bytes
  pub ttl_setting : Bytes
  pub create_job : Option E
  pub start_polls : List (Result E (List Pod))
  -- the names of the pods of the job
  pub pods : Result E (List Bytes)
  pub stream : Option E
  pub copy : Option E
  pub end_polls : List (Result E (List Pod))
  -- the exit codes of the containers, `none` for one that has not terminated
  pub exit_codes : Result E (List (Option ℕ))
  -- os.ReadFile, and yaml.Unmarshal into a process type
  pub read_file : Bytes → Result E Bytes
  pub unmarshal : Bytes → Result E (Map Bytes)
  -- drycc.ParseDryccfile, of a path; what it gives is only handed on, and stands here as a text
  pub parse_dryccfile : Bytes → Result E Bytes
  -- hooks.CreateBuild
  pub create_build : Option E

module _ {E : Type 0} (c : Calls E) where
  -- `getProcfile`: there are no processes where there is no file.
  unfoldable pub get_procfile : Bytes → Result E (Map Bytes)
  get_procfile dir_name =
      let file = dir_name ++ codes "/Procfile" in
      if c.exists file
      then (do raw_proc_file ← c.read_file file; c.unmarshal raw_proc_file)
      else ok []

  -- `getDockerfile`
  unfoldable pub get_dockerfile : Bytes → Stack → Result E Bytes
  get_dockerfile dir_name stack =
      let file = dir_name ++ codes "/Dockerfile" in
      if eqb (get (codes "name") stack) (codes "container")
      then if c.exists file then c.read_file file else ok []
      else ok []

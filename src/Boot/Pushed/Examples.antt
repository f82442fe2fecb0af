-- ===== src/Boot/Pushed/Examples.antt =====
-- A concrete push, from the key to the release.
use builder.Base.{
  All, In, ℕ, Bytes, codes, Bool, false, List, [], ◌∷◌, ◌++◌, Option, some, none, Result, ok, err,
  ◌≡◌, refl, drop, inl, inr, ◌==◌, arith,
}
use builder.Base.Int.{pos}
use builder.Maps.{Map}
use builder.Text.Equality.{eqb}
use builder.Controller.{Client}
use builder.K8s.Client.{Attempt, returned}
use builder.Git.Receive as Receive
use builder.Git.Receive.Started.{push_env}
use builder.Git.Hook.{getenv, hook_env}
use builder.Git.Hook.Passed.{reserved, HasNone}
use builder.Gitreceive.Config.{Config}
use builder.Gitreceive.Samples.{conf, build_calls}
use builder.Gitreceive.Calls.{Calls}
use builder.Gitreceive.Build.{Action}
use builder.Sshd.Auth.{UserInfo, auth_key, permissions}
use builder.Sshd.Lock.{InMemoryRepoLock, new_in_memory_repository_lock}
use builder.Sshd.Server.{Server, Request, ReceiveCall, in_time, received, answer}
use builder.Sshd.Connection.{NewChannel, answering, handle_conn}
use builder.Sshd.Connection.Opened.{conn_with, shaken}
use builder.Boot.{git_receive_action}
use builder.Boot.Pushed.{ReadsTags, IsReleasedAs, auth_key-IsReleasedAs}

abbrev server : Server
server = record { git_home = codes "/workspace"; receivetype = codes "gitreceive" }

abbrev alice : UserInfo
alice = record { username = codes "alice"; apps = codes "blog" ∷ [] }

abbrev a_client : Client ℕ
a_client = record { sdk = 1; user_agent = []; service_key = [] }

abbrev user_from_key : Client ℕ → Bytes → UserInfo × Option ℕ
user_from_key c fp = (alice, none)

abbrev is_406 : ℕ → Bool
is_406 e = e == 406

abbrev split_host_port : Bytes → Bytes × Bytes
split_host_port address = (address, codes "22")

abbrev git_receive : ReceiveCall → Option ℕ
git_receive c = none

abbrev push_request : Request
push_request = record {
  type = codes "exec";
  payload = 0 ∷ 0 ∷ 0 ∷ 28 ∷ codes "git-receive-pack '/blog.git'";
}

abbrev push_session : NewChannel ℕ
push_session = record { channel_type = codes "session"; accept = λ decided. ok (push_request ∷ []) }

abbrev carried : Map Bytes
carried = permissions alice (codes "aa:bb")

abbrev condata : Bytes
condata = codes "1.2.3.4 22 5.6.7.8 22"

abbrev free_lock : InMemoryRepoLock
free_lock = new_in_memory_repository_lock (pos 10)

abbrev push : ReceiveCall
push = record {
  repo = codes "blog.git";
  operation = codes "git-receive-pack";
  git_home = codes "/workspace";
  fingerprint = codes "aa:bb";
  username = codes "alice";
  conndata = condata;
  receivetype = codes "gitreceive";
}

abbrev joined : Bytes → Bytes → Bytes
joined a b = a ++ (codes "/" ++ b)

abbrev git_calls : Receive.Calls ℕ
git_calls = record {
  stat = Receive.directory;
  mkdir_all = none;
  git_init = none;
  create = none;
  execute = none;
  chmod = none;
  stdin_pipe = none;
  start = none;
  copy = none;
  wait = none;
  errbuff = [];
}

abbrev os_environ : List Bytes
os_environ = codes "HOME=/root" ∷ codes "POD_NAMESPACE=drycc" ∷ []

-- The three variables that are looked at, in a configuration that is otherwise fixed.
abbrev from_values : Option Bytes → Option Bytes → Option Bytes → Result ℕ Config
from_values (some repo) (some user) (some command) =
    ok (record conf { repository = repo; username = user; ssh_original_command = command })
from_values (some repo) (some user) none = err 1
from_values (some repo) none command = err 1
from_values none user command = err 1

abbrev prefixed : (Bytes → Option Bytes) → Bytes → Option Bytes
prefixed env name = elim (env (codes "DRYCC-BUILDER-GIT-RECEIVE_" ++ name)) [
  | some value ↦ some value
  | none ↦ env name
]

abbrev process : (Bytes → Option Bytes) → Result ℕ Config
process env =
    from_values (prefixed env (codes "REPOSITORY")) (prefixed env (codes "USERNAME"))
      (prefixed env (codes "SSH_ORIGINAL_COMMAND"))

from_values_lem :
    (r u o : Option Bytes) (cnf : Config)
    → from_values r u o ≡ ok cnf
    → (r ≡ some cnf.repository) × (u ≡ some cnf.username) × (o ≡ some cnf.ssh_original_command)
from_values_lem (some r) (some u) (some o) cnf e = ground arith
from_values_lem (some r) (some u) none cnf e = absurd (cc e)
from_values_lem (some r) none o cnf e = absurd (cc e)
from_values_lem none u o cnf e = absurd (cc e)

unprefixed :
    (env : Bytes → Option Bytes) (name : Bytes)
    → env (codes "DRYCC-BUILDER-GIT-RECEIVE_" ++ name) ≡ none
    → prefixed env name ≡ env name
unprefixed env name h = rw (h, prefixed)

process-ReadsTags : ReadsTags process
process-ReadsTags = record {
  repository =
      λ env cnf e h. rw (← unprefixed env (codes "REPOSITORY") h) (from_values_lem _ _ _ cnf e).0;
  username =
      λ env cnf e h. rw (← unprefixed env (codes "USERNAME") h) (from_values_lem _ _ _ cnf e).1;
  ssh_original_command = λ env cnf e h.
      rw (← unprefixed env (codes "SSH_ORIGINAL_COMMAND") h) (from_values_lem _ _ _ cnf e).2;
}

alice_accepted : auth_key is_406 user_from_key (a_client, none) (codes "aa:bb") ≡ ok carried
unfolding auth_key builder.Controller.check_api_compat
alice_accepted = refl

session_answered :
    In
      (answering (push_request ∷ []) condata carried)
      (handle_conn split_host_port (
        conn_with split_host_port
          (codes "1.2.3.4")
          (codes "5.6.7.8")
          (ok (shaken carried (push_session ∷ []))))).0
unfolding handle_conn eqb
session_answered = inl refl

push_received :
    In
      (received push)
      (answer server carried condata (drop 4) git_receive free_lock in_time (push_request ∷ [])).1
unfolding answer builder.Sshd.Server.answer_loop builder.Sshd.Server.answer_exec eqb permissions
    builder.Maps.get builder.Maps.lookup builder.Text.contains builder.Text.has_prefix
    builder.Text.split_2 builder.Sshd.Names.clean_exec builder.Sshd.Names.clean_repo_name
    builder.Text.trim_prefix builder.Text.trim_suffix builder.Text.replace_byte builder.Text.join
    builder.Sshd.Lock.lock builder.Sshd.Lock.unlock new_in_memory_repository_lock
push_received = inr (inl refl)

abbrev git_env : List Bytes
git_env = push_env os_environ push.repo push.operation push.fingerprint push.username push.conndata

abbrev command : Bytes
command = codes "git-receive-pack 'blog.git'"

shell_started :
    In
      (Receive.started command git_env)
      (Receive.receive git_calls joined os_environ push.repo push.operation push.git_home
        push.fingerprint push.username push.conndata push.receivetype).0
unfolding Receive.receive eqb
shell_started = inr (inr (inl refl))

none_reserved : HasNone os_environ reserved
unfolding getenv builder.Text.has_prefix
none_reserved = (refl, (refl, (refl, (refl, (refl, (refl, tt))))))

abbrev hook_conf : Config
hook_conf = record conf {
  repository = codes "blog.git";
  username = codes "alice";
  ssh_original_command = command;
}

hook_read : process (hook_env push.git_home git_env) ≡ ok hook_conf
unfolding hook_env getenv eqb builder.Text.has_prefix builder.Text.trim_prefix
hook_read = refl

abbrev hostname : Bytes → Option Bytes
hostname url = none

abbrev is_ip : Bytes → Bool
is_ip host = false

abbrev env_value : Bytes → Bytes
env_value name = name

abbrev create : Map Bytes → Result ℕ ℕ
create params = ok 5

abbrev calls : ℕ → ℕ → Bytes → List Action → Calls ℕ
calls driver client rev before = build_calls

abbrev cluster : Attempt ℕ ℕ
cluster = returned (ok 6)

abbrev lines : List Bytes
lines = codes "000 0123456789abcdef0123456789abcdef01234567 refs/heads/main" ∷ []

auth_key-IsReleasedAs_example :
    All
      (IsReleasedAs alice push)
      (git_receive_action hostname is_ip env_value create calls (ok hook_conf) cluster lines none).0
auth_key-IsReleasedAs_example =
    auth_key-IsReleasedAs server (drop 4) git_receive split_host_port is_406 user_from_key git_calls
      joined os_environ process process-ReadsTags hostname is_ip env_value create calls a_client
      none (codes "aa:bb") carried (push_session ∷ []) (codes "1.2.3.4") (codes "5.6.7.8")
      (push_request ∷ []) condata carried free_lock in_time push command git_env hook_conf cluster
      lines none alice_accepted session_answered push_received none_reserved shell_started hook_read

-- ===== src/Sshd/Server/Examples.antt =====
-- A concrete server, user and channel.
use builder.Base.Int.{pos}
use builder.Base.{
  ℕ, Bytes, codes, ◌≡◌, true, false, refl, ok, none, some, Option, [], ◌∷◌, ◌++◌, drop, take,
  is_none, if◌then◌else◌,
}
use builder.Text.Equality.{eqb}
use builder.Maps.{Map, lookup}
use builder.Sshd.Auth.{UserInfo, permissions}
use builder.Sshd.Lock.{InMemoryRepoLock, lock, new_in_memory_repository_lock}
use builder.Sshd.Lock.Held.{held, new-IsMarked, IsMarked}
use builder.Sshd.Names.{clean_repo_name}
use builder.Sshd.Server.{
  Server, Request, ReceiveCall, replied, sent_exit_status, received, closed, in_time, late, answer,
  answer_exec, answer_git, run_receive, receive_call,
}
use builder.Sshd.Server.Access.{substring_has_access}
use builder.Sshd.Server.Replies.{answer_lem, answer-held, push_answered}

abbrev server : Server
server = record { git_home = codes "/home/git"; receivetype = codes "gitreceive" }

abbrev user : UserInfo
user = record { username = codes "alice"; apps = codes "blog" ∷ codes "myshop" ∷ [] }

abbrev extensions : Map Bytes
extensions = permissions user (codes "aa:bb")

abbrev receive : ReceiveCall → Option ℕ
receive c = none

abbrev env_request : Request
env_request = record { type = codes "env"; payload = [] }

-- Four bytes of length, and the command.
abbrev push_request : Request
push_request = record {
  type = codes "exec";
  payload = 0 ∷ 0 ∷ 0 ∷ 28 ∷ codes "git-receive-pack '/blog.git'";
}

abbrev free_lock : InMemoryRepoLock
free_lock = new_in_memory_repository_lock (pos 10)

abbrev taken_lock : InMemoryRepoLock
taken_lock = (lock free_lock (codes "blog")).0

free_lock-IsMarked : IsMarked free_lock
free_lock-IsMarked = new-IsMarked (pos 10)

blog_name : clean_repo_name (codes "'/blog.git'") ≡ ok (codes "blog")
unfolding clean_repo_name builder.Text.contains builder.Text.has_prefix eqb builder.Text.trim_prefix
    builder.Text.trim_suffix builder.Text.replace_byte
blog_name = refl

blog_taken : held taken_lock (codes "blog") ≡ true
unfolding held lock lookup builder.Maps.has_key builder.Maps.insert new_in_memory_repository_lock
    eqb
blog_taken = refl

blog_free : held free_lock (codes "blog") ≡ false
unfolding held lookup builder.Maps.has_key new_in_memory_repository_lock
blog_free = refl

substring_has_access_example :
    (run_receive server
      (permissions user (codes "aa:bb"))
      (codes "1.2.3.4 22")
      (drop 4)
      receive
      (codes "shop")
      (codes "git-receive-pack")).0
    ≡ replied true
      ∷ received (
          receive_call server
            (permissions user (codes "aa:bb"))
            (codes "1.2.3.4 22")
            (drop 4)
            receive
            (codes "shop")
            (codes "git-receive-pack"))
      ∷ []
substring_has_access_example =
    substring_has_access server (codes "1.2.3.4 22") (drop 4) receive user (codes "aa:bb")
      (codes "blog" ∷ []) [] (codes "my") (codes "shop") [] (codes "git-receive-pack") refl

answer_lem_example :
    (answer server extensions
        (codes "1.2.3.4 22")
        (drop 4)
        receive
        free_lock
        in_time
        (env_request ∷ push_request ∷ env_request ∷ [])
      ≡ (
        (answer_exec server extensions
            (codes "1.2.3.4 22")
            (drop 4)
            receive
            free_lock
            in_time
            push_request.payload).0,
        (replied (eqb (codes "env") (codes "env"))
              ∷ (answer_exec server extensions
                  (codes "1.2.3.4 22")
                  (drop 4)
                  receive
                  free_lock
                  in_time
                  push_request.payload).1)
            ++ closed ∷ [],
        (answer_exec server extensions
            (codes "1.2.3.4 22")
            (drop 4)
            receive
            free_lock
            in_time
            push_request.payload).2,
      ))
    × (answer server extensions
          (codes "1.2.3.4 22")
          (drop 4)
          receive
          free_lock
          in_time
          (env_request ∷ [])
        ≡ (free_lock, replied (eqb (codes "env") (codes "env")) ∷ closed ∷ [], none))
unfolding eqb
answer_lem_example =
    answer_lem server extensions (codes "1.2.3.4 22") (drop 4) receive free_lock in_time
      (env_request ∷ []) push_request (env_request ∷ []) (refl, tt) refl

answer-held_example :
    held
      (answer server extensions
        (codes "1.2.3.4 22")
        (drop 4)
        receive
        free_lock
        (late 1)
        (push_request ∷ [])).0
      (codes "blog")
    ≡ held free_lock (codes "blog")
answer-held_example =
    answer-held server extensions (codes "1.2.3.4 22") (drop 4) receive free_lock (late 1)
      (push_request ∷ []) (codes "blog") free_lock-IsMarked

push_answered_example :
    ((answer_git server extensions
        (codes "1.2.3.4 22")
        (drop 4)
        receive
        free_lock
        in_time
        (codes "git-receive-pack", some (codes "'/blog.git'"))).1
      ≡ (run_receive server extensions
          (codes "1.2.3.4 22")
          (drop 4)
          receive
          (codes "blog")
          (codes "git-receive-pack")).0
        ++ sent_exit_status (
            if is_none
              (run_receive server extensions
                (codes "1.2.3.4 22")
                (drop 4)
                receive
                (codes "blog")
                (codes "git-receive-pack")).1
            then 0
            else 1)
          ∷ [])
    × ((answer_git server extensions
          (codes "1.2.3.4 22")
          (drop 4)
          receive
          free_lock
          (late 1)
          (codes "git-receive-pack", some (codes "'/blog.git'"))).1
        ≡ take 1
            (run_receive server extensions
              (codes "1.2.3.4 22")
              (drop 4)
              receive
              (codes "blog")
              (codes "git-receive-pack")).0
          ++ sent_exit_status 1 ∷ [])
push_answered_example =
    push_answered server extensions (codes "1.2.3.4 22") (drop 4) receive free_lock 1
      (codes "git-receive-pack") (codes "'/blog.git'") (codes "blog") blog_name blog_free

abbrev repos : ℕ → Bytes
repos i = codes "blog"

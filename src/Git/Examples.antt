-- ===== src/Git/Examples.antt =====
-- Concrete hashes and pushes.
use builder.Git.Receive.{Calls, not_exist, receive}
use builder.Git.Receive.Received.{IsCreated, IsClean, receive_lem}
use builder.Git.Receive.Hooked.{IsHooked, receive-IsHooked}
use builder.Text.Equality.{eqb}
use builder.Base.{All, ◌++◌, ◌∷◌, [], none, false, ◌↔◌, refl, ℕ, arith, Bytes, codes, ◌≡◌, some}
use builder.Git.Sha.Valid.{IsSha}

abbrev a_sha : Bytes
a_sha = codes "0123456789abcdef0123456789abcdef01234567"

a_sha-IsSha : IsSha a_sha
a_sha-IsSha = ground arith

-- A repository that is made, and a git-shell that fails.
abbrev calls : Calls ℕ
calls = record {
  stat = not_exist;
  mkdir_all = none;
  git_init = none;
  create = none;
  execute = none;
  chmod = none;
  stdin_pipe = none;
  start = none;
  copy = none;
  wait = some 1;
  errbuff = codes "refused";
}

abbrev joined : Bytes → Bytes → Bytes
joined a b = a ++ (codes "/" ++ b)

not_mock : eqb (codes "gitreceive") (codes "mock") ≡ false
unfolding eqb
not_mock = refl

receive_lem_example :
    ((receive calls joined
        (codes "HOME=/root" ∷ [])
        (codes "blog.git")
        (codes "git-receive-pack")
        (codes "/home/git")
        (codes "aa:bb")
        (codes "alice")
        (codes "1.2.3.4 22")
        (codes "gitreceive")).1
      ≡ none)
    ↔ (IsCreated calls × IsClean calls)
receive_lem_example =
    receive_lem calls joined (codes "HOME=/root" ∷ []) (codes "blog.git") (codes "git-receive-pack")
      (codes "/home/git") (codes "aa:bb") (codes "alice") (codes "1.2.3.4 22") (codes "gitreceive")
      not_mock

receive-IsHooked_example :
    All
      (IsHooked calls)
      (receive calls joined
        (codes "HOME=/root" ∷ [])
        (codes "blog.git")
        (codes "git-receive-pack")
        (codes "/home/git")
        (codes "aa:bb")
        (codes "alice")
        (codes "1.2.3.4 22")
        (codes "gitreceive")).0
receive-IsHooked_example =
    receive-IsHooked calls joined (codes "HOME=/root" ∷ []) (codes "blog.git")
      (codes "git-receive-pack") (codes "/home/git") (codes "aa:bb") (codes "alice")
      (codes "1.2.3.4 22") (codes "gitreceive")

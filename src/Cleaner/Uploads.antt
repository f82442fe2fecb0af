-- ===== src/Cleaner/Uploads.antt =====
-- What builds upload is what the cleaner finds: the keys of pkg/gitreceive/build.go and the expression of
-- pkg/cleaner/cleaner.go.
use builder.Base.{
  Bytes, codes, Bool, true, false, List, [], ◌∷◌, ◌++◌, ◌≡◌, refl, ap, ◌∙◌, map, All, some, Result,
  ok, ℕ, zero, suc, length, replicate, take, length-take, ==_refl, arith,
}
use builder.Text.{to_lower}
use builder.Git.Sha.{Sha, new_sha}
use builder.Git.Sha.Valid.{IsShaDigit, new_sha_accepted}
use builder.Gitreceive.Config.{Config, app}
use builder.Gitreceive.Config.App.{app_name_lem}
use builder.Gitreceive.Command.{git_key, tar_key}
use builder.Gitreceive.Calls.{Calls}
use builder.Gitreceive.Build.{Action, put_tar, build}
use builder.Gitreceive.Build.Published.{IsPublishable, build-IsPublishable}
use builder.Cleaner.Members.{member}
use builder.Cleaner.{
  Token, literal, any, app_tokens, tokens_match, git_regex_matches, dot_git_suffix,
}
use builder.Cleaner.Rounds.{
  ObjectStore, Directory, IsObjectStore, IsDirectory, World, round, rounds,
}
use builder.Cleaner.Rounds.Settled.{KeepsNamespaces, rounds_lem}

literal_match :
    (p : Bytes) (ts : List Token) (s : Bytes)
    → tokens_match (map literal p ++ ts) (p ++ s) ≡ tokens_match ts s
unfolding tokens_match
literal_match [] ts s = refl
literal_match (c ∷ p) ts s = rw (==_refl c) (literal_match p ts s)

app_match :
    (a : Bytes) (ts : List Token) (s : Bytes)
    → tokens_match (app_tokens a ++ ts) (a ++ s) ≡ tokens_match ts s
unfolding tokens_match app_tokens
app_match [] ts s = refl
app_match (c ∷ a) ts s = ground (arith, app_match a ts s)

any_match :
    (n : ℕ) (s : Bytes) → length s ≡ n → All IsShaDigit s → tokens_match (replicate n any) s ≡ true
unfolding tokens_match
any_match zero [] e h = refl
any_match zero (c ∷ s) e h = absurd (omega arith)
any_match (suc n) [] e h = absurd (omega arith)
any_match (suc n) (c ∷ s) e h = ground (arith, any_match n s (omega arith) h.1, h.0)

All-take : (P : ℕ → Type 0) (n : ℕ) (s : Bytes) → All P s → All P (take n s)
All-take P zero s h = tt
All-take P (suc n) [] h = tt
All-take P (suc n) (c ∷ s) h = (h.0, All-take P n s h.1)

-- The object of a valid revision's key is one that the expression of the app matches.
git_regex_matches-git_key :
    (conf : Config) (raw : Bytes) (sha : Sha)
    → new_sha raw ≡ some (ok sha)
    → git_regex_matches (app conf) (codes "/" ++ git_key conf sha) ≡ true
unfolding git_regex_matches git_key
git_regex_matches-git_key conf raw sha valid =
    let ((len, digits), short) = new_sha_accepted raw sha valid in
    literal_match (codes "/home/") _ (app conf ++ (codes ":git-" ++ sha.short))
    ∙ (app_match (app conf) _ (codes ":git-" ++ sha.short)
        ∙ (literal_match (codes ":git-") (replicate 8 any) sha.short
            ∙ any_match 8 sha.short (rw short (omega (arith, length-take 8 raw)))
                (rw short (All-take IsShaDigit 8 raw digits))))

-- The object that an upload is below is not in the store.
module _ {D S : Type 0} (has_object : Bytes → S → Bool) (w : World D S) where
  abbrev pub IsDeletedUpload : Action → Type 0
  IsDeletedUpload (put_tar key content) =
      (obj : Bytes) × (codes "/" ++ key ≡ obj ++ codes "/tar") × (has_object obj w.objects ≡ false)
  IsDeletedUpload _ = Unit

module _ {D S E B : Type 0} (home : Directory D E) (store : ObjectStore S E) (git_home : Bytes)
    {has_dir : Bytes → D → Bool} {has_object : Bytes → S → Bool}
    (is_home : IsDirectory home git_home has_dir) (is_store : IsObjectStore store has_object)
    (c : Calls B) (conf : Config) where
  actions-IsDeletedUpload :
      (w : World D S) (raw : Bytes) (actions : List Action)
      → ((o : Bytes) → git_regex_matches (app conf) o ≡ true → has_object o w.objects ≡ false)
      → All (IsPublishable c conf raw) actions
      → All (IsDeletedUpload has_object w) actions
  unfolding tar_key
  actions-IsDeletedUpload w raw [] none_left h = tt
  actions-IsDeletedUpload w raw (action ∷ actions) none_left h =
      (one action h.0, actions-IsDeletedUpload w raw actions none_left h.1)
    where
      one : (a : Action) → IsPublishable c conf raw a → IsDeletedUpload has_object w a
      one (put_tar key content) ((sha, valid, same), read) = (
        codes "/" ++ git_key conf sha,
        ap (λ (k : Bytes). codes "/" ++ k) same,
        none_left (codes "/" ++ git_key conf sha) (git_regex_matches-git_key conf raw sha valid),
      )
      one (builder.Gitreceive.Build.created_build u a i n s p y d) h = tt
      one (builder.Gitreceive.Build.created_job job) h = tt
      one (builder.Gitreceive.Build.removed_all path) h = tt
      one (builder.Gitreceive.Build.made_dirs path) h = tt
      one (builder.Gitreceive.Build.made_temp path) h = tt
      one (builder.Gitreceive.Build.ran cmd) h = tt

  -- For the repository `d.git` of an app with a name in lower case, of which there is a directory and no
  -- namespace: after a round that logs no error, and any rounds after it while no namespace goes, the
  -- store holds nothing of what any build of the repository has uploaded, whatever its calls give.
  pub build-IsDeletedUpload :
      (d raw : Bytes) (nss : List Bytes) (answers : List (Result E (List Bytes))) (w : World D S)
      → conf.repository ≡ d ++ dot_git_suffix
      → to_lower d ≡ d
      → has_dir (d ++ dot_git_suffix) w.dirs ≡ true
      → member d (map to_lower nss) ≡ false
      → (round home store git_home (ok nss) w).1 ≡ []
      → All (KeepsNamespaces nss) answers
      → All
          (IsDeletedUpload has_object
            (rounds home store git_home answers (round home store git_home (ok nss) w).0))
          (build c conf raw).0
  unfolding app
  build-IsDeletedUpload d raw nss answers w repo low here gone clean keeps =
      let (cleared, unchanged) =
        rounds_lem home store git_home is_home is_store nss answers w clean keeps in
      actions-IsDeletedUpload
        (rounds home store git_home answers (round home store git_home (ok nss) w).0) raw
        (build c conf raw).0
        (λ o match.
          rw unchanged.1 (rw low at (cleared d here (rw low gone)).1 o (rw (← named) match)))
        (build-IsPublishable c conf raw)
    where
      named : app conf ≡ d
      named = ap builder.Gitreceive.Config.app_name repo ∙ (app_name_lem d [] tt).2

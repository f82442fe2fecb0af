-- ===== src/Sshd/Examples.antt =====
-- Concrete names, lines, keys and circuits.
use builder.Base.Int.{pos, negsuc}
use builder.Sshd.Config.{Config, git_lock_timeout}
use builder.Sshd.Config.Minutes.{git_lock_timeout_lem}
use builder.Sshd.Lock.{new_in_memory_repository_lock}
use builder.Sshd.Lock.Held.{held}
use builder.Sshd.Lock.Refined.{Call, locking, unlocking, run_calls, run_set, run_calls_lem}
use builder.Base.{
  ◌↔◌, ◌⊎◌, ◌≤◌, ◌<◌, map, some, List, ◌^◌, ◌*◌, ◌-◌, arith, ◌++◌, ◌∷◌, [], false, Bytes, codes,
  ◌≡◌, refl, ok, take,
}
use builder.Text.{contains, trim_suffix, join}
use builder.Sshd.Names.Fingerprint.{fingerprint_lem, hex_byte}
use builder.Sshd.Names.{fingerprint, clean_repo_name}
use builder.Sshd.Names.RepoName.{clean_repo_name_no_dotdot, clean_repo_name_escapes}
use builder.Sshd.Circuit.{Circuit}

plain_name : clean_repo_name (codes "/app.git") ≡ ok (codes "app")
unfolding clean_repo_name builder.Text.contains builder.Text.has_prefix builder.Text.Equality.eqb
    builder.Text.trim_prefix builder.Text.trim_suffix builder.Text.replace_byte
plain_name = refl

clean_repo_name_no_dotdot_example : contains (codes "app") (codes "..") ≡ false
clean_repo_name_no_dotdot_example =
    clean_repo_name_no_dotdot (codes "/app.git") (codes "app") (ground arith) plain_name

secret_plain : contains (codes "secret.git") (codes "..") ≡ false
unfolding contains builder.Text.has_prefix builder.Text.Equality.eqb
secret_plain = refl

clean_repo_name_escapes_example :
    clean_repo_name (codes ".'./" ++ codes "secret.git")
    ≡ ok (codes "../" ++ trim_suffix (codes "secret.git") (codes ".git"))
clean_repo_name_escapes_example =
    clean_repo_name_escapes (codes "secret.git") (ground arith) secret_plain

abbrev first_16 : Bytes → Bytes
first_16 = take 16

abbrev closed_circuit : Circuit
closed_circuit = record { bit = 1 }

abbrev config : Config
config = record {
  controller_url = codes "http://drycc-controller-api:80";
  ssh_host_ip = codes "0.0.0.0";
  ssh_host_port = pos 2223;
  health_srv_port = pos 8092;
  health_srv_test_storage_region = codes "us-east-1";
  cleaner_poll_sleep_duration_sec = pos 5;
  imagebuilder_image_pull_policy = codes "Always";
  lock_timeout = pos 153722868;
}

git_lock_timeout_lem_example :
    ((git_lock_timeout config ≡ pos (153722868 * 60000000000)) ↔ (153722868 ≤ 153722867))
    × ((153722868 ≤ 153722867)
        ⊎ (git_lock_timeout config ≡ negsuc (2 ^ 64 - 1 - 153722868 * 60000000000))
        ⊎ (307445734 < 153722868))
git_lock_timeout_lem_example = git_lock_timeout_lem config 153722868 refl

abbrev lock_calls : List Call
lock_calls = locking (codes "blog") ∷ locking (codes "blog") ∷ unlocking (codes "blog") ∷ []

run_calls_lem_example :
    ((run_calls lock_calls (new_in_memory_repository_lock (pos 10))).1
      ≡ (run_set lock_calls (λ k. false)).1)
    × ((k : Bytes)
        → held (run_calls lock_calls (new_in_memory_repository_lock (pos 10))).0 k
          ≡ (run_set lock_calls (λ k. false)).0 k)
run_calls_lem_example = run_calls_lem (pos 10) lock_calls

fingerprint_lem_example :
    fingerprint first_16 (codes "0123456789abcdefgh")
    ≡ some (join (map hex_byte (first_16 (codes "0123456789abcdefgh"))) (codes ":"))
fingerprint_lem_example = fingerprint_lem first_16 (codes "0123456789abcdefgh") refl

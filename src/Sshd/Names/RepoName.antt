-- ===== src/Sshd/Names/RepoName.antt =====
-- `cleanRepoName`.
use builder.Text.Equality.{eqb}
use builder.Base.{All-append, ◌∷◌, refl, [], arith, append_assoc, false, ok, ap, ◌≡◌, ◌∙◌}
use builder.Text.{has_prefix, contains, replace_byte, trim_prefix, trim_suffix}
use builder.Text.Search.{Within, contains-Within, Lacks, replace_byte_absent}
use builder.Text.Trim.{trim_prefix-append, trim_prefix_lem, trim_suffix_lem, trim_suffix-append}
use builder.Sshd.Names.{◌++◌, codes, Bytes, clean_repo_name}

abbrev dotdot : Bytes
dotdot = codes ".."

-- The trimmed name stands in the text that is trimmed.
trimmed-Within : (s t p : Bytes) → Within (trim_prefix (trim_suffix s t) p) s
trimmed-Within s t p =
    let (b, e) = trim_suffix_lem s t in
    let (a, q) = trim_prefix_lem (trim_suffix s t) p in
    (a, b, e ∙ ap (λ (x : Bytes). x ++ b) q ∙ append_assoc a (trim_prefix (trim_suffix s t) p) b)

-- A name without quotes that is accepted becomes a name that does not contain "..".
pub clean_repo_name_no_dotdot :
    (name r : Bytes) → Lacks b'\'' name → clean_repo_name name ≡ ok r → contains r dotdot ≡ false
unfolding clean_repo_name
clean_repo_name_no_dotdot name r plain h = ground (
  arith,
  replace_byte_absent b'\'' [] name plain,
  contains-Within name _ dotdot (trimmed-Within name (codes ".git") (codes "/")),
)

-- The guard against ".." is passed by a quote between the dots: the quote is removed after the test.
-- For every `rest` that has no quote and no "..", the name ".'./rest" is accepted, and becomes a path
-- that begins with "../".
pub clean_repo_name_escapes :
    (rest : Bytes)
    → Lacks b'\'' rest
    → contains rest dotdot ≡ false
    → clean_repo_name (codes ".'./" ++ rest) ≡ ok (codes "../" ++ trim_suffix rest (codes ".git"))
unfolding clean_repo_name replace_byte contains has_prefix trim_suffix trim_prefix eqb
clean_repo_name_escapes rest plain h = ground (arith, replace_byte_absent b'\'' [] rest plain)

-- A quote behind a text adds no "..".
contains-quote : (s : Bytes) → contains s dotdot ≡ false → contains (s ++ b'\'' ∷ []) dotdot ≡ false
unfolding contains has_prefix eqb
contains-quote [] h = refl
contains-quote (c ∷ []) h = ground arith
contains-quote (c ∷ d ∷ s) h = ground (arith, contains-quote (d ∷ s))

replace_byte-quote : (s : Bytes) → Lacks b'\'' s → replace_byte b'\'' [] (s ++ b'\'' ∷ []) ≡ s
unfolding replace_byte
replace_byte-quote [] h = refl
replace_byte-quote (c ∷ s) h = ground (arith, replace_byte-quote s h.1)

git_suffix-Lacks : Lacks b'\'' (codes ".git")
git_suffix-Lacks = omega arith

-- What a git client sends for the repository `app.git`, with a slash in front and in quotes, is cleaned
-- to `app`, where `app` has no quote and `app.git` does not contain "..".
pub clean_repo_name-quoted :
    (app : Bytes)
    → Lacks b'\'' app
    → contains (app ++ codes ".git") dotdot ≡ false
    → clean_repo_name (codes "'/" ++ (app ++ codes ".git'")) ≡ ok app
unfolding clean_repo_name
clean_repo_name-quoted app plain h = rw (← append_assoc app (codes ".git") (codes "'")) (
    ground (
      arith,
      accepted,
      dropped,
      trim_suffix-append (codes "/" ++ app) (codes ".git"),
      trim_prefix-append (codes "/") app,
    ))
  where
    accepted : contains (codes "'/" ++ ((app ++ codes ".git") ++ codes "'")) dotdot ≡ false
    accepted = unfold contains has_prefix in contains-quote (app ++ codes ".git") h

    dropped :
        replace_byte b'\'' [] (codes "'/" ++ ((app ++ codes ".git") ++ codes "'"))
        ≡ codes "/" ++ (app ++ codes ".git")
    dropped =
        unfold replace_byte in
        ap (λ (s : Bytes). b'/' ∷ s)
          (replace_byte-quote (app ++ codes ".git")
            (All-append _ app (codes ".git") plain git_suffix-Lacks))

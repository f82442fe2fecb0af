-- ===== src/Sshd/Names.antt =====
-- The texts that pkg/sshd reads from a client and writes to it: `cleanExec`, `cleanRepoName` and
-- `gitPktLine` of server.go, and `fingerprint` of util.go.
pub mod RepoName
pub mod Lines
pub mod Fingerprint
use builder.Base.Maybe.{◌>>=◌, ◌>>◌}
use builder.Base.{
  replicate, some, none, Option, ℕ, zero, suc, ◌+◌, ◌/◌, ◌%◌, Bool, ◌&&◌, List, [], ◌∷◌, ◌++◌,
  Bytes, codes, Result, ok, err, length, ltb, ◌==◌, if◌then◌else◌,
}
use builder.Text.{contains, replace_byte, trim_prefix, trim_suffix}
use builder.Text.Equality.{eqb}
use builder.Text.Decimal.{hex_4, hex_digit}

pub data NameError : Type 0 where
  -- errDirCreatePerm, "empty repo name"
  empty_repo_name : NameError
  -- errDirPerm, "cannot change directory in file name"
  changes_directory : NameError

unfoldable pub clean_repo_name : Bytes → Result NameError Bytes
clean_repo_name name =
    if length name == 0
    then err empty_repo_name
    else if contains name (codes "..")
    then err changes_directory
    else ok (trim_prefix (trim_suffix (replace_byte b'\'' [] name) (codes ".git")) (codes "/"))

-- The replacer of `cleanExec`: `$` is dropped, and a backquote becomes a quote.
replace_exec : Bytes → Bytes
replace_exec [] = []
replace_exec (c ∷ s) =
    (if c == b'$' then [] else if c == b'`' then b'\'' ∷ [] else c ∷ []) ++ replace_exec s

-- `ssh.Unmarshal` is not this program's: `unmarshal` gives the `Value` that it leaves in an `ExecCmd`.
unfoldable pub clean_exec : (Bytes → Bytes) → Bytes → Bytes
unfolding replace_exec
clean_exec unmarshal pay = replace_exec (unmarshal pay)

-- What `gitPktLine` writes.
unfoldable pub git_pkt_line : Bytes → Bytes
git_pkt_line s = hex_4 (length s + 4) ++ s

-- hex.Encode
hex_encode : Bytes → Bytes
hex_encode [] = []
hex_encode (b ∷ s) = hex_digit (b / 16) ∷ hex_digit (b % 16) ∷ hex_encode s

-- fp[j] = b, which panics out of range
put : ℕ → ℕ → Bytes → Option Bytes
put j b [] = none
put zero b (c ∷ fp) = some (b ∷ fp)
put (suc j) b (c ∷ fp) = elim (put j b fp) [ none ↦ none | some fp' ↦ some (c ∷ fp') ]

-- The loop of `fingerprint`, from index `i` of `buf`, where `j` is the next index of `fp`.
colon_loop : ℕ → ℕ → Bytes → Bytes → Option Bytes
unfolding put
colon_loop i j [] fp = some fp
colon_loop i j (b ∷ buf) fp =
    if ltb 0 i && (i % 2 == 0)
    then (do
      fp' ← put j b':' fp
      fp'' ← put (suc j) b fp'
      colon_loop (suc i) (suc (suc j)) buf fp'')
    else (do fp' ← put j b fp; colon_loop (suc i) (suc j) buf fp')

-- `md5.Sum` is a parameter, and so is `key.Marshal`, which gives its argument. `none` is a panic.
unfoldable pub fingerprint : (Bytes → Bytes) → Bytes → Option Bytes
unfolding colon_loop hex_encode
fingerprint md5_sum marshalled =
    let buf = hex_encode (md5_sum marshalled) in colon_loop 0 0 buf (replicate (length buf + 15) 0)

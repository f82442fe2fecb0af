-- ===== src/Sshd/Names/Lines.antt =====
-- `cleanExec` and `gitPktLine`.
use builder.Base.{
  All, drop_append, take_append, length-append, drop, take, length, Bytes, arith, ◌∷◌, [], ◌≢◌,
  refl, ◌≡◌, ◌<◌, ◌^◌, ◌+◌,
}
use builder.Text.Decimal.Value.{hex_value, hex_value-hex_4, length-hex_4}
use builder.Sshd.Names.{hex_4, replace_exec, clean_exec, git_pkt_line}

abbrev pub NoExpansion : Bytes → Type 0
NoExpansion = All (λ c. (c ≢ b'$') × (c ≢ b'`'))

replace_exec-NoExpansion : (s : Bytes) → NoExpansion (replace_exec s)
unfolding replace_exec
replace_exec-NoExpansion [] = tt
replace_exec-NoExpansion (c ∷ s) = ground (arith, replace_exec-NoExpansion s)

-- Whatever a client sends, the cleaned command has no dollar sign and no backquote.
pub clean_exec-NoExpansion :
    (unmarshal : Bytes → Bytes) (pay : Bytes) → NoExpansion (clean_exec unmarshal pay)
unfolding clean_exec
clean_exec-NoExpansion unmarshal pay = replace_exec-NoExpansion (unmarshal pay)

replace_exec_id : (s : Bytes) → NoExpansion s → replace_exec s ≡ s
unfolding replace_exec
replace_exec_id [] h = refl
replace_exec_id (c ∷ s) h = ground (arith, replace_exec_id s h.1)

-- A command that has neither is left as it is.
pub clean_exec_id :
    (unmarshal : Bytes → Bytes) (pay : Bytes)
    → NoExpansion (unmarshal pay)
    → clean_exec unmarshal pay ≡ unmarshal pay
unfolding clean_exec
clean_exec_id unmarshal pay h = replace_exec_id (unmarshal pay) h

-- A line of fewer than 65532 bytes is framed as git's protocol demands: four hexadecimal digits that
-- give the length of the whole, themselves included, and then the line itself.
pub git_pkt_line_frame :
    (s : Bytes)
    → length s + 4 < 2 ^ 16
    → (hex_value 0 (take 4 (git_pkt_line s)) ≡ length (git_pkt_line s))
      × (drop 4 (git_pkt_line s) ≡ s)
unfolding git_pkt_line
git_pkt_line_frame s h = (
  rw (take_append (hex_4 (length s + 4)) s 4 four)
      (omega (arith, hex_value-hex_4 (length s + 4), length-append (hex_4 (length s + 4)) s, four)),
  drop_append (hex_4 (length s + 4)) s 4 four,
)
  where
    four : length (hex_4 (length s + 4)) ≡ 4
    four = length-hex_4 (length s + 4) h

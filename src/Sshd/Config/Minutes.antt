-- ===== src/Sshd/Config/Minutes.antt =====
-- How long a repository stays locked, at most.
use builder.Base.{inl, inr, refl, suc, ◌⊎◌, ◌↔◌, ◌<◌, ◌%◌, ℕ, ◌≤◌, ◌*◌, ◌≡◌, arith, ◌^◌, ◌-◌}
use builder.Base.Int.{ℤ, of_bits, pos, negsuc, scale}
use builder.Sshd.Config.{Config, git_lock_timeout}

le_or_lt : (a b : ℕ) → (a ≤ b) ⊎ (b < a)
le_or_lt a b = omega arith

ℤ_cases : (a : ℤ) → ((n : ℕ) × (a ≡ pos n)) ⊎ ((n : ℕ) × (a ≡ negsuc n))
ℤ_cases (pos n) = inl (n, refl)
ℤ_cases (negsuc n) = inr (n, refl)

bits_bound : (b m : ℕ) → of_bits b ≡ pos m → m < 2 ^ 63
bits_bound b m h = ground (arith, h)

-- An int64 that is not negative is below 2 ^ 63.
git_lock_timeout_bound : (c : Config) (m : ℕ) → git_lock_timeout c ≡ pos m → m < 2 ^ 63
unfolding git_lock_timeout scale
git_lock_timeout_bound c m h = elim (ℤ_cases c.lock_timeout) [
  | inl (n, e) ↦ bits_bound (n * 60000000000 % 2 ^ 64) m (ground (arith, e, h))
  | inr (n, e) ↦
      bits_bound ((2 ^ 64 - (suc n * 60000000000 % 2 ^ 64)) % 2 ^ 64) m (ground (arith, e, h))
]

git_lock_timeout_negative :
    (c : Config) (n : ℕ)
    → c.lock_timeout ≡ pos n
    → 153722867 < n
    → n ≤ 307445734
    → git_lock_timeout c ≡ negsuc (2 ^ 64 - 1 - n * 60000000000)
unfolding git_lock_timeout scale
git_lock_timeout_negative c n e l h = rw (e, git_lock_timeout) (ground arith)

git_lock_timeout_exact :
    (c : Config) (n : ℕ)
    → c.lock_timeout ≡ pos n
    → n ≤ 153722867
    → git_lock_timeout c ≡ pos (n * 60000000000)
unfolding git_lock_timeout scale
git_lock_timeout_exact c n e h = rw (e, git_lock_timeout) (ground arith)

-- The timeout is the number of minutes that is configured, in nanoseconds, exactly where this is at most
-- 153722867; of a greater number of minutes, up to 307445734, it is negative.
pub git_lock_timeout_lem :
    (c : Config) (n : ℕ)
    → c.lock_timeout ≡ pos n
    → ((git_lock_timeout c ≡ pos (n * 60000000000)) ↔ (n ≤ 153722867))
      × ((n ≤ 153722867)
          ⊎ (git_lock_timeout c ≡ negsuc (2 ^ 64 - 1 - n * 60000000000))
          ⊎ (307445734 < n))
git_lock_timeout_lem c n e = (
  (λ h. omega (arith, git_lock_timeout_bound c (n * 60000000000) h), git_lock_timeout_exact c n e),
  elim (le_or_lt n 153722867) [
    | inl small ↦ inl small
    | inr large ↦ elim (le_or_lt n 307445734) [
      | inl fits ↦ inr (inl (git_lock_timeout_negative c n e large fits))
      | inr above ↦ inr (inr above)
    ]
  ],
)

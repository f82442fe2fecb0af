-- ===== src/Gitreceive/Build/Early.antt =====
-- The steps of a build that record nothing: what holds of the runs that stop early, and of what follows a
-- step, holds of the step.
use builder.Base.{
  ◌==◌, inr, inl, ℕ, Bytes, ◌≡◌, refl, List, [], ◌∷◌, All, Option, some, none, Result, ok, err,
  arith, Bool-cases, true,
}
use builder.Base.Int.{ℤ, pos, ltb_ℤ}
use builder.Gitreceive.Stack.{Stack}
use builder.Gitreceive.Build.{
  BuildError, Outcome, done, Run, attempt, obtain, require, check_exit_codes, first_pod,
  with_ticker, with_stack,
}

module _ {E : Type 0} (Q : Run E → Type 0)
    (early : (o : Outcome E) → ¬ (o ≡ done) → Q ([], o)) where
  pub attempt_lem : (o : Option E) (rest : Run E) → (o ≡ none → Q rest) → Q (attempt o rest)
  unfolding attempt
  attempt_lem none rest h = h refl
  attempt_lem (some e) rest h = early _ (λ d. cc)

  pub obtain_lem :
      {A : Type 0} (r : Result E A) (rest : A → Run E)
      → ((a : A) → r ≡ ok a → Q (rest a))
      → Q (obtain r rest)
  unfolding obtain
  obtain_lem (ok a) rest h = h a refl
  obtain_lem (err e) rest h = early _ (λ d. cc)

  pub require_lem :
      {F A : Type 0} (wrap : F → BuildError E) (r : Result F A) (rest : A → Run E)
      → ((a : A) → r ≡ ok a → Q (rest a))
      → Q (require wrap r rest)
  unfolding require
  require_lem wrap (ok a) rest h = h a refl
  require_lem wrap (err e) rest h = early _ (λ d. cc)

  pub first_pod_lem :
      (pods : List Bytes) (rest : Run E)
      → ((pod : Bytes) (others : List Bytes) → pods ≡ pod ∷ others → Q rest)
      → Q (first_pod pods rest)
  unfolding first_pod
  first_pod_lem [] rest h = early _ (λ d. cc)
  first_pod_lem (pod ∷ pods) rest h = h pod pods refl

  pub check_exit_codes_lem :
      (exits : List (Option ℕ)) (rest : Run E)
      → (All (λ (o : Option ℕ). o ≡ some 0) exits → Q rest)
      → Q (check_exit_codes exits rest)
  unfolding check_exit_codes
  check_exit_codes_lem [] rest h = h tt
  check_exit_codes_lem (none ∷ exits) rest h = early _ (λ d. cc)
  check_exit_codes_lem (some code ∷ exits) rest h = elim (Bool-cases (code == 0)) [
    | inl zero_code ↦
        rw (zero_code, check_exit_codes)
          (check_exit_codes_lem exits rest λ zeros. h (ground (arith, zero_code), zeros))
    | inr bad ↦ rw (bad, check_exit_codes) (early _ (λ d. cc))
  ]

  pub with_ticker_lem :
      (interval : ℤ) (rest : Run E)
      → (ltb_ℤ (pos 0) interval ≡ true → Q rest)
      → Q (with_ticker interval rest)
  unfolding with_ticker
  with_ticker_lem interval rest h = elim (Bool-cases (ltb_ℤ (pos 0) interval)) [
    | inl ticks ↦ rw (ticks, with_ticker) (h ticks)
    | inr panics ↦ rw (panics, with_ticker) (early _ (λ d. cc))
  ]

  pub with_stack_lem :
      (o : Option Stack) (rest : Stack → Run E)
      → ((stack : Stack) → o ≡ some stack → Q (rest stack))
      → Q (with_stack o rest)
  unfolding with_stack
  with_stack_lem none rest h = early _ (λ d. cc)
  with_stack_lem (some stack) rest h = h stack refl

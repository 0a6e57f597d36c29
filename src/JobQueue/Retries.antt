-- ===== src/JobQueue/Retries.antt =====
-- `RetryJob` of Job Queue/main.go.
use low_level_design_in_go.Base.{
  ℕ, zero, suc, ◌+◌, ◌<◌, ◌≡◌, refl, ap, ◌∙◌, Bool, true, false, ◌⊎◌, inl, inr, Option, none, some,
  subst, List, length, arith, if_cases,
}
use low_level_design_in_go.Base.Int.{ℤ, pos, negsuc}
use low_level_design_in_go.JobQueue.{
  RetryOptions, Job, retry_loop, retry_job, rounds, options_of, default_retry_options,
}

-- The first heads among `n` rounds from `i` on ends the loop with success; without heads the loop
-- makes all rounds and fails. Every round made has slept once.
abbrev pub Retried : ℕ → (ℕ → Bool) → ℕ → Bool × List ℤ → Type 0
Retried n heads i (fine, delays) =
    ((fine ≡ true)
      × ((k : ℕ) × (k < n)
          × (heads (i + k) ≡ true)
          × ((j : ℕ) → j < k → heads (i + j) ≡ false)
          × (length delays ≡ suc k)))
    ⊎ ((fine ≡ false) × ((j : ℕ) → j < n → heads (i + j) ≡ false) × (length delays ≡ n))

pub retry_loop-Retried :
    (n : ℕ) (o : RetryOptions) (jitters : ℕ → ℤ) (heads : ℕ → Bool) (i : ℕ)
    → Retried n heads i (retry_loop n o jitters heads i)
unfolding retry_loop
retry_loop-Retried zero o jitters heads i = inr (refl, (λ j low. absurd (omega arith)), refl)
retry_loop-Retried (suc n) o jitters heads i =
    if_cases (Retried (suc n) heads i) (heads i)
      (λ now. inl (
        refl,
        (0, omega arith, ap heads (omega arith) ∙ now, (λ j low. absurd (omega arith)), refl),
      ))
      λ later. elim (retry_loop-Retried n o jitters heads (suc i)) [
        | inl (fine, (k, low, at, before, size)) ↦ inl (
          fine,
          (
            suc k,
            omega arith,
            ap heads (omega arith) ∙ at,
            (λ j below. first j later (λ m less. before m (omega (arith, less, below)))),
            ap suc size,
          ),
        )
        | inr (failed, tails, size) ↦
            inr (
              failed,
              (λ j low. first j later (λ m e. tails m (omega (arith, e, low)))),
              ap suc size,
            )
      ]
  where
    first :
        (j : ℕ)
        → heads i ≡ false
        → ((m : ℕ) → suc m ≡ j → heads (suc i + m) ≡ false)
        → heads (i + j) ≡ false
    first zero now rest = ap heads (omega arith) ∙ now
    first (suc m) now rest = ap heads (omega arith) ∙ rest m refl

-- The number of rounds that the options of a job allow.
pub data Allows : Option RetryOptions → ℕ → Type 0 where
  by_default : Allows none 3
  given : (o : RetryOptions) (n : ℕ) → o.max_retries ≡ pos n → Allows (some o) n
  negative : (o : RetryOptions) (n : ℕ) → o.max_retries ≡ negsuc n → Allows (some o) 0

allowed :
    (o : Option RetryOptions) (n : ℕ)
    → Allows o n
    → rounds
        (elim o as (λ x. RetryOptions) [ none ↦ default_retry_options | some p ↦ p ]).max_retries
      ≡ n
allowed _ _ by_default = refl
allowed _ _ (given o n e) = ap rounds e
allowed _ _ (negative o n e) = ap rounds e

module _ {P : Type 0} where
  -- RetryJob succeeds in the first round that comes up heads among those that MaxRetries allows
  -- (three without options, none when it is negative), and has then slept once for each round made;
  -- without such a round it fails after all of them.
  pub retry_job-Retried :
      (job : Job P) (n : ℕ) (jitters : ℕ → ℤ) (heads : ℕ → Bool)
      → Allows job.options n
      → Retried n heads 0 (retry_job job jitters heads)
  unfolding retry_job
  retry_job-Retried job n jitters heads allows =
      subst (λ m. Retried m heads 0 (retry_job job jitters heads)) (allowed job.options n allows)
        (retry_loop-Retried (rounds (options_of job).max_retries) (options_of job) jitters heads 0)

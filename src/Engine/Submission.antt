-- ===== src/Engine/Submission.antt =====
-- The attempts to submit a found block.
use solo_pool_rs.Prelude.{
  ℕ, zero, suc, ◌+◌, ◌≤◌, ◌<◌, ◌≡◌, ◌⊎◌, refl, ap, sym, subst, ℕ_discrete, true, false, Option,
  none, some, arith, Bool-cases, inl, inr,
}
use solo_pool_rs.Error.{Result, ok, err, panic, PoolError, other}
use solo_pool_rs.Engine.{
  submit_inline_attempts, is_permanent_reject, try_submit, Submitted, submit_loop,
  submit_found_block,
}

-- The node's answer to attempt `k`, as `submit_found_block` sees it, is worth another attempt.
abbrev pub IsTransient : (ℕ → Result (Unit {0})) → ℕ → Type 0
IsTransient answers k =
    (e : PoolError) × (try_submit (answers k) ≡ err e) × (is_permanent_reject e ≡ false)

-- All attempts before `k` are transient failures.
abbrev pub AllTransientBefore : (ℕ → Result (Unit {0})) → ℕ → Type 0
AllTransientBefore answers k = (j : ℕ) → 1 ≤ j → j < k → IsTransient answers j

-- The three ways that `submit_found_block` ends.
pub data Ending (answers : ℕ → Result (Unit {0})) (s : Submitted) : Type 0 where
  accepted :
      (k : ℕ)
      → 1 ≤ k
      → k ≤ submit_inline_attempts
      → AllTransientBefore answers k
      → try_submit (answers k) ≡ ok tt
      → s ≡ record { returned = ok tt; attempts = k; marked = true; resubmitting = false }
      → Ending answers s
  rejected :
      (k : ℕ) (e : PoolError)
      → 1 ≤ k
      → k ≤ submit_inline_attempts
      → AllTransientBefore answers k
      → try_submit (answers k) ≡ err e
      → is_permanent_reject e ≡ true
      → s ≡ record { returned = err e; attempts = k; marked = false; resubmitting = false }
      → Ending answers s
  handed_over :
      (e : PoolError)
      → AllTransientBefore answers (submit_inline_attempts + 1)
      → try_submit (answers submit_inline_attempts) ≡ err e
      → s ≡ record {
        returned = err e;
        attempts = submit_inline_attempts;
        marked = false;
        resubmitting = true;
      }
      → Ending answers s

try_submit-cases :
    (r : Result (Unit {0})) → (try_submit r ≡ ok tt) ⊎ ((e : PoolError) × (try_submit r ≡ err e))
unfolding try_submit
try_submit-cases (ok tt) = inl refl
try_submit-cases (err e) = inr (e, refl)
try_submit-cases panic = inr (other, refl)

one_more :
    (answers : ℕ → Result (Unit {0})) (k : ℕ)
    → AllTransientBefore answers k
    → IsTransient answers k
    → AllTransientBefore answers (k + 1)
one_more answers k before this j low high = elim (ℕ_discrete j k) [
  | yes e ↦ subst (IsTransient answers) (sym e) this
  | no ne ↦ before j low (omega (arith, ne))
]

submit_loop-Ending :
    (answers : ℕ → Result (Unit {0})) (left attempt : ℕ) (last_err : Option PoolError)
    → attempt + left ≡ submit_inline_attempts
    → AllTransientBefore answers (attempt + 1)
    → (left ≡ 0
        → (e : PoolError) × (last_err ≡ some e)
          × (try_submit (answers submit_inline_attempts) ≡ err e))
    → Ending answers (submit_loop answers left attempt last_err)
unfolding submit_loop
submit_loop-Ending answers zero attempt last_err total before last =
    let (e, is_last, answer) = last refl in
    let here : attempt ≡ submit_inline_attempts = omega (arith, total) in
    rw (is_last, submit_loop)
      (handed_over e (subst (λ k. AllTransientBefore answers (k + 1)) here before) answer (
        ap (λ k. record { returned = err e; attempts = k; marked = false; resubmitting = true })
          here))
submit_loop-Ending answers (suc left) attempt last_err total before last =
    elim (try_submit-cases (answers (attempt + 1))) [
      | inl good ↦
          rw (good, submit_loop)
            (accepted (attempt + 1) (omega arith) (omega (arith, total)) before good refl)
      | inr (e, bad) ↦ elim (Bool-cases (is_permanent_reject e)) [
        | inl final ↦
            rw (bad, final, submit_loop)
              (rejected (attempt + 1) e (omega arith) (omega (arith, total)) before bad final refl)
        | inr again ↦
            rw (bad, again, submit_loop)
              (submit_loop-Ending answers left (attempt + 1) (some e) (omega (arith, total))
                (one_more answers (attempt + 1) before (e, bad, again))
                (λ no_more.
                  let here : attempt + 1 ≡ submit_inline_attempts = omega (arith, total, no_more) in
                  (e, refl, subst (λ k. try_submit (answers k) ≡ err e) here bad)))
      ]
    ]

-- `submit_found_block` always ends, after at most three submissions: with the first attempt that
-- the node accepts, and then the archive is marked; or with the first permanent rejection, and then
-- nothing is retried; or, if all three attempts fail in another way, with the third one's error,
-- and then, and only then, the background task goes on.
pub submit_found_block-Ending :
    (answers : ℕ → Result (Unit {0})) → Ending answers (submit_found_block answers)
unfolding submit_found_block
submit_found_block-Ending answers =
    submit_loop-Ending answers 3 0 none refl (λ j low high. absurd (omega (arith, low, high)))
      (λ none_left. absurd (omega (arith, none_left)))

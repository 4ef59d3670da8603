-- ===== src/Template/Job/Splice.antt =====
-- What `assemble_coinbase` returns.
use solo_pool_rs.Prelude.{
  ℕ, suc, ◌+◌, ◌≡◌, ap, ap₂, sym, ◌∙◌, [], ◌∷◌, ◌++◌, append_assoc, length, take, drop, arith,
  length-append, length-take, length-drop, take-append-drop, take_append, drop_append,
  if◌then◌else◌, ◌==◌,
}
use solo_pool_rs.Prelude.Bytes.{Bytes}
use solo_pool_rs.Error.{ok, ◌>>=◌}
use solo_pool_rs.Template.Job.{StratumJob, copy_into, assemble_coinbase}

drop_past : (xs ys : Bytes) (n : ℕ) → drop (length xs + n) (xs ++ ys) ≡ drop n ys
drop_past [] ys n = ap (λ k. drop k ys) (omega arith)
drop_past (x ∷ xs) ys n =
    ap (λ k. drop k (x ∷ (xs ++ ys))) (suc_first (length xs)) ∙ drop_past xs ys n
  where
    suc_first : (k : ℕ) → suc k + n ≡ suc (k + n)
    suc_first k = omega arith

-- Copying over a part of the same length replaces that part.
copy_into_part :
    (front old back src : Bytes)
    → length old ≡ length src
    → copy_into (front ++ (old ++ back)) (length front) src ≡ ok (front ++ (src ++ back))
unfolding copy_into
copy_into_part front old back src e = ground (
  arith,
  take_append front (old ++ back),
  drop_past front (old ++ back) (length src),
  drop_append old back,
  ap (λ n. drop n (old ++ back)) e,
  length-append front (old ++ back),
  length-append old back,
)

-- The template is the two parts that miners are told, around the reserved region.
pub record IsSplit (job : StratumJob) : Type 0 where
  pub reserved : Bytes
  pub template : job.coinbase_template ≡ job.coinbase1 ++ (reserved ++ job.coinbase2)
  pub offset : job.extranonce_offset ≡ length job.coinbase1
  pub width : length reserved ≡ job.extranonce1_len + job.extranonce2_len

copy_twice :
    (front old1 old2 back a b : Bytes)
    → length old1 ≡ length a
    → length old2 ≡ length b
    → (copy_into (front ++ ((old1 ++ old2) ++ back)) (length front) a >>= λ cb.
        copy_into cb (length front + length a) b)
      ≡ ok (front ++ (a ++ (b ++ back)))
copy_twice front old1 old2 back a b e f =
    rw (append_assoc old1 old2 back, copy_into_part front old1 (old2 ++ back) a e)
      (ap₂ (λ cb at. copy_into cb at b) (sym (append_assoc front a (old2 ++ back)))
          (sym (length-append front a))
        ∙ copy_into_part (front ++ a) old2 back b f
        ∙ ap ok (append_assoc front a (b ++ back)))

-- A prefix and an extranonce that fill the reserved region give the coinbase that a Stratum miner
-- hashes, part 1 ++ prefix ++ extranonce ++ part 2; of any other width they give the template
-- unchanged. No case panics.
pub assemble_coinbase_lem :
    (job : StratumJob) (extranonce1 extranonce2 : Bytes)
    → IsSplit job
    → assemble_coinbase job extranonce1 extranonce2 ≡ (
        if length extranonce1 + length extranonce2 == job.extranonce1_len + job.extranonce2_len
        then ok (job.coinbase1 ++ (extranonce1 ++ (extranonce2 ++ job.coinbase2)))
        else ok job.coinbase_template)
unfolding assemble_coinbase
assemble_coinbase_lem job extranonce1 extranonce2 s = ground (arith, spliced)
  where
    old1 : Bytes
    old1 = take (length extranonce1) s.reserved

    old2 : Bytes
    old2 = drop (length extranonce1) s.reserved

    spliced :
        length extranonce1 + length extranonce2 ≡ job.extranonce1_len + job.extranonce2_len
        → (copy_into job.coinbase_template job.extranonce_offset extranonce1 >>= λ cb.
            copy_into cb (job.extranonce_offset + length extranonce1) extranonce2)
          ≡ ok (job.coinbase1 ++ (extranonce1 ++ (extranonce2 ++ job.coinbase2)))
    spliced e =
        rw (s.template, s.offset, ← take-append-drop (length extranonce1) s.reserved)
          (copy_twice job.coinbase1 old1 old2 job.coinbase2 extranonce1 extranonce2
            (length-take (length extranonce1) s.reserved ∙ omega (arith, s.width))
            (length-drop (length extranonce1) s.reserved ∙ omega (arith, s.width)))

-- ===== src/Validator/Shares/History.antt =====
-- A `ShareSet` over a whole job generation: each proof of work is credited once.
use solo_pool_rs.Prelude.{
  ◌+◌, ◌≤◌, ◌<◌, ◌≡◌, ◌∙◌, ap, refl, sym, subst, true, false, List, [], ◌∷◌, ◌++◌, length, arith,
  leb, if◌then◌else◌, Bool-cases, inl, inr, length-append,
}
use solo_pool_rs.Prelude.Bytes.{Bytes}
use solo_pool_rs.Error.{Result, ok, err, duplicate_share}
use solo_pool_rs.Validator.{ShareResult, hash}
use solo_pool_rs.Validator.Shares.{ShareSet, member, add, insert, dedup, clear}
use solo_pool_rs.Validator.Shares.Invariant.{IsValid, dedup-IsValid, clear-IsValid}

-- What becomes of each of a sequence of shares that validated.
pub outcomes : ShareSet → List ShareResult → List (Result ShareResult)
outcomes s [] = []
outcomes s (r ∷ rs) = let (outcome, s') = dedup s (ok r) in outcome ∷ outcomes s' rs

-- Each first share of a header hash that is not in `old` passes, every other one is a duplicate.
pub firsts : List Bytes → List ShareResult → List (Result ShareResult)
firsts old [] = []
firsts old (r ∷ rs) =
    let again = err duplicate_share ∷ firsts old rs in
    let once = ok r ∷ firsts (old ++ (hash r ∷ [])) rs in
    if member (hash r) old then again else once

order-add : (s : ShareSet) (k : Bytes) → (add s k).order ≡ s.order ++ (k ∷ [])
unfolding add
order-add s k = refl

max_size-add : (s : ShareSet) (k : Bytes) → (add s k).max_size ≡ s.max_size
unfolding add
max_size-add s k = refl

dedup_known :
    (s : ShareSet) (r : ShareResult)
    → member (hash r) s.seen ≡ true
    → dedup s (ok r) ≡ (err duplicate_share, s)
unfolding dedup
dedup_known s r known = rw known

dedup_fresh :
    (s : ShareSet) (r : ShareResult)
    → member (hash r) s.seen ≡ false
    → length s.seen < s.max_size
    → dedup s (ok r) ≡ (ok r, add s (hash r))
unfolding dedup insert
dedup_fresh s r fresh spare = rw (fresh, full_false, fresh)
  where
    full_false : leb s.max_size (length s.seen) ≡ false
    full_false = ground arith

added-IsValid :
    (s : ShareSet) (r : ShareResult)
    → IsValid s
    → member (hash r) s.seen ≡ false
    → length s.seen < s.max_size
    → IsValid (add s (hash r))
added-IsValid s r v fresh spare =
    subst (λ t. IsValid t.1) (dedup_fresh s r fresh spare) (dedup-IsValid s (ok r) v)

outcomes-firsts :
    (s : ShareSet) (rs : List ShareResult)
    → IsValid s
    → length s.order + length rs ≤ s.max_size
    → outcomes s rs ≡ firsts s.order rs
unfolding outcomes firsts
outcomes-firsts s [] v room = refl
outcomes-firsts s (r ∷ rs) v room = elim (Bool-cases (member (hash r) s.seen)) [
  | inl known ↦
      rw (dedup_known s r known, sym (v.same (hash r)) ∙ known)
        (ap (◌∷◌ (err duplicate_share)) (outcomes-firsts s rs v (omega arith)))
  | inr fresh ↦
      (let spare : length s.seen < s.max_size = omega (arith, v.sizes) in
        let rest = outcomes-firsts (add s (hash r)) rs (added-IsValid s r v fresh spare) (
          omega (
            arith,
            ap length (order-add s (hash r)),
            length-append s.order (hash r ∷ []),
            max_size-add s (hash r),
          )) in
        rw (dedup_fresh s r fresh spare, sym (v.same (hash r)) ∙ fresh)
          (ap (◌∷◌ (ok r)) (rest ∙ ap (λ o. firsts o rs) (order-add s (hash r)))))
]

-- From a clean job on, as long as no more shares validate than the set holds, exactly the first
-- share of each header hash passes, in order; every later one is refused, as a duplicate.
pub outcomes-clear :
    (s : ShareSet) (rs : List ShareResult)
    → IsValid s
    → length rs ≤ s.max_size
    → outcomes (clear s) rs ≡ firsts [] rs
outcomes-clear s rs v room =
    unfold clear in outcomes-firsts (clear s) rs (clear-IsValid s v) (omega arith)

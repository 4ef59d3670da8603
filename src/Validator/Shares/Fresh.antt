-- ===== src/Validator/Shares/Fresh.antt =====
-- The deduplication of a validated share.
use solo_pool_rs.Prelude.{◌≡◌, ◌∙◌, ap, sym, false, arith, inl, inr, Bool-cases}
use solo_pool_rs.Error.{Result, ok, err, panic}
use solo_pool_rs.Validator.{ShareResult, hash}
use solo_pool_rs.Validator.Shares.{ShareSet, contains, dedup, insert}

-- The validation accepted the share, and its hash was not among those remembered and now is.
pub record IsNew (r : Result ShareResult) (res : ShareResult) (before after : ShareSet)
    : Type 0 where
  pub validated : r ≡ ok res
  pub unseen : contains before (hash res) ≡ false
  pub remembered : after ≡ insert before (hash res)

pub dedup-IsNew :
    (shares : ShareSet) (r : Result ShareResult) (res : ShareResult)
    → (dedup shares r).0 ≡ ok res
    → IsNew r res shares (dedup shares r).1
unfolding dedup
dedup-IsNew shares (ok first) res e = elim (Bool-cases (contains shares (hash first))) [
  | inl known ↦ absurd (ground (arith, known))
  | inr fresh ↦
      (let same : ok first ≡ ok res = ground (arith, fresh) in
        let eq : first ≡ res = cc in
        record {
          validated = same;
          unseen = ap (λ x. contains shares (hash x)) (sym eq) ∙ fresh;
          remembered = rw (dedup, fresh) (ap (λ x. insert shares (hash x)) eq);
        })
]
dedup-IsNew shares (err er) res e = absurd (cc)
dedup-IsNew shares panic res e = absurd (cc)

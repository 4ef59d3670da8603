-- ===== src/Session/Invariant/Submit.antt =====
-- `mining.submit` keeps the invariant, and answers whatever the validation gives.
use solo_pool_rs.Prelude.{
  ℕ, ◌+◌, ◌≡◌, ◌⊎◌, refl, ap, not, Option, none, some, length, ◌==◌, if_elim, inl, inr,
}
use solo_pool_rs.Prelude.Bytes.{Bytes}
use solo_pool_rs.Error.{Result, ok, err, panic, PoolError, Returns}
use solo_pool_rs.Template.PrevHash.{Hex}
use solo_pool_rs.Validator.{ShareResult, JobEntry, valid, block}
use solo_pool_rs.Validator.Shares.{dedup}
use solo_pool_rs.Validator.Shares.Invariant as SharesInvariant
use solo_pool_rs.Security.Guard.{record_invalid, InvalidShareCounter}
use solo_pool_rs.Vardiff.{F64, credit_for, record_share}
use solo_pool_rs.Engine.{find_job, submit_found_block}
use solo_pool_rs.Engine.Submission.{accepted, rejected, handed_over, submit_found_block-Ending}
use solo_pool_rs.Sv1.Json.{Json}
use solo_pool_rs.Sv1.Parse.{SubmitParams}
use solo_pool_rs.Session.State.{Session, Handled}
use solo_pool_rs.Session.Submit.{
  SubmitInput, is_malicious, count_invalid, credit, accept, reject, settle_block, settle, conclude,
  validate, submit_on, handle_submit,
}
use solo_pool_rs.Session.Invariant.{IsValid, shares_sound}

-- What `submit_found_block` returns is a success or an error.
pub returned-cases :
    (answers : ℕ → Result (Unit {0}))
    → ((submit_found_block answers).returned ≡ ok tt)
      ⊎ ((e : PoolError) × ((submit_found_block answers).returned ≡ err e))
returned-cases answers = elim (submit_found_block-Ending answers) [
  | accepted k _ _ _ _ e ↦ inl (ap (λ s. s.returned) e)
  | rejected k er _ _ _ _ _ e ↦ inr (er, ap (λ s. s.returned) e)
  | handed_over er _ _ e ↦ inr (er, ap (λ s. s.returned) e)
]

module _ (f : F64) (json : Json f) where
  -- The handler's session is valid.
  abbrev pub Keeps : Handled f json.Value → Type 0
  Keeps h = IsValid f h.session

  credit-IsValid :
      (now hash_difficulty : ℕ) (s : Session f)
      → IsValid f s
      → IsValid f (credit f now hash_difficulty s)
  unfolding credit record_share
  credit-IsValid now hash_difficulty s v = record {
    set_up = v.set_up;
    named = v.named;
    sound =
        shares_sound f s (record_share f (credit_for f s.vardiff hash_difficulty) now s.vardiff)
          v.sound refl refl refl;
  }

  counted-IsValid :
      (counter : InvalidShareCounter) (s : Session f)
      → IsValid f s
      → IsValid f (record s { guard = record s.guard { invalid_shares = counter } })
  counted-IsValid counter s v = record { set_up = v.set_up; named = v.named; sound = v.sound }

module _ (f : F64) (json : Json f) (size_text : ℕ → ℕ → Bytes) where
  reject-IsValid :
      (id : json.Value) (worker : Bytes) (e : PoolError) (s : Session f)
      → IsValid f s
      → Keeps f json (reject f json size_text id worker e s)
  unfolding reject count_invalid
  reject-IsValid id worker e s v =
      if_elim (Keeps f json) (is_malicious e) _ _
        (λ _.
          counted-IsValid f json (record_invalid s.guard.invalid_shares).1
            (record s { shares_rejected = s.shares_rejected + 1 }) counted)
        (λ _. counted)
    where
      counted : IsValid f (record s { shares_rejected = s.shares_rejected + 1 })
      counted = record { set_up = v.set_up; named = v.named; sound = v.sound }

module _ (f : F64) (json : Json f) (hex : Hex) (size_text : ℕ → ℕ → Bytes) where
  settle_block-IsValid :
      (input : SubmitInput) (id : json.Value) (worker : Bytes) (height hash_difficulty : ℕ)
      (hash : Bytes) (s : Session f)
      → IsValid f s
      → Returns (Keeps f json) (
          settle_block f json hex size_text input id worker height hash_difficulty hash
            (submit_found_block input.answers).returned
            s)
  unfolding settle_block accept
  settle_block-IsValid input id worker height hash_difficulty hash s v =
      elim (returned-cases input.answers) [
        | inl e ↦ rw e (credit-IsValid f json input.now hash_difficulty s v)
        | inr (er, e) ↦ rw e v
      ]

  settle-IsValid :
      (input : SubmitInput) (id : json.Value) (worker : Bytes) (height : ℕ) (r : Result ShareResult)
      (s : Session f)
      → IsValid f s
      → Returns (Keeps f json) (settle f json hex size_text input id worker height r s)
  unfolding settle accept
  settle-IsValid input id worker height (ok (valid d hash_difficulty hash)) s v =
      credit-IsValid f json input.now hash_difficulty s v
  settle-IsValid input id worker height (ok (block hash_difficulty block_hex hash)) s v =
      settle_block-IsValid input id worker height hash_difficulty hash s v
  settle-IsValid input id worker height (err e) s v =
      reject-IsValid f json size_text id worker e s v
  settle-IsValid input id worker height panic s v = v

  conclude-IsValid :
      (input : SubmitInput) (id : json.Value) (worker : Bytes) (height : ℕ) (r : Result ShareResult)
      (s : Session f)
      → IsValid f s
      → Returns (Keeps f json) (conclude f json hex size_text input id worker height r s)
  unfolding conclude
  conclude-IsValid input id worker height r s v =
      settle-IsValid input id worker height (dedup s.share_set r).0
        (record s { share_set = (dedup s.share_set r).1 })
        (record {
          set_up = v.set_up;
          named = v.named;
          sound = record {
            narrowed = v.sound.narrowed;
            rolling = v.sound.rolling;
            range = v.sound.range;
            band = v.sound.band;
            assigned = v.sound.assigned;
            same_cfg = v.sound.same_cfg;
            deduplicates = SharesInvariant.dedup-IsValid s.share_set r v.sound.deduplicates;
          };
        })

  module _ (sha256 : Bytes → Bytes) where
    submit_on-IsValid :
        (input : SubmitInput) (id : json.Value) (params : SubmitParams) (entry : Option JobEntry)
        (s : Session f)
        → IsValid f s
        → Returns (Keeps f json) (submit_on f json hex size_text sha256 input id params entry s)
    unfolding submit_on
    submit_on-IsValid input id params none s v = v
    submit_on-IsValid input id params (some entry) s v =
        conclude-IsValid input id _ entry.job.height (validate f hex sha256 params entry s) s v

    pub submit-IsValid :
        (input : SubmitInput) (id : json.Value) (params : SubmitParams) (s : Session f)
        → IsValid f s
        → Returns (Keeps f json) (handle_submit f json hex size_text sha256 input id params s)
    unfolding handle_submit count_invalid
    submit-IsValid input id params s v =
        if_elim (Returns (Keeps f json)) (not s.authorized) _ _ (λ _. v)
          (λ _.
            if_elim (Returns (Keeps f json)) (not (length params.extranonce2 == s.extranonce2_size))
              _ _ (λ _. counted-IsValid f json (record_invalid s.guard.invalid_shares).1 s v)
              (λ _. submit_on-IsValid input id params (find_job params.job_id input.engine) s v))

-- ===== src/Session/Submit/Disconnects.antt =====
-- When a submission ends the session.
use Prim.Native.String.{String}
use solo_pool_rs.Prelude.{
  ℕ, ◌+◌, ◌≤◌, ◌<◌, ◌≡◌, ◌≢◌, ◌⊎◌, refl, Bool, true, false, not, Option, none, some, List, length,
  ◌==◌, arith, if_elim, if◌then◌else◌, inl, inr,
}
use solo_pool_rs.Prelude.Bytes.{Bytes}
use solo_pool_rs.Error.{Result, ok, err, panic, PoolError, Returns, Returns-map}
use solo_pool_rs.Template.PrevHash.{Hex}
use solo_pool_rs.Validator.{ShareResult, JobEntry, valid, block}
use solo_pool_rs.Validator.Shares.{dedup}
use solo_pool_rs.Security.Guard.{InvalidShareCounter, record_invalid}
use solo_pool_rs.Vardiff.{F64}
use solo_pool_rs.Engine.{find_job, submit_found_block}
use solo_pool_rs.Sv1.Json.{Json}
use solo_pool_rs.Sv1.Parse.{SubmitParams}
use solo_pool_rs.Session.State.{HandleResult, messages, disconnect, Session, Handled}
use solo_pool_rs.Session.Submit.{
  SubmitInput, is_malicious, count_invalid, accept, reject, settle_block, settle, conclude,
  validate, submit_on, handle_submit,
}
use solo_pool_rs.Session.Invariant.Submit.{returned-cases}

-- The next invalid share reaches the limit.
abbrev pub IsAtLimit : InvalidShareCounter → Type 0
IsAtLimit c = (0 < c.max) × (c.max ≤ c.count + 1)

record_invalid-IsAtLimit : (c : InvalidShareCounter) → (record_invalid c).0 ≡ true → IsAtLimit c
unfolding record_invalid
record_invalid-IsAtLimit c e = ground arith

-- An answer that ends the session.
abbrev pub IsDropped : {Value : Type 0} → HandleResult Value → Type 0
IsDropped answer = (reason : String) × (answer ≡ disconnect reason)

module _ (f : F64) (json : Json f) where
  -- Whether a handler's answer ends the session implies `P`.
  abbrev pub DropsOnly : Type 0 → Handled f json.Value → Type 0
  DropsOnly P h = IsDropped h.answer → P

module _ (f : F64) (json : Json f) (size_text : ℕ → ℕ → Bytes) where
  count_invalid-DropsOnly :
      (c : InvalidShareCounter) (a : HandleResult json.Value)
      → ¬ IsDropped a
      → IsDropped (if (record_invalid c).0 then disconnect "too many invalid shares" else a)
      → IsAtLimit c
  count_invalid-DropsOnly c a stays = go (record_invalid c).0 refl
    where
      go :
          (b : Bool)
          → (record_invalid c).0 ≡ b
          → IsDropped (if b then disconnect "too many invalid shares" else a)
          → IsAtLimit c
      go true e drop = record_invalid-IsAtLimit c e
      go false e drop = absurd (stays drop)

  messages-stay : (id : json.Value) (ms : List json.Value) → ¬ IsDropped (messages ms)
  messages-stay id ms (reason, e) = cc

  -- What makes the arm of a refused share end the session.
  reject-DropsOnly :
      (id : json.Value) (worker : Bytes) (e : PoolError) (s : Session f)
      → DropsOnly f json
          ((is_malicious e ≡ true) × IsAtLimit s.guard.invalid_shares)
          (reject f json size_text id worker e s)
  unfolding reject count_invalid
  reject-DropsOnly id worker e s =
      if_elim (DropsOnly f json ((is_malicious e ≡ true) × IsAtLimit s.guard.invalid_shares))
        (is_malicious e) _ _
        (λ bad.
          λ drop. (bad, count_invalid-DropsOnly s.guard.invalid_shares _ (messages-stay id _) drop))
        (λ _. λ drop. absurd (messages-stay id _ drop))

module _ (f : F64) (json : Json f) (hex : Hex) (size_text : ℕ → ℕ → Bytes) where
  -- What makes the settling of a result end the session.
  abbrev Reason : Result ShareResult → Session f → Type 0
  Reason r s =
      (r ≡ panic)
      ⊎ ((e : PoolError) × (r ≡ err e) × (is_malicious e ≡ true) × IsAtLimit s.guard.invalid_shares)

  settle-DropsOnly :
      (input : SubmitInput) (id : json.Value) (worker : Bytes) (height : ℕ) (r : Result ShareResult)
      (s : Session f)
      → Returns
          (DropsOnly f json (Reason r s))
          (settle f json hex size_text input id worker height r s)
  unfolding settle accept
  settle-DropsOnly input id worker height (ok (valid d difficulty h)) s = λ (reason, e). cc
  settle-DropsOnly input id worker height (ok (block difficulty block_hex h)) s =
      elim (returned-cases input.answers) [ inl e ↦ counted e | inr (er, e) ↦ refused er e ]
    where
      Goal : Type 0
      Goal = Returns (DropsOnly f json (Reason (ok (block difficulty block_hex h)) s)) (
          settle_block f json hex size_text input id worker height difficulty h
            (submit_found_block input.answers).returned s)

      counted : (submit_found_block input.answers).returned ≡ ok tt → Goal
      counted e = unfold settle_block in rw (settle_block, e) (λ (reason, x). cc)

      refused : (er : PoolError) → (submit_found_block input.answers).returned ≡ err er → Goal
      refused er e = unfold settle_block in rw (settle_block, e) (λ (reason, x). cc)
  settle-DropsOnly input id worker height (err e) s = λ drop.
      let (bad, limit) = reject-DropsOnly f json size_text id worker e s drop in
      inr (e, refl, bad, limit)
  settle-DropsOnly input id worker height panic s = λ drop. inl refl

  module _ (sha256 : Bytes → Bytes) where
    -- What makes a submission end the session: a share that counts as invalid, when the next one
    -- reaches the limit, or a validation that panicked.
    pub data Ends (input : SubmitInput) (params : SubmitParams) (s : Session f) : Type 0 where
      wrong_width :
          length params.extranonce2 ≢ s.extranonce2_size
          → IsAtLimit s.guard.invalid_shares
          → Ends input params s
      malicious :
          (entry : JobEntry) (e : PoolError)
          → find_job params.job_id input.engine ≡ some entry
          → (dedup s.share_set (validate f hex sha256 params entry s)).0 ≡ err e
          → is_malicious e ≡ true
          → IsAtLimit s.guard.invalid_shares
          → Ends input params s
      crashed :
          (entry : JobEntry)
          → find_job params.job_id input.engine ≡ some entry
          → (dedup s.share_set (validate f hex sha256 params entry s)).0 ≡ panic
          → Ends input params s

    submit_on-DropsOnly :
        (input : SubmitInput) (id : json.Value) (params : SubmitParams) (entry : Option JobEntry)
        (s : Session f)
        → find_job params.job_id input.engine ≡ entry
        → Returns
            (DropsOnly f json (Ends input params s))
            (submit_on f json hex size_text sha256 input id params entry s)
    unfolding submit_on conclude
    submit_on-DropsOnly input id params none s looked = λ (reason, e). cc
    submit_on-DropsOnly input id params (some entry) s looked =
        let deduped = dedup s.share_set (validate f hex sha256 params entry s) in
        Returns-map
          (λ h. λ only. λ drop. elim (only drop) [
            | inl crash ↦ crashed entry looked crash
            | inr (e, refused, bad, limit) ↦ malicious entry e looked refused bad limit
          ])
          (submit_on f json hex size_text sha256 input id params (some entry) s)
          (settle-DropsOnly input id _ entry.job.height deduped.0
            (record s { share_set = deduped.1 }))

    -- A submission ends the session only if the share has a wrong extranonce width, or was refused
    -- for another reason than being stale or of low difficulty, and is the invalid share that
    -- reaches the limit; or if the validation panicked. So no stale, unknown or low-difficulty
    -- share ever ends a session, and where the limit is 0 only a panic of the validation does.
    pub submit-Ends :
        (input : SubmitInput) (id : json.Value) (params : SubmitParams) (s : Session f)
        → Returns
            (λ h. IsDropped h.answer → Ends input params s)
            (handle_submit f json hex size_text sha256 input id params s)
    unfolding handle_submit count_invalid
    submit-Ends input id params s =
        if_elim Goal (not s.authorized) _ _
          (λ _. λ drop. absurd (messages-stay f json size_text id _ drop))
          (λ _.
            if_elim Goal (not (length params.extranonce2 == s.extranonce2_size)) _ _
              (λ wide. λ drop.
                wrong_width (λ e. absurd (ground (arith, wide, e)))
                  (count_invalid-DropsOnly f json size_text s.guard.invalid_shares _
                    (messages-stay f json size_text id _) drop))
              (λ _.
                submit_on-DropsOnly input id params (find_job params.job_id input.engine) s refl))
      where
        Goal : Result (Handled f json.Value) → Type 0
        Goal = Returns (DropsOnly f json (Ends input params s))

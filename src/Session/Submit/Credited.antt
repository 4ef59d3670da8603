-- ===== src/Session/Submit/Credited.antt =====
-- What stands behind a share that is counted and credited.
use solo_pool_rs.Prelude.{
  ℕ, ◌+◌, ◌≡◌, ◌⊎◌, ◌∙◌, refl, ap, sym, subst, true, false, not, Option, none, some, List, length,
  ◌==◌, arith, if_elim, inl, inr, Bool-cases,
}
use solo_pool_rs.Prelude.Bytes.{Bytes}
use solo_pool_rs.Security.Guard.{record_invalid}
use solo_pool_rs.Error.{
  not_authorized, bad_extranonce_size, stale_job, Result, ok, Returns, Returns-map,
}
use solo_pool_rs.Template.Job.{StratumJob}
use solo_pool_rs.Template.PrevHash.{Hex}
use solo_pool_rs.Template.Coinbase.{BitcoinCrate}
use solo_pool_rs.Validator.{ShareResult, JobEntry, hash, validate_share_no_dedup}
use solo_pool_rs.Validator.Shares.{contains, dedup, insert}
use solo_pool_rs.Validator.Shares.Fresh.{IsNew, dedup-IsNew}
use solo_pool_rs.Vardiff.{F64}
use solo_pool_rs.Engine.{PoolConfig, RefreshInput, find_job, submit_found_block}
use solo_pool_rs.Engine as Engine
use solo_pool_rs.Engine.Tip.{find_job_on_tip}
use solo_pool_rs.Sv1.Json.{Json}
use solo_pool_rs.Sv1.Parse.{SubmitParams}
use solo_pool_rs.Session.State.{Session, Handled}
use solo_pool_rs.Session.Submit.{
  SubmitInput, worker_or_unknown, count_invalid, settle, conclude, validate, submit_on,
  handle_submit,
}
use solo_pool_rs.Session.Submit.Settled.{
  credits, IsCounted, IsUncounted, error_told, limited-IsRefusal, hash_difficulty, settle-Settles,
}

module _ (f : F64) (json : Json f) (hex : Hex) (size_text : ℕ → ℕ → Bytes) where
  abbrev Concludes :
      json.Value → Bytes → Result ShareResult → Session f → Handled f json.Value → Type 0
  Concludes id worker r s h =
      ((res : ShareResult) × IsNew r res s.share_set h.session.share_set
        × IsCounted f json id worker (hash_difficulty res) s h)
      ⊎ IsUncounted f json size_text id s h

  conclude-Concludes :
      (input : SubmitInput) (id : json.Value) (worker : Bytes) (height : ℕ) (r : Result ShareResult)
      (s : Session f)
      → Returns (Concludes id worker r s) (conclude f json hex size_text input id worker height r s)
  unfolding conclude
  conclude-Concludes input id worker height r s =
      let t : Session f = record s { share_set = (dedup s.share_set r).1 } in
      Returns-map
        (λ h. λ x. elim x [
          | inl (res, e, kept, counted) ↦
              (let n = dedup-IsNew s.share_set r res e in
                inl (
                  res,
                  record {
                    validated = n.validated;
                    unseen = n.unseen;
                    remembered = kept ∙ n.remembered;
                  },
                  record {
                    one_accepted = counted.one_accepted;
                    same_rejected = counted.same_rejected;
                    credited = counted.credited;
                    told = counted.told;
                    same_difficulty = counted.same_difficulty;
                    same_authorized = counted.same_authorized;
                  },
                ))
          | inr no_share ↦ inr (record {
            same_accepted = no_share.same_accepted;
            same_vardiff = no_share.same_vardiff;
            nothing = no_share.nothing;
            untold = no_share.untold;
            same_difficulty = no_share.same_difficulty;
            same_authorized = no_share.same_authorized;
          })
        ])
        (settle f json hex size_text input id worker height (dedup s.share_set r).0 t)
        (settle-Settles f json hex size_text input id worker height (dedup s.share_set r).0 t)

  module _ (sha256 : Bytes → Bytes) where
    -- What stands behind a share that the session counts: the miner is authorized, the extranonce
    -- has the width it was given, the job is a known one that no clean job superseded, the
    -- validation accepted the share, and its hash was not remembered before and is now.
    pub record IsCredited (input : SubmitInput) (id : json.Value) (params : SubmitParams)
        (s : Session f) (h : Handled f json.Value) : Type 0 where
      pub authorized : s.authorized ≡ true
      pub width : length params.extranonce2 ≡ s.extranonce2_size
      pub entry : JobEntry
      pub found : find_job params.job_id input.engine ≡ some entry
      pub live : entry.superseded_by_clean ≡ false
      pub result : ShareResult
      pub validated : validate f hex sha256 params entry s ≡ ok result
      pub unseen : contains s.share_set (hash result) ≡ false
      pub remembered : h.session.share_set ≡ insert s.share_set (hash result)
      pub counted : IsCounted f json id (worker_or_unknown s.worker) (hash_difficulty result) s h

    validate-live :
        (params : SubmitParams) (entry : JobEntry) (s : Session f) (res : ShareResult)
        → validate f hex sha256 params entry s ≡ ok res
        → entry.superseded_by_clean ≡ false
    unfolding validate validate_share_no_dedup
    validate-live params entry s res e = elim (Bool-cases entry.superseded_by_clean) [
      | inl stale ↦ absurd (ground (arith, stale))
      | inr live ↦ live
    ]

    submit_on-IsCredited :
        (input : SubmitInput) (id : json.Value) (params : SubmitParams) (entry : Option JobEntry)
        (s : Session f)
        → find_job params.job_id input.engine ≡ entry
        → s.authorized ≡ true
        → length params.extranonce2 ≡ s.extranonce2_size
        → Returns
            (λ h. IsCredited input id params s h ⊎ IsUncounted f json size_text id s h)
            (submit_on f json hex size_text sha256 input id params entry s)
    unfolding submit_on credits
    submit_on-IsCredited input id params none s looked authorized width = inr (record {
      same_accepted = refl;
      same_vardiff = refl;
      nothing = refl;
      untold = error_told (stale_job params.job_id);
      same_difficulty = refl;
      same_authorized = refl;
    })
    submit_on-IsCredited input id params (some entry) s looked authorized width =
        Returns-map
          (λ h. λ x. elim x [
            | inl (res, n, counted) ↦ inl (record {
              authorized = authorized;
              width = width;
              entry = entry;
              found = looked;
              live = validate-live params entry s res n.validated;
              result = res;
              validated = n.validated;
              unseen = n.unseen;
              remembered = n.remembered;
              counted = counted;
            })
            | inr no_share ↦ inr no_share
          ])
          (submit_on f json hex size_text sha256 input id params (some entry) s)
          (conclude-Concludes input id _ entry.job.height (validate f hex sha256 params entry s) s)

    -- Every submission is answered; and it is counted, credited to the session's worker and answered
    -- with `true` only if the miner is authorized, the extranonce has the width the session gave out, the
    -- job is one that the engine knows and no clean job superseded, the validation accepted the
    -- share, and its header hash was not remembered and now is. Then exactly one share is
    -- counted, with the credit of its hash. In every other case nothing is counted or credited, and
    -- the answer is one error reply or a disconnection.
    pub submit-IsCredited :
        (input : SubmitInput) (id : json.Value) (params : SubmitParams) (s : Session f)
        → Returns
            (λ h. IsCredited input id params s h ⊎ IsUncounted f json size_text id s h)
            (handle_submit f json hex size_text sha256 input id params s)
    unfolding handle_submit count_invalid credits
    submit-IsCredited input id params s =
        if_elim Goal (not s.authorized) _ _
          (λ _. inr (record {
            same_accepted = refl;
            same_vardiff = refl;
            nothing = refl;
            untold = error_told not_authorized;
            same_difficulty = refl;
            same_authorized = refl;
          }))
          (λ known.
            if_elim Goal (not (length params.extranonce2 == s.extranonce2_size)) _ _
              (λ _. inr (record {
                same_accepted = refl;
                same_vardiff = refl;
                nothing = refl;
                untold =
                    limited-IsRefusal f json size_text id
                      (bad_extranonce_size (length params.extranonce2) s.extranonce2_size)
                      (record_invalid s.guard.invalid_shares).0;
                same_difficulty = refl;
                same_authorized = refl;
              }))
              (λ fits.
                submit_on-IsCredited input id params (find_job params.job_id input.engine) s refl
                  (ground (arith, known)) (ground (arith, fits))))
      where
        Goal : Result (Handled f json.Value) → Type 0
        Goal = Returns (λ h. IsCredited input id params s h ⊎ IsUncounted f json size_text id s h)

    -- A share that is counted by a session whose engine ran any refreshes since its start is for a
    -- job on the block that the engine's current job builds on.
    pub credited-on_tip :
        (bitcoin : BitcoinCrate) (cfg : PoolConfig) (refreshes : List RefreshInput)
        (input : SubmitInput) (id : json.Value) (params : SubmitParams) (s : Session f)
        (h : Handled f json.Value)
        → input.engine ≡ Engine.run sha256 hex bitcoin cfg refreshes Engine.new
        → handle_submit f json hex size_text sha256 input id params s ≡ ok h
        → h.session.shares_accepted ≡ s.shares_accepted + 1
        → (entry : JobEntry) × (current : StratumJob) × (find_job params.job_id input.engine
            ≡ some entry)
          × (entry.job.job_id ≡ params.job_id)
          × (input.engine.current_job ≡ some current)
          × (entry.job.prev_hash ≡ current.prev_hash)
    credited-on_tip bitcoin cfg refreshes input id params s h from e counted =
        elim (subst
          (Returns (λ h. IsCredited input id params s h ⊎ IsUncounted f json size_text id s h)) e
          (submit-IsCredited input id params s)) [
            | inr nothing ↦ absurd (omega (arith, counted, nothing.same_accepted))
            | inl c ↦
                (let (same_id, (current, is_current, tip)) =
                    find_job_on_tip sha256 hex bitcoin cfg refreshes params.job_id c.entry
                      (ap (find_job params.job_id) (sym from) ∙ c.found) c.live in
                  (
                    c.entry,
                    current,
                    c.found,
                    same_id,
                    ap (λ x. x.current_job) from ∙ is_current,
                    tip,
                  ))
          ]

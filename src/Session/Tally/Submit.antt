-- ===== src/Session/Tally/Submit.antt =====
-- A submission's calls account for the share that it counts.
use solo_pool_rs.Prelude.{
  ℕ, ◌≡◌, ◌⊎◌, refl, ap, not, Option, none, some, length, ◌==◌, arith, if_elim, inl, inr,
}
use solo_pool_rs.Prelude.Bytes.{Bytes}
use solo_pool_rs.Error.{Result, ok, err, panic, PoolError, Returns, Returns-map, Returns-zip}
use solo_pool_rs.Template.PrevHash.{Hex}
use solo_pool_rs.Validator.{ShareResult, JobEntry, valid, block}
use solo_pool_rs.Validator.Shares.{dedup}
use solo_pool_rs.Vardiff.{F64}
use solo_pool_rs.Engine.{find_job, submit_found_block}
use solo_pool_rs.Sv1.Json.{Json}
use solo_pool_rs.Sv1.Parse.{SubmitParams}
use solo_pool_rs.Session.State.{Session, Handled}
use solo_pool_rs.Session.Submit.{
  SubmitInput, is_malicious, count_invalid, credit, accept, accepted_calls, reject, settle_block,
  settle, conclude, validate, submit_on, handle_submit,
}
use solo_pool_rs.Session.Submit.Settled.{IsUncounted}
use solo_pool_rs.Session.Submit.Credited.{IsCredited, submit-IsCredited}
use solo_pool_rs.Session.Invariant.Submit.{returned-cases}
use solo_pool_rs.Session.Tally.{online, offline, here, Accounted}

module _ (f : F64) (json : Json f) where
  -- No worker comes or goes.
  pub record IsQuiet (s : Session f) (h : Handled f json.Value) : Type 0 where
    pub nobody_online : (w : Bytes) → online f w h.calls ≡ 0
    pub nobody_offline : (w : Bytes) → offline f w h.calls ≡ 0
    pub same_worker : h.session.worker ≡ s.worker

module _ (f : F64) (json : Json f) (hex : Hex) (size_text : ℕ → ℕ → Bytes) where
  reject-IsQuiet :
      (id : json.Value) (worker : Bytes) (e : PoolError) (s : Session f)
      → IsQuiet f json s (reject f json size_text id worker e s)
  unfolding reject count_invalid online offline
  reject-IsQuiet id worker e s =
      if_elim (IsQuiet f json s) (is_malicious e) _ _
        (λ _. record { nobody_online = λ w. refl; nobody_offline = λ w. refl; same_worker = refl })
        (λ _. record { nobody_online = λ w. refl; nobody_offline = λ w. refl; same_worker = refl })

  settle-IsQuiet :
      (input : SubmitInput) (id : json.Value) (worker : Bytes) (height : ℕ) (r : Result ShareResult)
      (s : Session f)
      → Returns (IsQuiet f json s) (settle f json hex size_text input id worker height r s)
  unfolding settle accept credit online offline accepted_calls
  settle-IsQuiet input id worker height (ok (valid d difficulty h)) s = record {
    nobody_online = λ w. refl;
    nobody_offline = λ w. refl;
    same_worker = refl;
  }
  settle-IsQuiet input id worker height (ok (block difficulty block_hex h)) s =
      elim (returned-cases input.answers) [ inl e ↦ counted e | inr (er, e) ↦ refused er e ]
    where
      Goal : Type 0
      Goal = Returns (IsQuiet f json s) (
          settle_block f json hex size_text input id worker height difficulty h
            (submit_found_block input.answers).returned s)

      counted : (submit_found_block input.answers).returned ≡ ok tt → Goal
      counted e =
          unfold settle_block in
          rw (settle_block, e)
            (record { nobody_online = λ w. refl; nobody_offline = λ w. refl; same_worker = refl })

      refused : (er : PoolError) → (submit_found_block input.answers).returned ≡ err er → Goal
      refused er e =
          unfold settle_block in
          rw (settle_block, e)
            (record { nobody_online = λ w. refl; nobody_offline = λ w. refl; same_worker = refl })
  settle-IsQuiet input id worker height (err e) s = reject-IsQuiet id worker e s
  settle-IsQuiet input id worker height panic s = record {
    nobody_online = λ w. refl;
    nobody_offline = λ w. refl;
    same_worker = refl;
  }

  module _ (sha256 : Bytes → Bytes) where
    submit_on-IsQuiet :
        (input : SubmitInput) (id : json.Value) (params : SubmitParams) (entry : Option JobEntry)
        (s : Session f)
        → Returns (IsQuiet f json s) (submit_on f json hex size_text sha256 input id params entry s)
    unfolding submit_on conclude online offline
    submit_on-IsQuiet input id params none s = record {
      nobody_online = λ w. refl;
      nobody_offline = λ w. refl;
      same_worker = refl;
    }
    submit_on-IsQuiet input id params (some entry) s =
        let deduped = dedup s.share_set (validate f hex sha256 params entry s) in
        Returns-map
          (λ h. λ q. record {
            nobody_online = q.nobody_online;
            nobody_offline = q.nobody_offline;
            same_worker = q.same_worker;
          })
          (submit_on f json hex size_text sha256 input id params (some entry) s)
          (settle-IsQuiet input id _ entry.job.height deduped.0
            (record s { share_set = deduped.1 }))

    submit-IsQuiet :
        (input : SubmitInput) (id : json.Value) (params : SubmitParams) (s : Session f)
        → Returns (IsQuiet f json s) (handle_submit f json hex size_text sha256 input id params s)
    unfolding handle_submit count_invalid online offline
    submit-IsQuiet input id params s =
        if_elim (Returns (IsQuiet f json s)) (not s.authorized) _ _
          (λ _. record {
            nobody_online = λ w. refl;
            nobody_offline = λ w. refl;
            same_worker = refl;
          })
          (λ _.
            if_elim (Returns (IsQuiet f json s))
              (not (length params.extranonce2 == s.extranonce2_size)) _ _
              (λ _. record {
                nobody_online = λ w. refl;
                nobody_offline = λ w. refl;
                same_worker = refl;
              })
              (λ _. submit_on-IsQuiet input id params (find_job params.job_id input.engine) s))

    quiet-Accounted :
        (input : SubmitInput) (id : json.Value) (params : SubmitParams) (s : Session f)
        (h : Handled f json.Value)
        → IsQuiet f json s h
        → IsCredited f json hex size_text sha256 input id params s h
          ⊎ IsUncounted f json size_text id s h
        → Accounted f s h
    quiet-Accounted input id params s h q counts = record {
      balance =
          λ w. omega (arith, q.nobody_online w, q.nobody_offline w, ap (here w) q.same_worker);
      count = elim counts [
        | inl c ↦ omega (arith, ap length c.counted.credited, c.counted.one_accepted)
        | inr n ↦ omega (arith, ap length n.nothing, n.same_accepted)
      ];
    }

    pub submit-Accounted :
        (input : SubmitInput) (id : json.Value) (params : SubmitParams) (s : Session f)
        → Returns (Accounted f s) (handle_submit f json hex size_text sha256 input id params s)
    submit-Accounted input id params s =
        Returns-zip (quiet-Accounted input id params s)
          (handle_submit f json hex size_text sha256 input id params s)
          (submit-IsQuiet input id params s)
          (submit-IsCredited f json hex size_text sha256 input id params s)

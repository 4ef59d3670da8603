-- ===== src/Sv2/Channel/Submit/Settled.antt =====
-- A settled share of an SV2 device is counted and credited, or not at all.
use Prim.Native.String.{String}
use solo_pool_rs.Prelude.{ℕ, ◌+◌, ◌≡◌, ◌⊎◌, refl, List, [], ◌∷◌, if_elim, inl, inr}
use solo_pool_rs.Prelude.Bytes.{Bytes}
use solo_pool_rs.Error.{Result, ok, err, panic, PoolError, Returns}
use solo_pool_rs.Template.PrevHash.{Hex}
use solo_pool_rs.Validator.{ShareResult, valid, block}
use solo_pool_rs.Vardiff.{F64, credit_for, record_share}
use solo_pool_rs.Engine.{submit_found_block}
use solo_pool_rs.Security.Guard.{record_invalid}
use solo_pool_rs.Session.State.{StatCall, share_rejected, worker_share_rejected}
use solo_pool_rs.Session.Submit.{SubmitInput, accepted_calls, is_malicious, reject_reason}
use solo_pool_rs.Session.Submit.Settled.{credits, hash_difficulty}
use solo_pool_rs.Session.Tally.{online, offline}
use solo_pool_rs.Session.Invariant.Submit.{returned-cases}
use solo_pool_rs.Sv2.Frame.{Outbound, Wire, submit_shares_success, submit_shares_error}
use solo_pool_rs.Sv2.Channel.{Flow, disconnect, Sv2Session, Handled, emit}
use solo_pool_rs.Sv2.Channel.Submit.{
  credit, accept, reject, count_invalid, refuse, settle_block, settle,
}

module _ (f : F64) (wire : Wire) where
  -- The answer is a disconnection without a message, or the error of that submission, if it can be
  -- sent.
  pub data IsRefusal (seq channel_id : ℕ) : Flow × List Outbound → Type 0 where
    ended : (reason : String) → IsRefusal seq channel_id (disconnect reason, [])
    error_told :
        (code : String)
        → IsRefusal seq channel_id
            (emit wire (submit_shares_error channel_id seq code) "encode SubmitSharesError")

  -- Nothing is counted or credited, the device is told of an error or disconnected, and no worker
  -- comes or goes.
  pub record IsUncounted (seq : ℕ) (s : Sv2Session f) (h : Handled f) : Type 0 where
    pub untold : IsRefusal seq s.channel_id (h.flow, h.sent)
    pub same_accepted : h.session.shares_accepted ≡ s.shares_accepted
    pub same_vardiff : h.session.vardiff ≡ s.vardiff
    pub same_total : h.session.extranonce_total ≡ s.extranonce_total
    pub nothing : credits f h.calls ≡ []
    pub same_worker : h.session.worker ≡ s.worker
    pub nobody : (w : Bytes) → (online f w h.calls ≡ 0) × (offline f w h.calls ≡ 0)

  -- One share of that hash difficulty is counted and credited to that worker, the device is told so,
  -- and no worker comes or goes.
  pub record IsCounted (seq : ℕ) (worker : Bytes) (hash_difficulty : ℕ) (s : Sv2Session f)
      (h : Handled f) : Type 0 where
    pub one_accepted : h.session.shares_accepted ≡ s.shares_accepted + 1
    pub same_rejected : h.session.shares_rejected ≡ s.shares_rejected
    pub same_total : h.session.extranonce_total ≡ s.extranonce_total
    pub same_difficulties :
        (h.session.vardiff.cfg ≡ s.vardiff.cfg)
        × (h.session.vardiff.current ≡ s.vardiff.current)
        × (h.session.vardiff.previous ≡ s.vardiff.previous)
    pub credited : credits f h.calls ≡ (worker, credit_for f s.vardiff hash_difficulty) ∷ []
    pub told :
        (h.flow, h.sent)
        ≡ emit wire
            (submit_shares_success s.channel_id seq s.difficulty)
            "encode SubmitSharesSuccess"
    pub same_worker : h.session.worker ≡ s.worker
    pub nobody : (w : Bytes) → (online f w h.calls ≡ 0) × (offline f w h.calls ≡ 0)

  pub count_invalid-IsUncounted :
      (seq : ℕ) (code : String) (calls : List (StatCall f)) (s : Sv2Session f)
      → credits f calls ≡ []
      → ((w : Bytes) → (online f w calls ≡ 0) × (offline f w calls ≡ 0))
      → IsUncounted seq s (count_invalid f wire seq code calls s)
  unfolding count_invalid reject
  count_invalid-IsUncounted seq code calls s none_credited nobody =
      if_elim (IsUncounted seq s) (record_invalid s.guard.invalid_shares).0 _ _
        (λ _. record {
          untold = ended "too many invalid shares";
          same_accepted = refl;
          same_vardiff = refl;
          same_total = refl;
          nothing = none_credited;
          same_worker = refl;
          nobody = nobody;
        })
        (λ _. record {
          untold = error_told code;
          same_accepted = refl;
          same_vardiff = refl;
          same_total = refl;
          nothing = none_credited;
          same_worker = refl;
          nobody = nobody;
        })

  refuse-IsUncounted :
      (seq : ℕ) (worker : Bytes) (e : PoolError) (s : Sv2Session f)
      → IsUncounted seq s (refuse f wire seq worker e s)
  unfolding refuse reject credits online offline
  refuse-IsUncounted seq worker e s =
      let counted : Sv2Session f = record s { shares_rejected = s.shares_rejected + 1 } in
      let calls = share_rejected ∷ worker_share_rejected worker (reject_reason e) ∷ [] in
      if_elim (IsUncounted seq s) (is_malicious e) _ _
        (λ _.
          let c =
            count_invalid-IsUncounted seq (reject_reason e) calls counted refl
              (λ w. (refl, refl)) in
          record {
            untold = c.untold;
            same_accepted = c.same_accepted;
            same_vardiff = c.same_vardiff;
            same_total = c.same_total;
            nothing = c.nothing;
            same_worker = c.same_worker;
            nobody = c.nobody;
          })
        (λ _. record {
          untold = error_told (reject_reason e);
          same_accepted = refl;
          same_vardiff = refl;
          same_total = refl;
          nothing = refl;
          same_worker = refl;
          nobody = λ w. (refl, refl);
        })

  module _ (hex : Hex) where
    -- A settled result: counted if it is one, else not.
    abbrev pub Settles : ℕ → Bytes → Result ShareResult → Sv2Session f → Handled f → Type 0
    Settles seq worker r s h =
        ((res : ShareResult) × (r ≡ ok res)
          × (h.session.share_set ≡ s.share_set)
          × IsCounted seq worker (hash_difficulty res) s h)
        ⊎ IsUncounted seq s h

    pub settle-Settles :
        (input : SubmitInput) (seq : ℕ) (worker : Bytes) (height : ℕ) (r : Result ShareResult)
        (s : Sv2Session f)
        → Returns (Settles seq worker r s) (settle f wire hex input seq worker height r s)
    unfolding settle accept credit credits accepted_calls online offline record_share
    settle-Settles input seq worker height (ok (valid d difficulty h)) s = inl (
      valid d difficulty h,
      refl,
      refl,
      record {
        one_accepted = refl;
        same_rejected = refl;
        same_total = refl;
        same_difficulties = (refl, refl, refl);
        credited = refl;
        told = refl;
        same_worker = refl;
        nobody = λ w. (refl, refl);
      },
    )
    settle-Settles input seq worker height (ok (block difficulty block_hex h)) s =
        elim (returned-cases input.answers) [ inl e ↦ counted e | inr (er, e) ↦ refused er e ]
      where
        Goal : Type 0
        Goal = Returns (Settles seq worker (ok (block difficulty block_hex h)) s) (
            settle_block f wire hex input seq worker height difficulty h
              (submit_found_block input.answers).returned s)

        counted : (submit_found_block input.answers).returned ≡ ok tt → Goal
        counted e =
            unfold settle_block in
            rw (settle_block, e)
              (inl (
                block difficulty block_hex h,
                refl,
                refl,
                record {
                  one_accepted = refl;
                  same_rejected = refl;
                  same_total = refl;
                  same_difficulties = (refl, refl, refl);
                  credited = refl;
                  told = refl;
                  same_worker = refl;
                  nobody = λ w. (refl, refl);
                },
              ))

        refused : (er : PoolError) → (submit_found_block input.answers).returned ≡ err er → Goal
        refused er e =
            unfold settle_block reject in
            rw (settle_block, e)
              (inr (record {
                untold = error_told "block-submit-failed";
                same_accepted = refl;
                same_vardiff = refl;
                same_total = refl;
                nothing = refl;
                same_worker = refl;
                nobody = λ w. (refl, refl);
              }))
    settle-Settles input seq worker height (err e) s = inr (refuse-IsUncounted seq worker e s)
    settle-Settles input seq worker height panic s = inr (record {
      untold = ended "internal error";
      same_accepted = refl;
      same_vardiff = refl;
      same_total = refl;
      nothing = refl;
      same_worker = refl;
      nobody = λ w. (refl, refl);
    })

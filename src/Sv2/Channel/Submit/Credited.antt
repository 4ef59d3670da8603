-- ===== src/Sv2/Channel/Submit/Credited.antt =====
-- What stands behind a share of an SV2 device that is counted and credited.
use solo_pool_rs.Prelude.{
  ℕ, ◌≡◌, ◌⊎◌, ◌∙◌, refl, true, false, not, Option, none, some, length, ◌==◌, arith, if_elim, inl,
  inr, Bool-cases,
}
use solo_pool_rs.Prelude.Bytes.{Bytes}
use solo_pool_rs.Error.{Result, ok, Returns, Returns-map}
use solo_pool_rs.Template.PrevHash.{Hex}
use solo_pool_rs.Validator.{ShareResult, JobEntry, hash, validate_share_no_dedup}
use solo_pool_rs.Validator.Shares.{contains, dedup, insert}
use solo_pool_rs.Validator.Shares.Fresh.{dedup-IsNew}
use solo_pool_rs.Vardiff.{F64}
use solo_pool_rs.Session.Submit.{SubmitInput, worker_or_unknown}
use solo_pool_rs.Session.Submit.Settled.{credits, hash_difficulty}
use solo_pool_rs.Session.Tally.{online, offline}
use solo_pool_rs.Sv2.Frame.{SubmitExtended, Wire}
use solo_pool_rs.Sv2.Channel.{Sv2Session, Handled}
use solo_pool_rs.Sv2.Channel.Submit.{validate, reject, named_entry, submit_on, handle_submit}
use solo_pool_rs.Sv2.Channel.Submit.Settled.{
  IsUncounted, IsCounted, ended, error_told, count_invalid-IsUncounted, settle-Settles,
}

module _ (f : F64) (wire : Wire) (hex : Hex) (sha256 : Bytes → Bytes) where
  -- What stands behind a share that the session counts: the channel is open, the payload was
  -- decoded, the extranonce has the width it was given, the job id names a job that the
  -- engine still has and no clean job superseded, the validation accepted the share, and its
  -- hash was not remembered before and is now.
  pub record IsCredited (input : SubmitInput) (decoded : Option SubmitExtended) (s : Sv2Session f)
      (h : Handled f) : Type 0 where
    pub opened : s.channel_open ≡ true
    pub submit : SubmitExtended
    pub readable : decoded ≡ some submit
    pub width : length submit.extranonce ≡ s.extranonce_size
    pub entry : JobEntry
    pub named : named_entry f wire hex sha256 input submit s ≡ some entry
    pub live : entry.superseded_by_clean ≡ false
    pub result : ShareResult
    pub validated : validate f hex sha256 submit entry s ≡ ok result
    pub unseen : contains s.share_set (hash result) ≡ false
    pub remembered : h.session.share_set ≡ insert s.share_set (hash result)
    pub counted :
        IsCounted f wire submit.sequence_number
          (worker_or_unknown s.worker)
          (hash_difficulty result)
          s
          h

  -- The number that the reply names; a payload that was not decoded has no reply.
  abbrev pub sequence_of : Option SubmitExtended → ℕ
  sequence_of none = 0
  sequence_of (some submit) = submit.sequence_number

  validate-live :
      (submit : SubmitExtended) (entry : JobEntry) (s : Sv2Session f) (res : ShareResult)
      → validate f hex sha256 submit entry s ≡ ok res
      → entry.superseded_by_clean ≡ false
  unfolding validate validate_share_no_dedup
  validate-live submit entry s res e = elim (Bool-cases entry.superseded_by_clean) [
    | inl stale ↦ absurd (ground (arith, stale))
    | inr live ↦ live
  ]

  submit_on-IsCredited :
      (input : SubmitInput) (submit : SubmitExtended) (entry : Option JobEntry) (s : Sv2Session f)
      → named_entry f wire hex sha256 input submit s ≡ entry
      → s.channel_open ≡ true
      → length submit.extranonce ≡ s.extranonce_size
      → Returns
          (λ h. IsCredited input (some submit) s h ⊎ IsUncounted f wire submit.sequence_number s h)
          (submit_on f wire hex sha256 input submit entry s)
  unfolding submit_on reject credits online offline
  submit_on-IsCredited input submit none s looked opened width = inr (record {
    untold = error_told "stale-job";
    same_accepted = refl;
    same_vardiff = refl;
    same_total = refl;
    nothing = refl;
    same_worker = refl;
    nobody = λ w. (refl, refl);
  })
  submit_on-IsCredited input submit (some entry) s looked opened width =
      let r = validate f hex sha256 submit entry s in
      let t : Sv2Session f = record s { share_set = (dedup s.share_set r).1 } in
      Returns-map
        (λ h. λ x. elim x [
          | inl (res, e, kept, counted) ↦
              (let n = dedup-IsNew s.share_set r res e in
                inl (record {
                  opened = opened;
                  submit = submit;
                  readable = refl;
                  width = width;
                  entry = entry;
                  named = looked;
                  live = validate-live submit entry s res n.validated;
                  result = res;
                  validated = n.validated;
                  unseen = n.unseen;
                  remembered = kept ∙ n.remembered;
                  counted = record {
                    one_accepted = counted.one_accepted;
                    same_rejected = counted.same_rejected;
                    same_total = counted.same_total;
                    same_difficulties = counted.same_difficulties;
                    credited = counted.credited;
                    told = counted.told;
                    same_worker = counted.same_worker;
                    nobody = counted.nobody;
                  };
                }))
          | inr no_share ↦ inr (record {
            untold = no_share.untold;
            same_accepted = no_share.same_accepted;
            same_vardiff = no_share.same_vardiff;
            same_total = no_share.same_total;
            nothing = no_share.nothing;
            same_worker = no_share.same_worker;
            nobody = no_share.nobody;
          })
        ])
        (submit_on f wire hex sha256 input submit (some entry) s)
        (settle-Settles f wire hex input submit.sequence_number _ entry.job.height
          (dedup s.share_set r).0 t)

  -- Every submission of an SV2 device is answered; and it is counted, credited to the session's
  -- worker and answered with a success only if the channel is open, the extranonce has the width that the channel gave
  -- out, the job id names a job that the engine has and no clean job superseded, the validation
  -- accepted the share, and its header hash was not remembered and now is. Then exactly one
  -- share is counted, with the credit of its hash. In every other case nothing is counted or
  -- credited, and the answer is the error of that submission or a disconnection. No submission changes the worker.
  pub sv2_submit-IsCredited :
      (input : SubmitInput) (decoded : Option SubmitExtended) (s : Sv2Session f)
      → Returns
          (λ h. IsCredited input decoded s h ⊎ IsUncounted f wire (sequence_of decoded) s h)
          (handle_submit f wire hex sha256 input decoded s)
  unfolding handle_submit credits online offline
  sv2_submit-IsCredited input none s =
      if_elim (Returns (λ h. IsCredited input none s h ⊎ IsUncounted f wire 0 s h))
        (not s.channel_open) _ _
        (λ _. inr (record {
          untold = ended "SubmitShares before channel open";
          same_accepted = refl;
          same_vardiff = refl;
          same_total = refl;
          nothing = refl;
          same_worker = refl;
          nobody = λ w. (refl, refl);
        }))
        (λ _. inr (record {
          untold = ended "bad SubmitSharesExtended";
          same_accepted = refl;
          same_vardiff = refl;
          same_total = refl;
          nothing = refl;
          same_worker = refl;
          nobody = λ w. (refl, refl);
        }))
  sv2_submit-IsCredited input (some submit) s =
      if_elim Goal (not s.channel_open) _ _
        (λ _. inr (record {
          untold = ended "SubmitShares before channel open";
          same_accepted = refl;
          same_vardiff = refl;
          same_total = refl;
          nothing = refl;
          same_worker = refl;
          nobody = λ w. (refl, refl);
        }))
        (λ known.
          if_elim Goal (not (length submit.extranonce == s.extranonce_size)) _ _
            (λ _. inr (
              count_invalid-IsUncounted f wire submit.sequence_number "bad-extranonce-size" _ s refl
                (λ w. (refl, refl))))
            (λ fits.
              submit_on-IsCredited input submit (named_entry f wire hex sha256 input submit s) s
                refl (ground (arith, known)) (ground (arith, fits))))
    where
      Goal : Result (Handled f) → Type 0
      Goal =
          Returns (λ h.
            IsCredited input (some submit) s h ⊎ IsUncounted f wire submit.sequence_number s h)

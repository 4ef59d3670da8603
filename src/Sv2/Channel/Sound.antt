-- ===== src/Sv2/Channel/Sound.antt =====
-- No handler of an SV2 session panics, where some extranonce is reserved and the difficulties lie
-- between their bounds.
pub mod Run
use solo_pool_rs.Prelude.{
  ℕ, ◌<◌, ◌≤◌, ◌≡◌, ◌≢◌, ◌⊎◌, ◌∙◌, sym, ap, refl, Bool, true, not, Option, none, some, List, [],
  ◌∷◌, ◌++◌, ◌%◌, ◌^◌, ◌==◌, ltb, subst, if◌then◌else◌, arith, if_elim, Option-cases, Bool-cases,
  inl, inr,
}
use solo_pool_rs.Prelude.Bytes.{Bytes}
use solo_pool_rs.Prelude.Utf8.{chars}
use solo_pool_rs.Error.{Result, ok, err, panic, Returns, Returns-map}
use solo_pool_rs.Template.Job.{StratumJob}
use solo_pool_rs.Template.PrevHash.{Hex}
use solo_pool_rs.Security.Guard.{check_worker_name, check_message_size, record_new_authorization}
use solo_pool_rs.Security.ShareRate.{try_consume}
use solo_pool_rs.Vardiff.{F64, Vardiff, take_share_history, restore_share_history, check_retarget}
use solo_pool_rs.Vardiff.Bounds.{IsInRange}
use solo_pool_rs.Vardiff.Schedule.{check_retarget-Keeps}
use solo_pool_rs.Session.State.{StatCall}
use solo_pool_rs.Session.Setup.{is_new_identity}
use solo_pool_rs.Session.Submit.{SubmitInput}
use solo_pool_rs.Session.Invariant.{HasBand}
use solo_pool_rs.Session.Invariant.Authorize.{check_worker_name-cases}
use solo_pool_rs.Sv2.Frame.{
  SetupConn, OpenExtended, SubmitExtended, Wire, open_extended_success,
  open_channel_error_extranonce,
}
use solo_pool_rs.Sv2.Job.{WireTypes}
use solo_pool_rs.Sv2.Channel.{
  continue, Sv2Session, Handled, OpenInput, drop_session, emit, refuse_setup, leave_worker,
  join_worker, split_extranonce, open_target, send_job, push_job, confirm, after_reply, checked,
  open_channel, handle_setup_connection, handle_open_extended,
}
use solo_pool_rs.Sv2.Channel.Send.{emit-cases, send_job-keeps}
use solo_pool_rs.Sv2.Channel.Submit.{handle_submit}
use solo_pool_rs.Sv2.Channel.Submit.Settled.{IsUncounted}
use solo_pool_rs.Sv2.Channel.Submit.Credited.{IsCredited, sequence_of, sv2_submit-IsCredited}

module _ (f : F64) where
  pub record IsSound (s : Sv2Session f) : Type 0 where
    pub reserved : 0 < s.extranonce_total
    pub range : IsInRange f s.vardiff
    pub band : HasBand f s.vardiff.cfg

  -- Another difficulty history, of the same difficulties.
  same_difficulties-IsInRange :
      (v v' : Vardiff f)
      → v'.cfg ≡ v.cfg
      → v'.current ≡ v.current
      → v'.previous ≡ v.previous
      → IsInRange f v
      → IsInRange f v'
  same_difficulties-IsInRange v v' cfg current previous r = record {
    current_low =
        subst (λ c. c.min_difficulty ≤ v'.current) (sym cfg)
          (omega (arith, current, r.current_low));
    current_high =
        subst (λ c. v'.current ≤ c.max_difficulty) (sym cfg)
          (omega (arith, current, r.current_high));
    previous_low =
        subst (λ c. c.min_difficulty ≤ v'.previous) (sym cfg)
          (omega (arith, previous, r.previous_low));
    previous_high =
        subst (λ c. v'.previous ≤ c.max_difficulty) (sym cfg)
          (omega (arith, previous, r.previous_high));
  }

  steady-IsSound :
      (s t : Sv2Session f)
      → t.extranonce_total ≡ s.extranonce_total
      → t.vardiff.cfg ≡ s.vardiff.cfg
      → t.vardiff.current ≡ s.vardiff.current
      → t.vardiff.previous ≡ s.vardiff.previous
      → IsSound s
      → IsSound t
  steady-IsSound s t total cfg current previous v = record {
    reserved = omega (arith, total, v.reserved);
    range = same_difficulties-IsInRange s.vardiff t.vardiff cfg current previous v.range;
    band = subst (HasBand f) (sym cfg) v.band;
  }

  leave_worker-IsSound :
      (input : OpenInput) (s : Sv2Session f) → IsSound s → IsSound (leave_worker f input s).0
  unfolding leave_worker take_share_history
  leave_worker-IsSound input s v = elim (Option-cases s.worker) [
    | inl e ↦ rw (leave_worker, e) v
    | inr (prev, e) ↦
        rw (leave_worker, e)
          (steady-IsSound s
            (record s {
              worker = none;
              vardiff = (take_share_history f input.taken_at s.vardiff).1;
            })
            refl refl refl refl v)
  ]

  join_worker-IsSound :
      (input : OpenInput) (worker : Bytes) (s : Sv2Session f)
      → IsSound s
      → IsSound (join_worker f input worker s).0
  unfolding join_worker restore_share_history
  join_worker-IsSound input worker s v = elim (Option-cases (input.stashed worker)) [
    | inl e ↦ rw (join_worker, e) v
    | inr (history, e) ↦
        rw (join_worker, e)
          (steady-IsSound s
            (record s { vardiff = restore_share_history f history input.restored_at s.vardiff })
            refl refl refl refl v)
  ]

  split-IsSound :
      (input : OpenInput) (open_ : OpenExtended) (s : Sv2Session f)
      → IsSound s
      → IsSound (split_extranonce f input open_ s)
  unfolding split_extranonce
  split-IsSound input open_ s v = record { reserved = v.reserved; range = v.range; band = v.band }

  abbrev pub Keeps : Handled f → Type 0
  Keeps h = IsSound h.session

  pub setup-IsSound :
      (wire : Wire) (setup : Option SetupConn) (s : Sv2Session f)
      → IsSound s
      → Keeps (handle_setup_connection f wire setup s)
  unfolding handle_setup_connection
  setup-IsSound wire none s v = v
  setup-IsSound wire (some setup) s v = elim (Option-cases (refuse_setup setup)) [
    | inl e ↦
        rw (handle_setup_connection, e)
          (record { reserved = v.reserved; range = v.range; band = v.band })
    | inr (refusal, e) ↦ rw (handle_setup_connection, e) v
  ]

  module _ (wire : Wire) (types : WireTypes) (hex : Hex) where
    push_job-IsSound :
        (open_ : OpenExtended) (target : Bytes) (total : ℕ) (prefix : Bytes) (channel_id : ℕ)
        (calls : List (StatCall f)) (u : Sv2Session f)
        → IsSound u
        → Keeps (
            push_job f wire types hex
              (open_extended_success open_.request_id channel_id target total prefix ∷ [])
              calls
              u)
    unfolding push_job
    push_job-IsSound open_ target total prefix channel_id calls u v =
        elim (Option-cases u.pending_job) [
          | inl e ↦ rw (push_job, e) v
          | inr (job, e) ↦
              rw (push_job, e, send_job-keeps f wire types hex job true u)
                (record { reserved = v.reserved; range = v.range; band = v.band })
        ]

    confirm-IsSound :
        (open_ : OpenExtended) (calls : List (StatCall f)) (t : Sv2Session f) (target : Bytes)
        → IsSound t
        → Keeps (confirm f wire types hex open_ calls t target)
    unfolding confirm after_reply
    confirm-IsSound open_ calls t target v =
        elim (emit-cases wire
          (open_extended_success open_.request_id t.channel_id target (t.extranonce_size % 2 ^ 16)
            t.extranonce_prefix)
          "encode OpenExtendedMiningChannelSuccess") [
            | inr (reason, failed) ↦ rw (confirm, failed) v
            | inl fine ↦
                rw (confirm, fine)
                  (push_job-IsSound open_ target (t.extranonce_size % 2 ^ 16) t.extranonce_prefix
                    t.channel_id calls (record t { channel_open = true })
                    (record { reserved = v.reserved; range = v.range; band = v.band }))
          ]

    open_channel-IsSound :
        (input : OpenInput) (open_ : OpenExtended) (s : Sv2Session f)
        → IsSound s
        → Returns Keeps (open_channel f wire types hex input open_ s)
    unfolding open_channel checked
    open_channel-IsSound input open_ s v =
        let counted : Sv2Session f = record s { guard = (record_new_authorization s.guard).1 } in
        let sound : IsSound counted = record {
          reserved = v.reserved;
          range = v.range;
          band = v.band;
        } in
        let left = leave_worker f input counted in
        let split = split_extranonce f input open_ left.0 in
        let joined = join_worker f input open_.user_identity split in
        let target = open_target open_ s.difficulty in
        if_elim Goal (is_new_identity s.worker open_.user_identity) _ _
          (λ _.
            if_elim Goal (record_new_authorization s.guard).0 _ _
              (λ _.
                if_elim Goal (s.extranonce_total == 0) _ _
                  (λ zero_total. absurd (ground (arith, zero_total, v.reserved)))
                  (λ _. confirm-IsSound open_ (left.1 ++ joined.1) joined.0 target (
                    join_worker-IsSound input open_.user_identity split (
                      split-IsSound input open_ left.0
                        (leave_worker-IsSound input counted sound)))))
              (λ _. sound))
          (λ _.
            if_elim Goal (s.extranonce_total == 0) _ _
              (λ zero_total. absurd (ground (arith, zero_total, v.reserved)))
              (λ _.
                confirm-IsSound open_ [] (split_extranonce f input open_ s) target
                  (split-IsSound input open_ s v)))
      where
        Goal : Result (Handled f) → Type 0
        Goal = Returns Keeps

    pub open-IsSound :
        (input : OpenInput) (decoded : Option OpenExtended) (s : Sv2Session f)
        → IsSound s
        → Returns Keeps (handle_open_extended f wire types hex input decoded s)
    unfolding handle_open_extended
    open-IsSound input none s v = if_elim (Returns Keeps) (not s.setup_done) _ _ (λ _. v) (λ _. v)
    open-IsSound input (some open_) s v =
        if_elim (Returns Keeps) (not s.setup_done) _ _ (λ _. v)
          (λ _. elim (check_worker_name-cases f s.guard open_.user_identity) [
            | inr (e, refused) ↦ rw refused v
            | inl named ↦ rw named (
                if_elim (Returns Keeps) (ltb s.extranonce_total open_.min_extranonce_size) _ _
                  (λ _. v) (λ _. open_channel-IsSound input open_ s v))
          ])

    pub submit-IsSound :
        (sha256 : Bytes → Bytes) (input : SubmitInput) (decoded : Option SubmitExtended)
        (s : Sv2Session f)
        → IsSound s
        → Returns Keeps (handle_submit f wire hex sha256 input decoded s)
    submit-IsSound sha256 input decoded s v =
        Returns-map
          (λ h. λ x. elim x [
            | inl c ↦
                (let k = c.counted in
                  steady-IsSound s h.session k.same_total k.same_difficulties.0
                    k.same_difficulties.1 k.same_difficulties.2 v)
            | inr n ↦
                steady-IsSound s h.session n.same_total (ap (λ d. d.cfg) n.same_vardiff)
                  (ap (λ d. d.current) n.same_vardiff) (ap (λ d. d.previous) n.same_vardiff) v
          ])
          (handle_submit f wire hex sha256 input decoded s)
          (sv2_submit-IsCredited f wire hex sha256 input decoded s)

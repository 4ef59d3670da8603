-- ===== src/Sv2/Channel/Send.antt =====
-- Sending a message, and a job.
use Prim.Native.String.{String}
use solo_pool_rs.Prelude.{◌≡◌, ◌⊎◌, refl, Bool, [], ◌∷◌, Bool-cases, Option-cases, inl, inr}
use solo_pool_rs.Template.Job.{StratumJob}
use solo_pool_rs.Template.PrevHash.{Hex}
use solo_pool_rs.Vardiff.{F64}
use solo_pool_rs.Sv2.Frame.{Outbound, Wire, new_extended_mining_job}
use solo_pool_rs.Sv2.Job.{WireTypes, build_new_extended_job}
use solo_pool_rs.Sv2.JobIds.{assign_job_id}
use solo_pool_rs.Sv2.Channel.{continue, disconnect, Sv2Session, emit, send_job}

-- An encoded and written message, or a failure.
pub emit-cases :
    (wire : Wire) (message : Outbound) (failure : String)
    → (emit wire message failure ≡ (continue, message ∷ []))
      ⊎ ((reason : String) × (emit wire message failure ≡ (disconnect reason, [])))
unfolding emit
emit-cases wire message failure = elim (Option-cases (wire.encode message)) [
  | inl e ↦ inr (failure, rw (emit, e) refl)
  | inr (payload, e) ↦ elim (Bool-cases (wire.send message)) [
    | inl sent ↦ inl (rw (emit, e, sent) refl)
    | inr failed ↦ inr ("write", rw (emit, e, failed) refl)
  ]
]

module _ (f : F64) (wire : Wire) (types : WireTypes) (hex : Hex) where
  -- Sending a job changes the job ids alone.
  pub send_job-keeps :
      (job : StratumJob) (future : Bool) (s : Sv2Session f)
      → (send_job f wire types hex job future s).1
        ≡ record s { ids = (assign_job_id job.job_id s.ids).1 }
  unfolding send_job
  send_job-keeps job future s =
      let id = (assign_job_id job.job_id s.ids).0 in
      elim (Option-cases (build_new_extended_job types job s.channel_id id future)) [
        | inl e ↦ rw (send_job, e) refl
        | inr (nj, e) ↦ elim (emit-cases wire (new_extended_mining_job nj) "") [
          | inr (reason, failed) ↦ rw (send_job, e, failed) refl
          | inl fine ↦ elim (Bool-cases future) [
            | inl yes_future ↦ rw (send_job, e, fine, yes_future) refl
            | inr not_future ↦ rw (send_job, e, fine, not_future) refl
          ]
        ]
      ]

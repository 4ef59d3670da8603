-- ===== src/Sv2/Channel/Tally.antt =====
-- The statistics that an SV2 session reports balance: the handlers.
pub mod Run
use solo_pool_rs.Prelude.{
  ℕ, ◌+◌, ◌%◌, ◌^◌, ◌≡◌, ◌⊎◌, ◌∙◌, refl, ap, sym, Bool, true, false, not, Option, none, some, List,
  [], ◌∷◌, ◌++◌, length, ◌==◌, ltb, if◌then◌else◌, arith, if_elim, inl, inr, Bool-cases,
  Option-cases,
}
use solo_pool_rs.Prelude.Bytes.{Bytes, bytes_eq, eq_of_bytes_eq}
use solo_pool_rs.Prelude.Utf8.{chars}
use solo_pool_rs.Error.{Result, ok, err, panic, Returns}
use solo_pool_rs.Template.PrevHash.{Hex}
use solo_pool_rs.Security.Guard.{check_worker_name, record_new_authorization}
use solo_pool_rs.Vardiff.{F64}
use solo_pool_rs.Session.State.{StatCall}
use solo_pool_rs.Session.Setup.{is_new_identity}
use solo_pool_rs.Session.Submit.{SubmitInput}
use solo_pool_rs.Session.Submit.Settled.{credits}
use solo_pool_rs.Session.Tally.{
  online, offline, here, Accounts, online-append, offline-append, credits-append,
}
use solo_pool_rs.Sv2.Frame.{
  SetupConn, OpenExtended, SubmitExtended, Wire, open_extended_success,
  open_channel_error_extranonce,
}
use solo_pool_rs.Sv2.Job.{WireTypes}
use solo_pool_rs.Sv2.Channel.{
  continue, Sv2Session, Handled, OpenInput, drop_session, emit, refuse_setup, leave_worker,
  join_worker, split_extranonce, open_target, send_job, push_job, confirm, after_reply, checked,
  open_channel, handle_setup_connection, handle_open_extended,
}
use solo_pool_rs.Sv2.Channel.Submit.{handle_submit}
use solo_pool_rs.Sv2.Channel.Submit.Settled.{IsUncounted}
use solo_pool_rs.Sv2.Channel.Submit.Credited.{IsCredited, sequence_of, sv2_submit-IsCredited}
use solo_pool_rs.Sv2.Channel.Send.{emit-cases, send_job-keeps}

-- Of a value, if there is one.
abbrev pub Whenever : {A : Type 0} → (A → Type 0) → Result A → Type 0
Whenever P (ok a) = P a
Whenever P (err e) = Unit {0}
Whenever P panic = Unit {0}

module _ (f : F64) where
  -- One handler's calls after another's.
  pub chain :
      (a b c : Option Bytes) (k m n : ℕ) (xs ys : List (StatCall f))
      → Accounts f a k b m xs
      → Accounts f b m c n ys
      → Accounts f a k c n (xs ++ ys)
  chain a b c k m n xs ys first second = record {
    balance = λ w. omega (
      arith,
      online-append f w xs ys,
      offline-append f w xs ys,
      first.balance w,
      second.balance w,
    );
    count = omega (arith, credits-append f xs ys, first.count, second.count);
  }

  pub silent : (a : Option Bytes) (n : ℕ) → Accounts f a n a n []
  unfolding online offline credits
  silent a n = record { balance = λ w. refl; count = omega arith }

  leaves :
      (input : OpenInput) (s : Sv2Session f)
      → Accounts f s.worker s.shares_accepted none s.shares_accepted (leave_worker f input s).1
        × ((leave_worker f input s).0.shares_accepted ≡ s.shares_accepted)
  unfolding leave_worker online offline credits
  leaves input s = elim (Option-cases s.worker) [
    | inl e ↦
        rw (leave_worker, e)
          (record { balance = λ w. omega (arith, ap (here w) e); count = omega arith }, refl)
    | inr (prev, e) ↦
        rw (leave_worker, e) (record { balance = λ w. omega arith; count = omega arith }, refl)
  ]

  joins :
      (input : OpenInput) (worker : Bytes) (s : Sv2Session f) (n : ℕ)
      → Accounts f none n (some worker) n (join_worker f input worker s).1
        × ((join_worker f input worker s).0.worker ≡ s.worker)
        × ((join_worker f input worker s).0.shares_accepted ≡ s.shares_accepted)
  unfolding join_worker online offline credits
  joins input worker s n = elim (Option-cases (input.stashed worker)) [
    | inl e ↦
        rw (join_worker, e) (record { balance = λ w. omega arith; count = omega arith }, refl, refl)
    | inr (history, e) ↦
        rw (join_worker, e) (record { balance = λ w. omega arith; count = omega arith }, refl, refl)
  ]

  -- A handler's calls account for what it changed.
  abbrev pub Accounted : Sv2Session f → Handled f → Type 0
  Accounted s h =
      Accounts f s.worker s.shares_accepted h.session.worker h.session.shares_accepted h.calls

  pub setup-Accounted :
      (wire : Wire) (setup : Option SetupConn) (s : Sv2Session f)
      → Accounted s (handle_setup_connection f wire setup s)
  unfolding handle_setup_connection
  setup-Accounted wire none s = silent s.worker s.shares_accepted
  setup-Accounted wire (some setup) s = elim (Option-cases (refuse_setup setup)) [
    | inl e ↦ rw (handle_setup_connection, e) (silent s.worker s.shares_accepted)
    | inr (refusal, e) ↦ rw (handle_setup_connection, e) (silent s.worker s.shares_accepted)
  ]

  module _ (wire : Wire) (types : WireTypes) (hex : Hex) where
    -- The reply and the job after it make no calls.
    confirm-Accounted :
        (open_ : OpenExtended) (a : Option Bytes) (n : ℕ) (t : Sv2Session f)
        (calls : List (StatCall f)) (target : Bytes)
        → Accounts f a n t.worker t.shares_accepted calls
        → let h = confirm f wire types hex open_ calls t target in
          Accounts f a n h.session.worker h.session.shares_accepted h.calls
    unfolding confirm after_reply push_job
    confirm-Accounted open_ a n t calls target known =
        elim (emit-cases wire
          (open_extended_success open_.request_id t.channel_id target (t.extranonce_size % 2 ^ 16)
            t.extranonce_prefix)
          "encode OpenExtendedMiningChannelSuccess") [
            | inr (reason, failed) ↦ rw (confirm, failed) known
            | inl fine ↦ rw (confirm, fine) (pushed (record t { channel_open = true }) known)
          ]
      where
        pushed :
            (u : Sv2Session f)
            → Accounts f a n u.worker u.shares_accepted calls
            → let h =
                push_job f wire types hex
                  (open_extended_success open_.request_id t.channel_id target
                      (t.extranonce_size % 2 ^ 16)
                      t.extranonce_prefix
                    ∷ [])
                  calls
                  u in
              Accounts f a n h.session.worker h.session.shares_accepted h.calls
        pushed u known = elim (Option-cases u.pending_job) [
          | inl e ↦ rw (push_job, e) known
          | inr (job, e) ↦ rw (push_job, e, send_job-keeps f wire types hex job true u) known
        ]

    open_channel-Accounted :
        (input : OpenInput) (open_ : OpenExtended) (s : Sv2Session f)
        → Whenever (Accounted s) (open_channel f wire types hex input open_ s)
    unfolding open_channel checked split_extranonce
    open_channel-Accounted input open_ s =
        let counted : Sv2Session f = record s { guard = (record_new_authorization s.guard).1 } in
        let left = leave_worker f input counted in
        let split = split_extranonce f input open_ left.0 in
        let joined = join_worker f input open_.user_identity split in
        let (gone, count) = leaves input counted in
        let (came, worker, kept) = joins input open_.user_identity split s.shares_accepted in
        let target = open_target open_ s.difficulty in
        if_elim Goal (is_new_identity s.worker open_.user_identity) _ _
          (λ _.
            if_elim Goal (record_new_authorization s.guard).0 _ _
              (λ _.
                if_elim Goal (s.extranonce_total == 0) _ _ (λ _. tt)
                  (λ _.
                    confirm-Accounted open_ s.worker s.shares_accepted joined.0 (left.1 ++ joined.1)
                      target
                      (relabel (some open_.user_identity) joined.0.worker s.shares_accepted
                        joined.0.shares_accepted (left.1 ++ joined.1) worker (kept ∙ count)
                        (chain s.worker none (some open_.user_identity) s.shares_accepted
                          s.shares_accepted s.shares_accepted left.1 joined.1 gone came))))
              (λ _. silent s.worker s.shares_accepted))
          (λ known.
            if_elim Goal (s.extranonce_total == 0) _ _ (λ _. tt)
              (λ _.
                confirm-Accounted open_ s.worker s.shares_accepted
                  (split_extranonce f input open_ s) [] target (same_worker s.worker known)))
      where
        Goal : Result (Handled f) → Type 0
        Goal = Whenever (Accounted s)

        relabel :
            (b b' : Option Bytes) (m m' : ℕ) (calls : List (StatCall f))
            → b' ≡ b
            → m' ≡ m
            → Accounts f s.worker s.shares_accepted b m calls
            → Accounts f s.worker s.shares_accepted b' m' calls
        relabel b b' m m' calls same_worker same_count known = record {
          balance = λ w. omega (arith, known.balance w, ap (here w) same_worker);
          count = omega (arith, known.count, same_count);
        }

        same_worker :
            (o : Option Bytes)
            → is_new_identity o open_.user_identity ≡ false
            → Accounts f o s.shares_accepted (some open_.user_identity) s.shares_accepted []
        same_worker none known = unfold is_new_identity in absurd (cc)
        same_worker (some current) known =
            unfold is_new_identity online offline credits in
            let same : current ≡ open_.user_identity =
              eq_of_bytes_eq current open_.user_identity (ground (arith, known)) in
            record {
              balance = λ w. omega (arith, ap (λ c. here w (some c)) same);
              count = omega arith;
            }

    pub open-Accounted :
        (input : OpenInput) (decoded : Option OpenExtended) (s : Sv2Session f)
        → Whenever (Accounted s) (handle_open_extended f wire types hex input decoded s)
    unfolding handle_open_extended
    open-Accounted input none s =
        if_elim (Whenever (Accounted s)) (not s.setup_done) _ _
          (λ _. silent s.worker s.shares_accepted) (λ _. silent s.worker s.shares_accepted)
    open-Accounted input (some open_) s =
        if_elim Goal (not s.setup_done) _ _ (λ _. silent s.worker s.shares_accepted)
          (λ _. named (check_worker_name s.guard (chars open_.user_identity)))
      where
        Goal : Result (Handled f) → Type 0
        Goal = Whenever (Accounted s)

        named :
            (r : Result (Unit {0}))
            → Goal (elim r [
              | err e ↦ ok (drop_session f "invalid user_identity" s)
              | panic ↦ panic
              | ok _ ↦
                  if ltb s.extranonce_total open_.min_extranonce_size
                  then ok (record {
                    flow = continue;
                    session = s;
                    sent = (emit wire (open_channel_error_extranonce open_.request_id) "").1;
                    calls = [];
                  })
                  else open_channel f wire types hex input open_ s
            ])
        named (ok _) =
            if_elim Goal (ltb s.extranonce_total open_.min_extranonce_size) _ _
              (λ _. silent s.worker s.shares_accepted) (λ _. open_channel-Accounted input open_ s)
        named (err e) = silent s.worker s.shares_accepted
        named panic = tt

    module _ (sha256 : Bytes → Bytes) where
      pub submit-Accounted :
          (input : SubmitInput) (decoded : Option SubmitExtended) (s : Sv2Session f)
          → Whenever (Accounted s) (handle_submit f wire hex sha256 input decoded s)
      submit-Accounted input decoded s =
          whenever (handle_submit f wire hex sha256 input decoded s)
            (sv2_submit-IsCredited f wire hex sha256 input decoded s)
        where
          whenever :
              (r : Result (Handled f))
              → Returns
                  (λ h.
                    IsCredited f wire hex sha256 input decoded s h
                    ⊎ IsUncounted f wire (sequence_of f wire hex sha256 decoded) s h)
                  r
              → Whenever (Accounted s) r
          whenever (ok h) (inl c) = record {
            balance = λ w. omega (
              arith,
              (c.counted.nobody w).0,
              (c.counted.nobody w).1,
              ap (here w) c.counted.same_worker,
            );
            count = omega (arith, ap length c.counted.credited, c.counted.one_accepted);
          }
          whenever (ok h) (inr n) = record {
            balance = λ w. omega (arith, (n.nobody w).0, (n.nobody w).1, ap (here w) n.same_worker);
            count = omega (arith, ap length n.nothing, n.same_accepted);
          }
          whenever (err e) none_there = tt
          whenever panic none_there = tt

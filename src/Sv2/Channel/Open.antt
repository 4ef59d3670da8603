-- ===== src/Sv2/Channel/Open.antt =====
-- A channel that opens, and an open that is refused.
use solo_pool_rs.Prelude.{
  ℕ, ◌+◌, ◌-◌, ◌%◌, ◌^◌, ◌≤◌, ◌<◌, ◌≡◌, ◌⊎◌, ◌∙◌, refl, true, not, Option, none, some, List, [],
  ◌∷◌, ◌++◌, length, reverse, replicate, leb, length-reverse, length-append, length-replicate,
  length-drop, ltb, ◌==◌, arith, if_elim, if◌then◌else◌, Option-cases, inl, inr,
}
use solo_pool_rs.Prelude.Bytes.{Bytes, to_le_bytes, length-to_le_bytes}
use solo_pool_rs.Prelude.Utf8.{chars}
use solo_pool_rs.Error.{Result, ok, err, panic, Returns}
use solo_pool_rs.Template.PrevHash.{Hex}
use solo_pool_rs.Security.Guard.{check_worker_name, record_new_authorization}
use solo_pool_rs.Vardiff.{F64}
use solo_pool_rs.Session.Invariant.Authorize.{check_worker_name-cases}
use solo_pool_rs.Session.Extranonce.{sized}
use solo_pool_rs.Session.State.{StatCall}
use solo_pool_rs.Session.Setup.{is_new_identity}
use solo_pool_rs.Sv2.Frame.{
  OpenExtended, Outbound, Wire, open_channel_error_extranonce, open_extended_success,
}
use solo_pool_rs.Sv2.Job.{WireTypes}
use solo_pool_rs.Sv2.Channel.{
  continue, Sv2Session, Handled, OpenInput, drop_session, emit, send_job, push_job, leave_worker,
  join_worker, granted, open_target, split_extranonce, after_reply, confirm, checked, open_channel,
  handle_open_extended,
}
use solo_pool_rs.Sv2.Channel.Send.{emit-cases, send_job-keeps}

module _ (f : F64) where
  -- A refused open: the device asked for more extranonce than there is, the session is as it was,
  -- the only message sent is the error, if it can be sent, and no statistics are called.
  pub record IsRefused (wire : Wire) (open_ : OpenExtended) (s : Sv2Session f) (h : Handled f)
      : Type 0 where
    pub too_wide : s.extranonce_total < open_.min_extranonce_size
    pub kept : h.session ≡ s
    pub reply : h.sent ≡ (emit wire (open_channel_error_extranonce open_.request_id) "").1
    pub no_calls : h.calls ≡ []

  -- A channel that opened: the device has at least the extranonce that it asked for, the pool's
  -- prefix is the rest of the reserved region, the reply tells it so, and the worker is the one it
  -- named.
  pub record IsOpened (open_ : OpenExtended) (s : Sv2Session f) (h : Handled f) : Type 0 where
    pub fits : open_.min_extranonce_size ≤ s.extranonce_total
    pub opened : h.session.channel_open ≡ true
    pub worker : h.session.worker ≡ some open_.user_identity
    pub enough : open_.min_extranonce_size ≤ h.session.extranonce_size
    pub filled : length h.session.extranonce_prefix + h.session.extranonce_size ≡ s.extranonce_total
    pub first : List Outbound
    pub reply :
        h.sent
        ≡ open_extended_success open_.request_id h.session.channel_id
            (open_target open_ s.difficulty)
            (h.session.extranonce_size % 2 ^ 16)
            h.session.extranonce_prefix
          ∷ first

module _ (f : F64) (wire : Wire) (types : WireTypes) (hex : Hex) where
  -- The parts of an opened channel that the split decides.
  abbrev IsSplitOf : OpenExtended → Sv2Session f → Sv2Session f → Type 0
  IsSplitOf open_ s t =
      (t.worker ≡ some open_.user_identity)
      × (open_.min_extranonce_size ≤ t.extranonce_size)
      × (length t.extranonce_prefix + t.extranonce_size ≡ s.extranonce_total)

  push_job-IsOpened :
      (open_ : OpenExtended) (s t : Sv2Session f) (calls : List (StatCall f))
      → t.channel_open ≡ true
      → open_.min_extranonce_size ≤ s.extranonce_total
      → IsSplitOf open_ s t
      → IsOpened f open_ s (
          push_job f wire types hex
            (open_extended_success open_.request_id t.channel_id
                (open_target open_ s.difficulty)
                (t.extranonce_size % 2 ^ 16)
                t.extranonce_prefix
              ∷ [])
            calls
            t)
  unfolding push_job
  push_job-IsOpened open_ s t calls is_open fits (worker, enough, filled) =
      elim (Option-cases t.pending_job) [
        | inl e ↦
            rw (push_job, e)
              (record {
                fits = fits;
                opened = is_open;
                worker = worker;
                enough = enough;
                filled = filled;
                first = [];
                reply = refl;
              })
        | inr (job, e) ↦
            rw (push_job, e, send_job-keeps f wire types hex job true t)
              (record {
                fits = fits;
                opened = is_open;
                worker = worker;
                enough = enough;
                filled = filled;
                first = (send_job f wire types hex job true t).2;
                reply = refl;
              })
      ]

length-sized : (size counter : ℕ) → length (sized size counter) ≡ size
unfolding sized
length-sized size counter =
    let bytes = reverse (to_le_bytes 8 counter) in
    let eight : length bytes ≡ 8 =
      length-reverse (to_le_bytes 8 counter) ∙ length-to_le_bytes 8 counter in
    if_elim (λ (t : Bytes). length t ≡ size) (leb size 8) _ _
      (λ e. length-drop (8 - size) bytes ∙ ground (arith, eight, e))
      (λ e.
        length-append (replicate (size - 8) 0) bytes
        ∙ ground (arith, eight, e, length-replicate {A = ℕ} (size - 8) 0))

module _ (f : F64) (wire : Wire) (types : WireTypes) (hex : Hex) where
  -- What an open that goes on leaves.
  abbrev pub GoesOn : Option OpenExtended → Sv2Session f → Handled f → Type 0
  GoesOn decoded s h =
      h.flow ≡ continue
      → (open_ : OpenExtended) × (decoded ≡ some open_)
        × (IsRefused f wire open_ s h ⊎ IsOpened f open_ s h)

  confirm-GoesOn :
      (open_ : OpenExtended) (s t : Sv2Session f) (calls : List (StatCall f))
      → open_.min_extranonce_size ≤ s.extranonce_total
      → IsSplitOf f wire types hex open_ s t
      → GoesOn
          (some open_)
          s
          (confirm f wire types hex open_ calls t (open_target open_ s.difficulty))
  unfolding confirm after_reply
  confirm-GoesOn open_ s t calls fits split =
      elim (emit-cases wire
        (open_extended_success open_.request_id t.channel_id (open_target open_ s.difficulty)
          (t.extranonce_size % 2 ^ 16) t.extranonce_prefix)
        "encode OpenExtendedMiningChannelSuccess") [
          | inr (reason, failed) ↦ rw (confirm, failed) (λ going. absurd (cc))
          | inl fine ↦
              rw (confirm, fine)
                (λ going. (
                  open_,
                  refl,
                  inr (
                      push_job-IsOpened f wire types hex open_ s (record t { channel_open = true })
                        calls refl fits split),
                ))
        ]

  leave_worker-total :
      (input : OpenInput) (s : Sv2Session f)
      → (leave_worker f input s).0.extranonce_total ≡ s.extranonce_total
  unfolding leave_worker
  leave_worker-total input s = elim (Option-cases s.worker) [
    | inl e ↦ rw (leave_worker, e) refl
    | inr (prev, e) ↦ rw (leave_worker, e) refl
  ]

  split-IsSplitOf :
      (input : OpenInput) (open_ : OpenExtended) (s t : Sv2Session f)
      → t.extranonce_total ≡ s.extranonce_total
      → 0 < s.extranonce_total
      → open_.min_extranonce_size ≤ s.extranonce_total
      → IsSplitOf f wire types hex open_ s (split_extranonce f input open_ t)
  unfolding split_extranonce
  split-IsSplitOf input open_ s t same pos fits = (
    refl,
    omega arith,
    omega (arith, same, length-sized (t.extranonce_total - granted open_) input.extranonce_counter),
  )

  join-IsSplitOf :
      (input : OpenInput) (open_ : OpenExtended) (s t : Sv2Session f)
      → IsSplitOf f wire types hex open_ s t
      → IsSplitOf f wire types hex open_ s (join_worker f input open_.user_identity t).0
  unfolding join_worker
  join-IsSplitOf input open_ s t split = elim (Option-cases (input.stashed open_.user_identity)) [
    | inl e ↦ rw (join_worker, e) split
    | inr (history, e) ↦ rw (join_worker, e) split
  ]

  open_channel-GoesOn :
      (input : OpenInput) (open_ : OpenExtended) (s : Sv2Session f)
      → 0 < s.extranonce_total
      → open_.min_extranonce_size ≤ s.extranonce_total
      → Returns (GoesOn (some open_) s) (open_channel f wire types hex input open_ s)
  unfolding open_channel checked
  open_channel-GoesOn input open_ s pos fits =
      let guard = (record_new_authorization s.guard).1 in
      let counted : Sv2Session f = record s { guard = guard } in
      let left = leave_worker f input counted in
      let joined =
        join_worker f input open_.user_identity (split_extranonce f input open_ left.0) in
      if_elim Goal (is_new_identity s.worker open_.user_identity) _ _
        (λ _.
          if_elim Goal (record_new_authorization s.guard).0 _ _
            (λ _.
              if_elim Goal (s.extranonce_total == 0) _ _
                (λ zero_total. absurd (ground (arith, zero_total, pos)))
                (λ _. confirm-GoesOn open_ s joined.0 (left.1 ++ joined.1) fits (
                  join-IsSplitOf input open_ s (split_extranonce f input open_ left.0) (
                    split-IsSplitOf input open_ s left.0 (leave_worker-total input counted) pos
                      fits))))
            (λ _. λ going. absurd (cc)))
        (λ _.
          if_elim Goal (s.extranonce_total == 0) _ _
            (λ zero_total. absurd (ground (arith, zero_total, pos)))
            (λ _.
              confirm-GoesOn open_ s (split_extranonce f input open_ s) [] fits
                (split-IsSplitOf input open_ s s refl pos fits)))
    where
      Goal : Result (Handled f) → Type 0
      Goal = Returns (GoesOn (some open_) s)

  -- On a session that reserves some extranonce, an open is always answered. If the session goes on,
  -- then either the device asked for more extranonce than there is, the session is as before, the
  -- only message sent is the error of the open, and no statistics are called; or there is as much,
  -- the channel is open, the device has at least the extranonce that it asked for, the pool's prefix
  -- fills the rest of the reserved region, the first message tells the device this split and its
  -- target, and the worker is the one it named.
  pub open_extended-GoesOn :
      (input : OpenInput) (decoded : Option OpenExtended) (s : Sv2Session f)
      → 0 < s.extranonce_total
      → Returns (GoesOn decoded s) (handle_open_extended f wire types hex input decoded s)
  unfolding handle_open_extended
  open_extended-GoesOn input decoded s pos =
      if_elim (Returns (GoesOn decoded s)) (not s.setup_done) _ _ (λ _. λ going. absurd (cc))
        (λ _. opened decoded)
    where
      opened :
          (d : Option OpenExtended)
          → Returns (GoesOn d s) (elim d [
            | none ↦ ok (drop_session f "bad OpenExtendedMiningChannel" s)
            | some open_ ↦ elim (check_worker_name s.guard (chars open_.user_identity)) [
              | err e ↦ ok (drop_session f "invalid user_identity" s)
              | panic ↦ panic
              | ok _ ↦
                  if ltb s.extranonce_total open_.min_extranonce_size
                  then ok (record {
                    flow = continue;
                    session = s;
                    sent = (emit wire (open_channel_error_extranonce open_.request_id) "").1;
                    calls = [];
                  })
                  else open_channel f wire types hex input open_ s
            ]
          ])
      opened none = λ going. absurd (cc)
      opened (some open_) = elim (check_worker_name-cases f s.guard open_.user_identity) [
        | inr (e, refused) ↦ rw refused (λ going. absurd (cc))
        | inl named ↦ rw named (
            if_elim (Returns (GoesOn (some open_) s))
              (ltb s.extranonce_total open_.min_extranonce_size) _ _
              (λ wide. λ going. (
                open_,
                refl,
                inl (record {
                  too_wide = ground (arith, wide);
                  kept = refl;
                  reply = refl;
                  no_calls = refl;
                }),
              ))
              (λ fits. open_channel-GoesOn input open_ s pos (ground (arith, fits))))
      ]

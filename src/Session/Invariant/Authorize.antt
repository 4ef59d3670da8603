-- ===== src/Session/Invariant/Authorize.antt =====
-- `mining.authorize` keeps the invariant.
use solo_pool_rs.Prelude.{
  ℕ, ◌≡◌, ◌⊎◌, ◌∙◌, ap, refl, sym, subst, true, some, List, [], arith, Bool-cases, if_elim, not,
  arith, Option-cases, inl, inr,
}
use solo_pool_rs.Prelude.Bytes.{Bytes}
use solo_pool_rs.Prelude.Utf8.{chars}
use solo_pool_rs.Error.{ok, err, PoolError, invalid_params}
use solo_pool_rs.Template.PrevHash.{Hex}
use solo_pool_rs.Security.Guard.{
  SessionGuard, check_worker_name, record_new_authorization, validate_worker_name,
}
use solo_pool_rs.Security.Guard.Laws.{validate_worker_name_lem}
use solo_pool_rs.Vardiff as Vardiff
use solo_pool_rs.Vardiff.{F64, VardiffConfig, suggest}
use solo_pool_rs.Sv1.Json.{Json}
use solo_pool_rs.Sv1.Parse.{AuthorizeParams}
use solo_pool_rs.Session.State.{StatCall, Session, Handled}
use solo_pool_rs.Session.Setup.{
  AuthorizeInput, leave_worker, restore_history, switch_worker, is_new_identity, welcome, admit,
  handle_authorize,
}
use solo_pool_rs.Session.Invariant.{IsNamed, IsValid, SoundSession, shares_sound}

module _ (f : F64) where
  leave_worker_sound :
      (input : AuthorizeInput) (s : Session f)
      → SoundSession f s
      → SoundSession f (leave_worker f input s).0
        × ((leave_worker f input s).0.subscribed ≡ s.subscribed)
        × ((leave_worker f input s).0.guard ≡ s.guard)
  unfolding leave_worker Vardiff.take_share_history
  leave_worker_sound input s v = elim (Option-cases s.worker) [
    | inl e ↦ rw (leave_worker, e) (v, refl, refl)
    | inr (prev, e) ↦
        rw (leave_worker, e)
          (
            shares_sound f s (Vardiff.take_share_history f input.taken_at s.vardiff).1 v refl refl
                refl,
            refl,
            refl,
          )
  ]

  restore_history_sound :
      (input : AuthorizeInput) (worker : Bytes) (s : Session f)
      → SoundSession f s
      → SoundSession f (restore_history f input worker s)
        × ((restore_history f input worker s).subscribed ≡ s.subscribed)
        × ((restore_history f input worker s).guard ≡ s.guard)
  unfolding restore_history Vardiff.restore_share_history
  restore_history_sound input worker s v = elim (Option-cases (input.stashed worker)) [
    | inl e ↦ rw (restore_history, e) (v, refl, refl)
    | inr (history, e) ↦
        rw (restore_history, e)
          (
            shares_sound f s (Vardiff.restore_share_history f history input.restored_at s.vardiff) v
                refl refl refl,
            refl,
            refl,
          )
  ]

  switch_worker_sound :
      (input : AuthorizeInput) (worker : Bytes) (s : Session f)
      → SoundSession f s
      → SoundSession f (switch_worker f input worker s).0
        × ((switch_worker f input worker s).0.subscribed ≡ s.subscribed)
        × ((switch_worker f input worker s).0.guard ≡ s.guard)
  unfolding switch_worker
  switch_worker_sound input worker s v =
      let (left, sub, guard) = leave_worker_sound input s v in
      let (done, sub', guard') =
        restore_history_sound input worker (leave_worker f input s).0 left in
      (done, sub' ∙ sub, guard' ∙ guard)

  welcome-IsValid :
      (json : Json f) (hex : Hex) (input : AuthorizeInput) (id : json.Value)
      (params : AuthorizeParams) (s : Session f) (calls : List (StatCall f))
      → s.subscribed ≡ true
      → IsNamed s.guard.max_worker_name_len (some params.worker)
      → SoundSession f s
      → IsValid f (welcome f json hex input id params (s, calls)).session
  unfolding welcome
  welcome-IsValid json hex input id params s calls subscribed named v = record {
    set_up = λ e. (subscribed, (params.worker, refl));
    named = named;
    sound = v;
  }

  record_new_authorization-len :
      (g : SessionGuard)
      → (record_new_authorization g).1.max_worker_name_len ≡ g.max_worker_name_len
  unfolding record_new_authorization
  record_new_authorization-len g = ground arith

  admit-IsValid :
      (json : Json f) (hex : Hex) (input : AuthorizeInput) (id : json.Value)
      (params : AuthorizeParams) (s : Session f)
      → s.subscribed ≡ true
      → IsNamed s.guard.max_worker_name_len (some params.worker)
      → IsValid f s
      → IsValid f (admit f json hex input id params s).session
  unfolding admit
  admit-IsValid json hex input id params s subscribed named v =
      let guard = (record_new_authorization s.guard).1 in
      let same = record_new_authorization-len s.guard in
      let counted : Session f = record s { guard = guard } in
      elim (Bool-cases (is_new_identity s.worker params.worker)) [
        | inr known ↦
            rw (admit, known)
              (welcome-IsValid json hex input id params s [] subscribed named v.sound)
        | inl fresh ↦ elim (Bool-cases (record_new_authorization s.guard).0) [
          | inr refused ↦
              rw (admit, fresh, refused)
                (record {
                  set_up = v.set_up;
                  named = subst (λ n. IsNamed n s.worker) (sym same) v.named;
                  sound = v.sound;
                })
          | inl allowed ↦
              (let (sound, sub, kept) = switch_worker_sound input params.worker counted v.sound in
                rw (admit, fresh, allowed)
                  (welcome-IsValid json hex input id params
                    (switch_worker f input params.worker counted).0
                    (switch_worker f input params.worker counted).1 (sub ∙ subscribed)
                    (subst (λ n. IsNamed n (some params.worker))
                      (sym (ap (λ g. g.max_worker_name_len) kept ∙ same)) named)
                    sound))
        ]
      ]

  IsNamed-of_checked :
      (g : SessionGuard) (w : Bytes)
      → check_worker_name g (chars w) ≡ ok tt
      → IsNamed g.max_worker_name_len (some w)
  unfolding check_worker_name
  IsNamed-of_checked g w e = e

  pub check_worker_name-cases :
      (g : SessionGuard) (w : Bytes)
      → (check_worker_name g (chars w) ≡ ok tt)
        ⊎ ((e : PoolError) × (check_worker_name g (chars w) ≡ err e))
  unfolding check_worker_name validate_worker_name
  check_worker_name-cases g w = elim (validate_worker_name_lem (chars w) g.max_worker_name_len) [
    | inl good ↦ inl good.3
    | inr bad ↦ inr (invalid_params "worker name", bad.1)
  ]

  -- `mining.authorize` keeps the invariant: a session is authorized only after it subscribed, and
  -- under a name that the guard accepts.
  pub authorize-IsValid :
      (json : Json f) (hex : Hex) (size_text : ℕ → ℕ → Bytes) (input : AuthorizeInput)
      (id : json.Value) (params : AuthorizeParams) (s : Session f)
      → IsValid f s
      → IsValid f (handle_authorize f json hex size_text input id params s).session
  unfolding handle_authorize
  authorize-IsValid json hex size_text input id params s v =
      if_elim (λ (h : Handled f json.Value). IsValid f h.session) (not s.subscribed) _ _ (λ e. v)
        (λ e. elim (check_worker_name-cases s.guard params.worker) [
          | inl named ↦ rw named (
              admit-IsValid json hex input id params s (ground (arith, e))
                (IsNamed-of_checked s.guard params.worker named) v)
          | inr (e, refused) ↦ rw refused v
        ])

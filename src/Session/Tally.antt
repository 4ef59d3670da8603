-- ===== src/Session/Tally.antt =====
-- The statistics that a session reports balance.
pub mod Submit
pub mod Run
pub mod Close
use solo_pool_rs.Prelude.{
  ℕ, ◌+◌, ◌≡◌, ◌⊎◌, ◌∙◌, refl, ap, sym, subst, Bool, true, false, not, Option, none, some, List, [],
  ◌∷◌, ◌++◌, length, ◌==◌, arith, if_elim, if◌then◌else◌, inl, inr, Bool-cases, Option-cases,
}
use solo_pool_rs.Prelude.Bytes.{Bytes, bytes_eq, eq_of_bytes_eq}
use solo_pool_rs.Prelude.Utf8.{chars}
use solo_pool_rs.Error.{Result, ok, err, panic, PoolError, Returns, Returns-map}
use solo_pool_rs.Template.PrevHash.{Hex}
use solo_pool_rs.Security.Guard.{check_worker_name, record_new_authorization}
use solo_pool_rs.Vardiff.{F64}
use solo_pool_rs.Vardiff as Vardiff
use solo_pool_rs.Sv1.Json.{Json}
use solo_pool_rs.Sv1.Parse.{AuthorizeParams}
use solo_pool_rs.Session.State.{
  StatCall, log_share, mark_worker_online, mark_worker_offline, Session, Handled, unchanged,
}
use solo_pool_rs.Session.Setup.{
  AuthorizeInput, leave_worker, restore_history, switch_worker, is_new_identity, welcome, admit,
  handle_authorize,
}
use solo_pool_rs.Session.Submit.Settled.{credits}
use solo_pool_rs.Session.Invariant.Authorize.{check_worker_name-cases}

abbrev one_if : Bool → ℕ
one_if b = if b then 1 else 0

-- Whether the session's worker is the one named.
abbrev pub here : Bytes → Option Bytes → ℕ
here w none = 0
here w (some x) = one_if (bytes_eq x w)

module _ (f : F64) where
  -- How often some calls mark the named worker as online, and as offline.
  unfoldable pub online : Bytes → List (StatCall f) → ℕ
  online w [] = 0
  online w (mark_worker_online x d ∷ calls) = one_if (bytes_eq x w) + online w calls
  online w (_ ∷ calls) = online w calls

  unfoldable pub offline : Bytes → List (StatCall f) → ℕ
  offline w [] = 0
  offline w (mark_worker_offline x ∷ calls) = one_if (bytes_eq x w) + offline w calls
  offline w (_ ∷ calls) = offline w calls

  -- Some calls account for the change of the worker and of the count of shares.
  pub record Accounts (worker : Option Bytes) (accepted : ℕ) (worker' : Option Bytes)
      (accepted' : ℕ) (calls : List (StatCall f)) : Type 0 where
    pub balance : (w : Bytes) → online w calls + here w worker ≡ offline w calls + here w worker'
    pub count : length (credits f calls) + accepted ≡ accepted'

  -- The calls of a handler that leaves the session `t` of `s`.
  abbrev pub AccountsFor : Session f → Session f → List (StatCall f) → Type 0
  AccountsFor s t = Accounts s.worker s.shares_accepted t.worker t.shares_accepted

  pub online-append :
      (w : Bytes) (xs ys : List (StatCall f)) → online w (xs ++ ys) ≡ online w xs + online w ys
  unfolding online
  online-append w [] ys = omega arith
  online-append w (mark_worker_online x d ∷ xs) ys = omega (arith, online-append w xs ys)
  online-append w (_ ∷ xs) ys = online-append w xs ys

  pub offline-append :
      (w : Bytes) (xs ys : List (StatCall f)) → offline w (xs ++ ys) ≡ offline w xs + offline w ys
  unfolding offline
  offline-append w [] ys = omega arith
  offline-append w (mark_worker_offline x ∷ xs) ys = omega (arith, offline-append w xs ys)
  offline-append w (_ ∷ xs) ys = offline-append w xs ys

  pub credits-append :
      (xs ys : List (StatCall f))
      → length (credits f (xs ++ ys)) ≡ length (credits f xs) + length (credits f ys)
  unfolding credits
  credits-append [] ys = omega arith
  credits-append (log_share x d ∷ xs) ys = omega (arith, credits-append xs ys)
  credits-append (_ ∷ xs) ys = credits-append xs ys

  -- One handler after another.
  pub Accounts-append :
      (s t u : Session f) (xs ys : List (StatCall f))
      → AccountsFor s t xs
      → AccountsFor t u ys
      → AccountsFor s u (xs ++ ys)
  Accounts-append s t u xs ys a b = record {
    balance =
        λ w. omega (arith, online-append w xs ys, offline-append w xs ys, a.balance w, b.balance w);
    count = omega (arith, credits-append xs ys, a.count, b.count);
  }

  pub silent-Accounts : (s : Session f) → AccountsFor s s []
  unfolding online offline credits
  silent-Accounts s = record { balance = λ w. refl; count = omega arith }

  leave_worker-Accounts :
      (input : AuthorizeInput) (s : Session f)
      → AccountsFor s (leave_worker f input s).0 (leave_worker f input s).1
        × ((leave_worker f input s).0.worker ≡ none)
  unfolding leave_worker online offline credits
  leave_worker-Accounts input s = elim (Option-cases s.worker) [
    | inl e ↦
        rw (leave_worker, e)
          (record { balance = λ w. omega (arith, ap (here w) e); count = omega arith }, e)
    | inr (prev, e) ↦
        rw (leave_worker, e) (record { balance = λ w. omega arith; count = omega arith }, refl)
  ]

  restore_history-kept :
      (input : AuthorizeInput) (worker : Bytes) (s : Session f)
      → ((restore_history f input worker s).worker ≡ s.worker)
        × ((restore_history f input worker s).shares_accepted ≡ s.shares_accepted)
  unfolding restore_history
  restore_history-kept input worker s = elim (Option-cases (input.stashed worker)) [
    | inl e ↦ rw (restore_history, e) (refl, refl)
    | inr (history, e) ↦ rw (restore_history, e) (refl, refl)
  ]

  switch_worker-Accounts :
      (input : AuthorizeInput) (worker : Bytes) (s t : Session f)
      → t.worker ≡ some worker
      → t.shares_accepted ≡ (switch_worker f input worker s).0.shares_accepted
      → AccountsFor s t (switch_worker f input worker s).1
  unfolding switch_worker online offline credits
  switch_worker-Accounts input worker s t now_here same =
      let (left, gone) = leave_worker-Accounts input s in
      let (kept, count) = restore_history-kept input worker (leave_worker f input s).0 in
      Accounts-append s (leave_worker f input s).0 t (leave_worker f input s).1 _ left (record {
        balance = λ w. omega (arith, ap (here w) gone, ap (here w) now_here);
        count = omega (arith, same, count);
      })

  -- A handler's calls account for what it changed.
  abbrev pub Accounted : {Value : Type 0} → Session f → Handled f Value → Type 0
  Accounted s h = AccountsFor s h.session h.calls

  admit-Accounted :
      (json : Json f) (hex : Hex) (input : AuthorizeInput) (id : json.Value)
      (params : AuthorizeParams) (s : Session f)
      → Accounted s (admit f json hex input id params s)
  unfolding admit welcome
  admit-Accounted json hex input id params s =
      let counted : Session f = record s { guard = (record_new_authorization s.guard).1 } in
      if_elim {A = Handled f json.Value} (Accounted s) (is_new_identity s.worker params.worker) _ _
        (λ fresh.
          if_elim {A = Handled f json.Value} (Accounted s) (record_new_authorization s.guard).0 _ _
            (λ allowed.
              switch_worker-Accounts input params.worker counted
                (welcome f json hex input id params
                  (switch_worker f input params.worker counted)).session
                refl refl)
            (λ refused. silent-Accounts s))
        (λ known. same_worker s.worker refl known)
    where
      same_worker :
          (o : Option Bytes)
          → s.worker ≡ o
          → is_new_identity o params.worker ≡ false
          → Accounted s (welcome f json hex input id params (s, []))
      same_worker none e known = unfold is_new_identity in absurd (cc)
      same_worker (some current) e known =
          unfold is_new_identity online offline credits welcome in
          let same : current ≡ params.worker =
            eq_of_bytes_eq current params.worker (ground (arith, known)) in
          record {
            balance = λ w. omega (arith, ap (here w) e, ap (λ c. one_if (bytes_eq c w)) same);
            count = omega arith;
          }

  pub authorize-Accounted :
      (json : Json f) (hex : Hex) (size_text : ℕ → ℕ → Bytes) (input : AuthorizeInput)
      (id : json.Value) (params : AuthorizeParams) (s : Session f)
      → Accounted s (handle_authorize f json hex size_text input id params s)
  unfolding handle_authorize
  authorize-Accounted json hex size_text input id params s =
      if_elim {A = Handled f json.Value} (Accounted s) (not s.subscribed) _ _
        (λ _. silent-Accounts s)
        (λ _. elim (check_worker_name-cases f s.guard params.worker) [
          | inl named ↦ rw named (admit-Accounted json hex input id params s)
          | inr (e, refused) ↦ rw refused (silent-Accounts s)
        ])

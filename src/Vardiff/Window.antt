-- ===== src/Vardiff/Window.antt =====
-- What the record of shares forgets: nothing that a window may count.
use solo_pool_rs.Prelude.{
  ℕ, ◌-◌, ◌≤◌, ◌≡◌, ◌∙◌, ap, ap₂, refl, Bool, false, List, [], ◌∷◌, ◌++◌, append-nil, keep, ltb,
  leb, arith, if◌then◌else◌, Bool-cases, inl, inr,
}
use solo_pool_rs.Prelude.Words.{saturating_add_u64}
use solo_pool_rs.Vardiff.{
  F64, Vardiff, Share, share_retention, is_within, drop_old, record_share, take_share_history,
  restore_share_history, sum_work, work_in_window,
}

keep-drop_old :
    (f : F64) (window at now : ℕ) (shares : List Share)
    → window ≤ share_retention
    → now ≤ at
    → keep (is_within f window at) (drop_old f now shares) ≡ keep (is_within f window at) shares
unfolding drop_old
keep-drop_old f window at now [] small later = refl
keep-drop_old f window at now ((t, d) ∷ shares) small later =
    elim (Bool-cases (ltb share_retention (now - t))) [
      | inl old ↦
          (let outside : leb (at - t) window ≡ false = ground (arith, old) in
            rw (old, outside) (keep-drop_old f window at now shares small later))
      | inr recent ↦ rw recent refl
    ]

keep-keep :
    (f : F64) (window at now : ℕ) (shares : List Share)
    → window ≤ share_retention
    → now ≤ at
    → keep (is_within f window at) (keep (is_within f share_retention now) shares)
      ≡ keep (is_within f window at) shares
keep-keep f window at now [] small later = refl
keep-keep f window at now ((t, d) ∷ shares) small later =
    ground (arith, keep-keep f window at now shares small later)

keep-append : (p : Share → Bool) (xs ys : List Share) → keep p (xs ++ ys) ≡ keep p xs ++ keep p ys
keep-append p [] ys = refl
keep-append p (x ∷ xs) ys = elim (Bool-cases (p x)) [
  | inl e ↦ rw e (ap (◌∷◌ x) (keep-append p xs ys))
  | inr e ↦ rw e (keep-append p xs ys)
]

sum_work-append :
    (f : F64) (sum : ℕ) (xs ys : List Share)
    → sum_work f sum (xs ++ ys) ≡ sum_work f (sum_work f sum xs) ys
unfolding sum_work
sum_work-append f sum [] ys = refl
sum_work-append f sum ((t, d) ∷ xs) ys = sum_work-append f (saturating_add_u64 sum d) xs ys

module _ (f : F64) where
  -- A recorded share adds its credit to every window that reaches back to it, up to the largest u64,
  -- and to no other; the eviction that comes with it takes nothing from any window of up to a day,
  -- then or later.
  pub work_in_window-record_share :
      (window at now credit : ℕ) (v : Vardiff f)
      → window ≤ share_retention
      → now ≤ at
      → (work_in_window f window at (record_share f credit now v)).0 ≡ (
          if leb (at - now) window
          then saturating_add_u64 (work_in_window f window at v).0 credit
          else (work_in_window f window at v).0)
  unfolding work_in_window record_share sum_work
  work_in_window-record_share window at now credit v small later =
      let added = v.share_times ++ ((now, credit) ∷ []) in
      let p = is_within f window at in
      ap (sum_work f 0) (
        keep-drop_old f window at now added small later
        ∙ keep-append p v.share_times ((now, credit) ∷ []))
      ∙ sum_work-append f 0 (keep p v.share_times) (keep p ((now, credit) ∷ []))
      ∙ elim (Bool-cases (leb (at - now) window)) [
        | inl inside ↦ rw inside refl
        | inr outside ↦ rw outside refl
      ]

  -- A worker that comes back finds its record as it was: if the session that it left hands its
  -- history over, and the new one, which began no earlier, adopts it before its first share, every
  -- window of up to a day shows the work and the observed time that the old session would show.
  pub work_in_window_handoff :
      (window at now taken_at : ℕ) (old fresh : Vardiff f)
      → window ≤ share_retention
      → now ≤ at
      → fresh.share_times ≡ []
      → old.started_at ≤ fresh.started_at
      → work_in_window f window at
          (restore_share_history f (take_share_history f taken_at old).0 now fresh)
        ≡ work_in_window f window at old
  unfolding work_in_window restore_share_history take_share_history
  work_in_window_handoff window at now taken_at old fresh small later empty earlier =
      ap₂ (λ a b. (a, b))
        (ap
            (λ l. sum_work f 0 (
              keep (is_within f window at)
                (keep (is_within f share_retention now) old.share_times ++ l)))
            empty
          ∙ ap (λ l. sum_work f 0 (keep (is_within f window at) l))
              (append-nil (keep (is_within f share_retention now) old.share_times))
          ∙ ap (sum_work f 0) (keep-keep f window at now old.share_times small later))
        (omega arith)

-- ===== src/Security/Guard/Laws.antt =====
-- When the guards of a session refuse.
use solo_pool_rs.Prelude.{
  ℕ, zero, suc, ◌+◌, ◌^◌, ◌≤◌, ◌<◌, ◌≡◌, ◌≢◌, ◌⊎◌, refl, Bool, true, false, List, [], ◌∷◌, any, ltb,
  ◌==◌, arith, Bool-cases, inl, inr,
}
use solo_pool_rs.Prelude.All.{All}
use solo_pool_rs.Error.{ok, err, invalid_params}
use solo_pool_rs.Security.Guard.{
  InvalidShareCounter, SessionGuard, record_invalid, record_new_authorization, is_refused_char,
  byte_len, len_utf8, validate_worker_name,
}

-- The counter after `n` invalid shares.
unfoldable pub invalid_shares : ℕ → InvalidShareCounter → InvalidShareCounter
invalid_shares zero c = c
invalid_shares (suc n) c = (record_invalid (invalid_shares n c)).1

invalid_shares-count :
    (n max : ℕ)
    → 0 < max
    → let c = invalid_shares n (record { count = 0; max = max }) in (c.count ≡ n) × (c.max ≡ max)
unfolding invalid_shares record_invalid
invalid_shares-count zero max pos = (refl, refl)
invalid_shares-count (suc n) max pos = ground (arith, invalid_shares-count n max pos)

-- Under a limit of `max` invalid shares the session is told to disconnect at the `max`-th one, and
-- at none before it; a limit of 0 never disconnects.
pub record_invalid_lem :
    (n max : ℕ)
    → n < max ⊎ (max ≡ 0)
    → (record_invalid (invalid_shares n (record { count = 0; max = max }))).0 ≡ (suc n == max)
unfolding record_invalid invalid_shares
record_invalid_lem n max (inl h) = ground (arith, invalid_shares-count n max (omega arith))
record_invalid_lem n max (inr h) = rw h (unlimited n)
  where
    idle :
        (k : ℕ) → invalid_shares k (record { count = 0; max = 0 }) ≡ record { count = 0; max = 0 }
    idle zero = refl
    idle (suc k) = rw (invalid_shares, idle k, record_invalid) refl

    unlimited :
        (k : ℕ)
        → (record_invalid (invalid_shares k (record { count = 0; max = 0 }))).0 ≡ (suc k == 0)
    unlimited k = rw (idle k) (ground arith)

-- The guard after `n` new worker identities.
unfoldable pub authorized : ℕ → SessionGuard → SessionGuard
authorized zero g = g
authorized (suc n) g = (record_new_authorization (authorized n g)).1

authorized-count :
    (n : ℕ) (g : SessionGuard)
    → 0 < g.max_authorizations
    → ((authorized n g).authorizations ≡ g.authorizations + n)
      × ((authorized n g).max_authorizations ≡ g.max_authorizations)
unfolding authorized record_new_authorization
authorized-count zero g pos = (omega arith, refl)
authorized-count (suc n) g pos = ground (arith, authorized-count n g pos)

-- A session with a cap of `max` identities may authorize that many, and is refused every further
-- one, up to the range of the counter.
pub record_new_authorization_lem :
    (n : ℕ) (g : SessionGuard)
    → g.authorizations ≡ 0
    → 0 < g.max_authorizations
    → n + 1 < 2 ^ 32
    → (record_new_authorization (authorized n g)).0 ≡ ltb n g.max_authorizations
unfolding record_new_authorization
record_new_authorization_lem n g none_yet pos small = ground (arith, authorized-count n g pos)

byte_len-pos : (c : ℕ) (cs : List ℕ) → (byte_len (c ∷ cs) == 0) ≡ false
unfolding byte_len len_utf8
byte_len-pos c cs = ground arith

any-All :
    (p : ℕ → Bool) (xs : List ℕ)
    → ((any p xs ≡ true) × ¬ All (λ c. p c ≡ false) xs)
      ⊎ ((any p xs ≡ false) × All (λ c. p c ≡ false) xs)
any-All p [] = inr (refl, tt)
any-All p (x ∷ xs) = elim (Bool-cases (p x)) [
  | inl bad ↦ inl (rw bad refl, λ h. absurd (cc))
  | inr good ↦ elim (any-All p xs) [
    | inl (found, some_bad) ↦ inl (rw good found, λ h. some_bad h.1)
    | inr (clean, all_good) ↦ inr (rw good clean, (good, all_good))
  ]
]

-- A worker name is accepted exactly if it is not empty, has at most `max_len` bytes in UTF-8 and no
-- control or whitespace character; any other is refused as bad parameters.
pub validate_worker_name_lem :
    (name : List ℕ) (max_len : ℕ)
    → ((name ≢ [])
        × (byte_len name ≤ max_len)
        × All (λ c. is_refused_char c ≡ false) name
        × (validate_worker_name name max_len ≡ ok tt))
      ⊎ (((name ≡ []) ⊎ (max_len < byte_len name) ⊎ ¬ All (λ c. is_refused_char c ≡ false) name)
          × (validate_worker_name name max_len ≡ err (invalid_params "worker name")))
unfolding validate_worker_name byte_len
validate_worker_name_lem [] max_len = inr (inl refl, refl)
validate_worker_name_lem (c ∷ cs) max_len = elim (Bool-cases (ltb max_len (byte_len (c ∷ cs)))) [
  | inl long ↦ inr (inr (inl (ground (arith, long))), rw (byte_len-pos c cs, long) refl)
  | inr fits ↦ elim (any-All is_refused_char (c ∷ cs)) [
    | inl (found, bad) ↦ inr (inr (inr bad), rw (byte_len-pos c cs, fits, found) refl)
    | inr (clean, good) ↦
        inl (λ e. cc, ground (arith, fits), good, rw (byte_len-pos c cs, fits, clean) refl)
  ]
]

-- ===== src/Security/Connections/Rate.antt =====
-- No more than its rate from one address.
use solo_pool_rs.Prelude.{
  ℕ, ◌+◌, ◌-◌, ◌≤◌, ◌≡◌, ◌⊎◌, ◌∙◌, ap, refl, sym, Bool, true, false, ◌&&◌, Option, none, some, List,
  [], ◌∷◌, ◌++◌, length, keep, ltb, leb, arith, if◌then◌else◌, Bool-cases, Option-cases, inl, inr,
  length-append, length-keep-le,
}
use solo_pool_rs.Prelude.Bytes.{Bytes, bytes_eq, eq_of_bytes_eq}
use solo_pool_rs.Prelude.All.{All}
use solo_pool_rs.Security.Table.{lookup, insert, lookup-insert, lookup-retain, lookup-retain-none}
use solo_pool_rs.Security.Connections.{
  ConnectionRateLimiter, new, one_minute, cutoff, is_live, prune, window, evict, record_connection,
  is_full_for, check_and_record,
}
use solo_pool_rs.Security.Connections.Memory.{IsBounded, check_and_record-IsBounded}

-- The times later than `c`.
abbrev pub since : ℕ → List ℕ → List ℕ
since c times = keep (ltb c) times

since-evict :
    (c now : ℕ) (times : List ℕ)
    → now ≤ c + one_minute
    → since c (evict (cutoff now) times) ≡ since c times
unfolding evict
since-evict c now times h = elim (Bool-cases (ltb now one_minute)) [
  | inl early ↦ rw early refl
  | inr late ↦ rw late (go times (now - one_minute) (omega arith))
]
  where
    go : (xs : List ℕ) (d : ℕ) → d ≤ c → keep (ltb c) (keep (ltb d) xs) ≡ keep (ltb c) xs
    go [] d le = refl
    go (x ∷ xs) d le = ground (arith, go xs d le)

since-dead : (c d : ℕ) (times : List ℕ) → d ≤ c → is_live d times ≡ false → since c times ≡ []
since-dead c d [] le h = refl
since-dead c d (x ∷ xs) le h = ground (arith, since-dead c d xs le)

window-insert :
    (ip j : Bytes) (v : List ℕ) (l : ConnectionRateLimiter)
    → window j (record l { windows = insert ip v l.windows })
      ≡ (if bytes_eq ip j then v else window j l)
unfolding window
window-insert ip j v l = ground (arith, lookup-insert ip j v l.windows)

-- Pruning leaves a window as it is, or drops one without a connection of the last minute.
window-prune :
    (c now : ℕ) (j : Bytes) (l : ConnectionRateLimiter)
    → now ≤ c + one_minute
    → IsBounded l
    → (window j (prune now l) ≡ window j l)
      ⊎ ((window j (prune now l) ≡ []) × (since c (window j l) ≡ []))
unfolding prune window
window-prune c now j l h b = elim (Bool-cases (ltb now one_minute)) [
  | inl early ↦ rw (early, prune) (inl refl)
  | inr late ↦
      rw (late, prune)
        (elim (Option-cases (lookup j l.windows)) [
          | inl absent ↦ inl (
              rw
                (absent, lookup-retain-none (is_live (now - one_minute)) j l.windows absent, window)
                refl)
          | inr (times, present) ↦ elim (Bool-cases (is_live (now - one_minute) times)) [
            | inl live ↦ inl (
                rw
                  (
                    present,
                    lookup-retain (is_live (now - one_minute)) j l.windows times b.once present,
                    live,
                    window,
                  )
                  refl)
            | inr dead ↦ inr (
                rw
                  (
                    present,
                    lookup-retain (is_live (now - one_minute)) j l.windows times b.once present,
                    dead,
                    window,
                  )
                  (refl, since-dead c (now - one_minute) times (omega arith) dead))
          ]
        ])
]

since-prune :
    (c now : ℕ) (j : Bytes) (l : ConnectionRateLimiter)
    → now ≤ c + one_minute
    → IsBounded l
    → (length (since c (window j (prune now l))) ≡ length (since c (window j l)))
      × (length (window j (prune now l)) ≤ length (window j l))
since-prune c now j l h b = elim (window-prune c now j l h b) [
  | inl same ↦ rw same (refl, omega arith)
  | inr (gone, none_since) ↦ rw (gone, none_since) (refl, omega arith)
]

max_per_minute-prune :
    (now : ℕ) (l : ConnectionRateLimiter) → (prune now l).max_per_minute ≡ l.max_per_minute
unfolding prune
max_per_minute-prune now l = ground arith

-- What an attempt of `ip` adds to the connections of `j`.
abbrev pub gained : Bytes → Bytes → Bool → ℕ → List ℕ
gained j ip allowed later = if bytes_eq ip j && allowed then later ∷ [] else []

since-append :
    (c : ℕ) (xs ys : List ℕ)
    → length (since c (xs ++ ys)) ≡ length (since c xs) + length (since c ys)
since-append c [] ys = omega arith
since-append c (x ∷ xs) ys = ground (arith, since-append c xs ys)

length-evict-le : (before : Option ℕ) (times : List ℕ) → length (evict before times) ≤ length times
unfolding evict
length-evict-le none times = omega arith
length-evict-le (some before) times = length-keep-le (ltb before) times

same_window :
    (ip j : Bytes) (l : ConnectionRateLimiter) → bytes_eq ip j ≡ true → window j l ≡ window ip l
same_window ip j l e = ap (λ k. window k l) (sym (eq_of_bytes_eq ip j e))

since-record_connection :
    (c now later : ℕ) (j ip : Bytes) (l : ConnectionRateLimiter)
    → now ≤ c + one_minute
    → let r = record_connection ip (cutoff now) later l in
      (length (since c (window j r.1))
        ≡ length (since c (window j l)) + length (since c (gained j ip r.0 later)))
      × (length (window j l) ≤ l.max_per_minute → length (window j r.1) ≤ l.max_per_minute)
      × (r.1.max_per_minute ≡ l.max_per_minute)
unfolding record_connection
since-record_connection c now later j ip l h = elim (Bool-cases (leb l.max_per_minute (length e))) [
  | inl full ↦ rw full (elim (Bool-cases (bytes_eq ip j)) [
    | inl own ↦
        rw (window-insert ip j e l, own, same_window ip j l own)
          (
            ap length (since-evict c now (window ip l) h) ∙ omega arith,
            λ le. omega (arith, length-evict-le (cutoff now) (window ip l)),
            refl,
          )
    | inr other ↦ rw (window-insert ip j e l, other) (omega arith, λ le. le, refl)
  ])
  | inr spare ↦ rw spare (elim (Bool-cases (bytes_eq ip j)) [
    | inl own ↦
        rw (window-insert ip j (e ++ (later ∷ [])) l, own, same_window ip j l own)
          (
            since-append c e (later ∷ [])
                ∙ ap (λ n. n + length (since c (later ∷ [])))
                    (ap length (since-evict c now (window ip l) h)),
            λ le. room spare,
            refl,
          )
    | inr other ↦ rw (window-insert ip j (e ++ (later ∷ [])) l, other) (omega arith, λ le. le, refl)
  ])
]
  where
    e : List ℕ
    e = evict (cutoff now) (window ip l)

    room : leb l.max_per_minute (length e) ≡ false → length (e ++ (later ∷ [])) ≤ l.max_per_minute
    room spare = ground (arith, length-append e (later ∷ []))

-- One call of `check_and_record`: the caller's address and the three clock readings.
pub record Attempt : Type 0 where
  pub ip : Bytes
  pub now : ℕ
  pub pruned_at : ℕ
  pub later : ℕ

abbrev attempt : Attempt → ConnectionRateLimiter → Bool × ConnectionRateLimiter
attempt a l = check_and_record a.ip a.now a.pruned_at a.later l

-- The times at which a run of attempts let `j` connect.
unfoldable pub allowed_times : Bytes → List Attempt → ConnectionRateLimiter → List ℕ
allowed_times j [] l = []
allowed_times j (a ∷ as') l =
    let (allowed, l') = attempt a l in gained j a.ip allowed a.later ++ allowed_times j as' l'

-- Both of the readings that the limiter compares with are at most a minute past `c`.
abbrev pub IsWithin : ℕ → Attempt → Type 0
IsWithin c a = (a.now ≤ c + one_minute) × (a.pruned_at ≤ c + one_minute)

since-check_and_record :
    (c : ℕ) (j : Bytes) (a : Attempt) (l : ConnectionRateLimiter)
    → IsWithin c a
    → IsBounded l
    → length (window j l) ≤ l.max_per_minute
    → let r = attempt a l in
      (length (since c (window j r.1))
        ≡ length (since c (window j l)) + length (since c (gained j a.ip r.0 a.later)))
      × (length (window j r.1) ≤ l.max_per_minute)
      × (r.1.max_per_minute ≡ l.max_per_minute)
unfolding check_and_record
since-check_and_record c j a l h b le = elim (Bool-cases (is_full_for a.ip l)) [
  | inl full ↦ rw full (elim (Bool-cases (leb p.max_tracked (length p.windows))) [
    | inl still ↦ rw still (elim (Bool-cases (bytes_eq a.ip j)) [
      | inl own ↦ rw own (omega (arith, dropped), omega (arith, dropped), limit)
      | inr other ↦ rw other (omega (arith, dropped), omega (arith, dropped), limit)
    ])
    | inr room ↦ rw room (
        let r = since-record_connection c a.now a.later j a.ip p h.0 in
        (omega (arith, dropped, r), omega (arith, dropped, r, limit), r.2 ∙ limit))
  ])
  | inr room ↦
      rw room (let r = since-record_connection c a.now a.later j a.ip l h.0 in (r.0, r.1 le, r.2))
]
  where
    p : ConnectionRateLimiter
    p = prune a.pruned_at l

    limit : p.max_per_minute ≡ l.max_per_minute
    limit = max_per_minute-prune a.pruned_at l

    dropped :
        (length (since c (window j p)) ≡ length (since c (window j l)))
        × (length (window j p) ≤ length (window j l))
    dropped = since-prune c a.pruned_at j l h.1 b

allowed_times-le :
    (c : ℕ) (j : Bytes) (as' : List Attempt) (l : ConnectionRateLimiter)
    → All (IsWithin c) as'
    → IsBounded l
    → length (window j l) ≤ l.max_per_minute
    → length (since c (window j l)) + length (since c (allowed_times j as' l)) ≤ l.max_per_minute
unfolding allowed_times
allowed_times-le c j [] l h b le = omega (arith, length-keep-le (ltb c) (window j l))
allowed_times-le c j (a ∷ as') l h b le =
    let r = attempt a l in
    let s = since-check_and_record c j a l h.0 b le in
    omega (
      arith,
      s,
      since-append c (gained j a.ip r.0 a.later) (allowed_times j as' r.1),
      allowed_times-le c j as' r.1 h.1
          (check_and_record-IsBounded a.ip a.now a.pruned_at a.later l b) (omega (arith, s)),
    )

-- In every run of connection attempts on a new limiter of `n` per minute, whatever other addresses
-- do and whatever the limiter forgets when it is full, an address is let in at most `n` times after
-- a moment `c`, for as long as the clock stays within a minute of `c`.
pub allowed_times_per_minute :
    (c n : ℕ) (ip : Bytes) (attempts : List Attempt)
    → All (IsWithin c) attempts
    → length (since c (allowed_times ip attempts (new n))) ≤ n
unfolding new window lookup
allowed_times_per_minute c n ip attempts h = omega (
  arith,
  allowed_times-le c ip attempts (new n) h (record { once = tt; bounded = omega arith })
      (omega arith),
)

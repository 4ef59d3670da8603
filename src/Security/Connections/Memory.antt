-- ===== src/Security/Connections/Memory.antt =====
-- The connection limiter's memory.
use solo_pool_rs.Prelude.{
  ℕ, ◌-◌, ◌≤◌, ◌<◌, ◌≡◌, false, Option, List, [], ◌∷◌, ◌++◌, length, ltb, leb, arith, Bool-cases,
  inl, inr,
}
use solo_pool_rs.Prelude.Bytes.{Bytes}
use solo_pool_rs.Security.Table.{
  contains_key, insert, DistinctKeys, insert-DistinctKeys, retain-DistinctKeys,
  length-insert_present, length-insert-le, length-retain-le,
}
use solo_pool_rs.Security.Connections.{
  ConnectionRateLimiter, one_minute, cutoff, is_live, prune, window, evict, record_connection,
  is_full_for, check_and_record,
}

-- Each address once, and no more addresses than the limit.
pub record IsBounded (l : ConnectionRateLimiter) : Type 0 where
  pub once : DistinctKeys l.windows
  pub bounded : length l.windows ≤ l.max_tracked

-- The window after an attempt, and whether it is full.
kept : Bytes → Option ℕ → ConnectionRateLimiter → List ℕ
kept ip before l = evict before (window ip l)

is_tracked :
    (ip : Bytes) (l : ConnectionRateLimiter)
    → is_full_for ip l ≡ false
    → IsBounded l
    → (v : List ℕ) → length (insert ip v l.windows) ≤ l.max_tracked
is_tracked ip l room b v = elim (Bool-cases (contains_key ip l.windows)) [
  | inl known ↦ omega (arith, length-insert_present ip v l.windows known, b.bounded)
  | inr fresh ↦
      (let spare : length l.windows < l.max_tracked = ground (arith, fresh, room) in
        omega (arith, length-insert-le ip v l.windows))
]

record_connection-IsBounded :
    (ip : Bytes) (before : Option ℕ) (later : ℕ) (l : ConnectionRateLimiter)
    → is_full_for ip l ≡ false
    → IsBounded l
    → IsBounded (record_connection ip before later l).1
unfolding record_connection kept
record_connection-IsBounded ip before later l room b =
    elim (Bool-cases (leb l.max_per_minute (length (kept ip before l)))) [
      | inl full ↦ rw full (record {
        once = insert-DistinctKeys ip (kept ip before l) l.windows b.once;
        bounded = is_tracked ip l room b (kept ip before l);
      })
      | inr spare ↦ rw spare (record {
        once = insert-DistinctKeys ip (kept ip before l ++ (later ∷ [])) l.windows b.once;
        bounded = is_tracked ip l room b (kept ip before l ++ (later ∷ []));
      })
    ]

-- `prune` keeps the memory bounded.
pub prune-IsBounded : (now : ℕ) (l : ConnectionRateLimiter) → IsBounded l → IsBounded (prune now l)
unfolding prune
prune-IsBounded now l b = elim (Bool-cases (ltb now one_minute)) [
  | inl early ↦ rw (early, prune) b
  | inr late ↦
      rw (late, prune)
        (record {
          once = retain-DistinctKeys (is_live (now - one_minute)) l.windows b.once;
          bounded =
              omega (arith, length-retain-le (is_live (now - one_minute)) l.windows, b.bounded);
        })
]

-- `check_and_record` keeps each address once and at most `max_tracked` of them, whatever addresses
-- connect and whatever the clock reads.
pub check_and_record-IsBounded :
    (ip : Bytes) (now pruned_at later : ℕ) (l : ConnectionRateLimiter)
    → IsBounded l
    → IsBounded (check_and_record ip now pruned_at later l).1
unfolding check_and_record
check_and_record-IsBounded ip now pruned_at later l b = elim (Bool-cases (is_full_for ip l)) [
  | inl full ↦
      rw full
        (elim (Bool-cases
          (leb (prune pruned_at l).max_tracked (length (prune pruned_at l).windows))) [
            | inl still ↦ rw still (prune-IsBounded pruned_at l b)
            | inr room ↦ rw room (
                record_connection-IsBounded ip (cutoff now) later (prune pruned_at l)
                  (ground (arith, room)) (prune-IsBounded pruned_at l b))
          ])
  | inr room ↦ rw room (record_connection-IsBounded ip (cutoff now) later l room b)
]

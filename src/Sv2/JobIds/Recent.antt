-- ===== src/Sv2/JobIds/Recent.antt =====
-- A job that was sent stays known under its id until 16 others were sent.
use solo_pool_rs.Prelude.{
  ℕ, zero, suc, ◌+◌, ◌-◌, ◌%◌, ◌^◌, ◌≤◌, ◌<◌, ◌≡◌, ◌∙◌, refl, ap, subst, true, false, some, List,
  [], ◌∷◌, ◌++◌, length, ltb, ◌==◌, arith, if_elim, length-append, append_assoc, drop,
}
use solo_pool_rs.Prelude.Bytes.{Bytes}
use solo_pool_rs.Sv2.JobIds.{JobIds, new_ids, next_id, trim, assign_job_id, find_id, engine_job_id}

-- How many ids back from the next one an id is; there are 2 ^ 32 - 1 of them, from 1 on.
abbrev pub age : ℕ → ℕ → ℕ
age next id = (next + 0xffff_ffff - id) % 0xffff_ffff

abbrev pub IsId : ℕ → Type 0
IsId id = (0 < id) × (id < 2 ^ 32)

-- The ids of a list are the last ones before `next`, the latest at the end.
abbrev pub AreRecent : ℕ → List (ℕ × Bytes) → Type 0
AreRecent next [] = Unit {0}
AreRecent next ((id, e) ∷ ids) = IsId id × (age next id ≡ length ids + 1) × AreRecent next ids

pub record IsValid (s : JobIds) : Type 0 where
  pub next : IsId s.next_job_id
  pub recent : AreRecent s.next_job_id s.job_ids
  pub few : length s.job_ids ≤ 16

pub new_ids-IsValid : IsValid new_ids
unfolding new_ids
new_ids-IsValid = record { next = (omega arith, omega arith); recent = tt; few = omega arith }

next_id-age :
    (next id k : ℕ) → IsId next → IsId id → k ≤ 16 → age next id ≡ k → age (next_id next) id ≡ k + 1
unfolding next_id
next_id-age next id k hn hi few e = ground arith

next_id-IsId : (next : ℕ) → IsId next → IsId (next_id next) × (age (next_id next) next ≡ 1)
unfolding next_id
next_id-IsId next h = ground arith

appended :
    (next : ℕ) (e : Bytes) (ids : List (ℕ × Bytes))
    → IsId next
    → length ids ≤ 16
    → AreRecent next ids
    → AreRecent (next_id next) (ids ++ ((next, e) ∷ []))
appended next e [] h few r = (h, (next_id-IsId next h).1, tt)
appended next e ((id, x) ∷ ids) h few r = (
  r.0,
  next_id-age next id (length ids + 1) h r.0 (omega (arith, few)) r.1
      ∙ omega (arith, length-append ids ((next, e) ∷ [])),
  appended next e ids h (omega (arith, few)) r.2,
)

-- Trimming drops from the front, down to 16.
trimmed :
    (next : ℕ) (ids : List (ℕ × Bytes))
    → AreRecent next ids
    → AreRecent next (trim ids) × (length (trim ids) ≤ 16)
unfolding trim
trimmed next [] r = (tt, omega arith)
trimmed next (entry ∷ ids) r =
    if_elim (λ t. AreRecent next t × (length t ≤ 16)) (ltb 16 (length (entry ∷ ids))) _ _
      (λ _. trimmed next ids r.2) (λ e. (r, ground (arith, e)))

-- Assigning an id keeps the ids the latest ones, and at most 16.
pub assign-IsValid : (e : Bytes) (s : JobIds) → IsValid s → IsValid (assign_job_id e s).1
unfolding assign_job_id
assign-IsValid e s v =
    let t =
      trimmed (next_id s.next_job_id) (s.job_ids ++ ((s.next_job_id, e) ∷ []))
        (appended s.next_job_id e s.job_ids v.next v.few v.recent) in
    record { next = (next_id-IsId s.next_job_id v.next).0; recent = t.0; few = t.1 }

trim-drop : (ids : List (ℕ × Bytes)) → trim ids ≡ drop (length ids - 16) ids
unfolding trim
trim-drop [] = refl
trim-drop (entry ∷ ids) =
    if_elim (λ t. t ≡ drop (length (entry ∷ ids) - 16) (entry ∷ ids))
      (ltb 16 (length (entry ∷ ids))) _ _
      (λ e. trim-drop ids ∙ ap (λ k. drop k (entry ∷ ids)) (one_more e))
      (λ e. ap (λ k. drop k (entry ∷ ids)) (few_enough e))
  where
    one_more :
        ltb 16 (length (entry ∷ ids)) ≡ true → suc (length ids - 16) ≡ length (entry ∷ ids) - 16
    one_more e = ground (arith, e)

    few_enough : ltb 16 (length (entry ∷ ids)) ≡ false → 0 ≡ length (entry ∷ ids) - 16
    few_enough e = ground (arith, e)

drop_front :
    (n : ℕ) (front back : List (ℕ × Bytes))
    → n ≤ length front
    → drop n (front ++ back) ≡ drop n front ++ back
drop_front zero front back h = refl
drop_front (suc n) [] back h = absurd (omega arith)
drop_front (suc n) (x ∷ front) back h = drop_front n front back (omega arith)

-- An entry with `k` later ones behind it.
abbrev IsAt : ℕ → ℕ × Bytes → List (ℕ × Bytes) → Type 0
IsAt k entry ids =
    (front : List (ℕ × Bytes)) × (back : List (ℕ × Bytes)) × (ids ≡ front ++ (entry ∷ back))
    × (length back ≡ k)

assign-IsAt :
    (k : ℕ) (entry : ℕ × Bytes) (e : Bytes) (s : JobIds)
    → IsValid s
    → k + 1 < 16
    → IsAt k entry s.job_ids
    → IsAt (k + 1) entry (assign_job_id e s).1.job_ids
unfolding assign_job_id
assign-IsAt k entry e s v h (front, back, split, len) =
    let new_entry : ℕ × Bytes = (s.next_job_id, e) in
    let longer : s.job_ids ++ (new_entry ∷ []) ≡ front ++ (entry ∷ (back ++ (new_entry ∷ []))) =
      ap (λ ids. ids ++ (new_entry ∷ [])) split
      ∙ append_assoc front (entry ∷ back) (new_entry ∷ []) in
    let n = length (s.job_ids ++ (new_entry ∷ [])) - 16 in
    (
      drop n front,
      back ++ (new_entry ∷ []),
      trim-drop (s.job_ids ++ (new_entry ∷ []))
          ∙ ap (drop n) longer
          ∙ drop_front n front (entry ∷ (back ++ (new_entry ∷ []))) (
              omega (
                arith,
                v.few,
                h,
                len,
                length-append s.job_ids (new_entry ∷ []),
                ap length split,
                length-append front (entry ∷ back),
              )),
      omega (arith, length-append back (new_entry ∷ []), len),
    )

recent_at :
    (next id : ℕ) (e : Bytes) (front back : List (ℕ × Bytes))
    → AreRecent next (front ++ ((id, e) ∷ back))
    → age next id ≡ length back + 1
recent_at next id e [] back r = r.1
recent_at next id e ((j, x) ∷ front) back r = recent_at next id e front back r.2

-- The ids before an entry differ from its id, so the search finds the entry.
find_recent :
    (next id : ℕ) (e : Bytes) (front back : List (ℕ × Bytes))
    → AreRecent next (front ++ ((id, e) ∷ back))
    → find_id id (front ++ ((id, e) ∷ back)) ≡ some e
unfolding find_id
find_recent next id e [] back r = ground arith
find_recent next id e ((j, x) ∷ front) back r =
    if_elim (λ t. t ≡ some e) (j == id) _ _
      (λ same.
        let older : age next j ≡ age next id = ap (age next) (ground (arith, same)) in
        absurd (
          omega (
            arith,
            older,
            r.1,
            recent_at next id e front back r.2,
            length-append front ((id, e) ∷ back),
          )))
      (λ _. find_recent next id e front back r.2)

-- The ids after some more jobs were sent.
unfoldable pub assign_all : List Bytes → JobIds → JobIds
assign_all [] s = s
assign_all (e ∷ later) s = assign_all later (assign_job_id e s).1

assign_all-finds :
    (later : List Bytes) (k id : ℕ) (e : Bytes) (s : JobIds)
    → IsValid s
    → k + length later < 16
    → IsAt k (id, e) s.job_ids
    → engine_job_id (assign_all later s) id ≡ some e
unfolding assign_all engine_job_id
assign_all-finds [] k id e s v h (front, back, split, len) =
    ap (find_id id) split
    ∙ find_recent s.next_job_id id e front back (subst (AreRecent s.next_job_id) split v.recent)
assign_all-finds (x ∷ later) k id e s v h at =
    assign_all-finds later (k + 1) id e (assign_job_id x s).1 (assign-IsValid x s v)
      (omega (arith, h)) (assign-IsAt k (id, e) x s v (omega (arith, h)) at)

assigned-IsAt :
    (e : Bytes) (s : JobIds) → IsValid s → IsAt 0 (s.next_job_id, e) (assign_job_id e s).1.job_ids
unfolding assign_job_id
assigned-IsAt e s v =
    let ids = s.job_ids ++ ((s.next_job_id, e) ∷ []) in
    let n = length ids - 16 in
    (
      drop n s.job_ids,
      [],
      trim-drop ids
          ∙ drop_front n s.job_ids ((s.next_job_id, e) ∷ [])
              (omega (arith, v.few, length-append s.job_ids ((s.next_job_id, e) ∷ []))),
      refl,
    )

-- Whatever jobs were sent before, and whether or not the 32-bit counter wrapped, an id given to a
-- job finds that job's own engine id as long as at most 15 jobs were sent after it.
pub assign-engine_job_id :
    (e : Bytes) (s : JobIds) (later : List Bytes)
    → IsValid s
    → length later ≤ 15
    → engine_job_id (assign_all later (assign_job_id e s).1) (assign_job_id e s).0 ≡ some e
unfolding assign_job_id
assign-engine_job_id e s later v h =
    assign_all-finds later 0 s.next_job_id e (assign_job_id e s).1 (assign-IsValid e s v)
      (omega (arith, h)) (assigned-IsAt e s v)

-- ===== src/Sv2/JobIds.antt =====
-- `assign_job_id` and `engine_job_id` of src/protocol/sv2/mod.rs: the ids of the jobs sent last.
pub mod Recent
use solo_pool_rs.Prelude.{
  ℕ, zero, suc, ◌+◌, ◌-◌, ◌%◌, ◌^◌, Option, none, some, List, [], ◌∷◌, ◌++◌, length, drop, ltb,
  ◌==◌, if◌then◌else◌,
}
use solo_pool_rs.Prelude.Bytes.{Bytes}

-- The fields `job_ids`, its oldest entry first, and `next_job_id`.
pub record JobIds : Type 0 where
  pub job_ids : List (ℕ × Bytes)
  pub next_job_id : ℕ

unfoldable pub new_ids : JobIds
new_ids = record { job_ids = []; next_job_id = 1 }

-- `wrapping_add(1)`, and 1 in place of 0.
unfoldable pub next_id : ℕ → ℕ
next_id id = let next = (id + 1) % 2 ^ 32 in if next == 0 then 1 else next

-- `while self.job_ids.len() > 16 { self.job_ids.pop_front(); }`.
unfoldable pub trim : List (ℕ × Bytes) → List (ℕ × Bytes)
trim [] = []
trim (entry ∷ ids) =
    let rest = trim ids in if ltb 16 (length (entry ∷ ids)) then rest else entry ∷ ids

unfoldable pub assign_job_id : Bytes → JobIds → ℕ × JobIds
unfolding next_id trim
assign_job_id engine_job_id s = (
  s.next_job_id,
  record {
    job_ids = trim (s.job_ids ++ ((s.next_job_id, engine_job_id) ∷ []));
    next_job_id = next_id s.next_job_id;
  },
)

-- `iter().find(|(j, _)| *j == sv2_job_id)`.
unfoldable pub find_id : ℕ → List (ℕ × Bytes) → Option Bytes
find_id sv2_job_id [] = none
find_id sv2_job_id ((j, s) ∷ ids) =
    let rest = find_id sv2_job_id ids in if j == sv2_job_id then some s else rest

unfoldable pub engine_job_id : JobIds → ℕ → Option Bytes
unfolding find_id
engine_job_id s sv2_job_id = find_id sv2_job_id s.job_ids

-- ===== src/Template/Merkle.antt =====
-- `compute_merkle_branch_raw`: the siblings on the path of the coinbase leaf.
pub mod Root
use solo_pool_rs.Prelude.{
  ℕ, zero, suc, ◌+◌, ◌-◌, ◌/◌, ◌%◌, ◌≡◌, Bool, Option, none, some, List, [], ◌∷◌, ◌++◌, map, length,
  get_elem?, ltb, ◌==◌, if◌then◌else◌,
}
use solo_pool_rs.Prelude.Bytes.{Bytes}
use solo_pool_rs.Template.Job.{double_sha256}

-- `*level.last()`, as a list of none or one.
last_of {ℓ} : {A : Type ℓ} → List A → List A
last_of [] = []
last_of (x ∷ []) = x ∷ []
last_of (x ∷ y ∷ xs) = last_of (y ∷ xs)

-- A level of odd length gets its last entry once more.
pad {ℓ} : {A : Type ℓ} → List A → List A
unfolding last_of
pad level = if length level % 2 == 0 then level else level ++ last_of level

-- `level[index]`: a sibling that is known, if there is one. The path index stays 0 and a level has
-- an even length here, so the index is in range.
known_at : List (Option Bytes) → ℕ → List Bytes
known_at level index = elim (get_elem? level index) [
  | none ↦ []
  | some entry ↦ elim entry [ none ↦ [] | some sibling ↦ sibling ∷ [] ]
]

sibling_of : ℕ → ℕ
sibling_of path_index = if path_index % 2 == 0 then path_index + 1 else path_index - 1

module _ (sha256 : Bytes → Bytes) where
  pair_hash : Option Bytes → Option Bytes → Option Bytes
  pair_hash none right = none
  pair_hash (some left) none = none
  pair_hash (some left) (some right) = some (double_sha256 sha256 (left ++ right))

  -- `level.chunks(2)`; a padded level has no odd chunk.
  next_level : List (Option Bytes) → List (Option Bytes)
  unfolding pair_hash
  next_level [] = []
  next_level (x ∷ []) = []
  next_level (x ∷ y ∷ rest) = pair_hash x y ∷ next_level rest

  -- The `while` loop; each round halves the level, so its length is fuel enough.
  branch_loop : ℕ → List (Option Bytes) → ℕ → List Bytes → List Bytes
  unfolding pad known_at sibling_of next_level
  branch_loop zero level path_index branch = branch
  branch_loop (suc fuel) level path_index branch =
      let padded = pad level in
      let rest =
        branch_loop fuel (next_level padded) (path_index / 2)
          (branch ++ known_at padded (sibling_of path_index)) in
      if ltb 1 (length level) then rest else branch

  unfoldable pub compute_merkle_branch_raw : List Bytes → List Bytes
  unfolding branch_loop
  compute_merkle_branch_raw [] = []
  compute_merkle_branch_raw (t ∷ ts) =
      let level = none ∷ map some (t ∷ ts) in branch_loop (length level) level 0 []

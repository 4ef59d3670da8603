-- ===== src/Template/Merkle/Root.antt =====
-- The branch leads from the coinbase to the root of the block's merkle tree.
use solo_pool_rs.Prelude.{
  ℕ, zero, suc, ◌≤◌, ◌≡◌, refl, ap, ◌∙◌, none, some, List, [], ◌∷◌, ◌++◌, map, length, arith,
  lt→ltb, length-map,
}
use solo_pool_rs.Prelude.Bytes.{Bytes}
use solo_pool_rs.Template.Job.{StratumJob, double_sha256, fold_branch, merkle_root}
use solo_pool_rs.Template.Merkle.{
  last_of, pad, next_level, branch_loop, known_at, compute_merkle_branch_raw,
}

module _ (sha256 : Bytes → Bytes) where
  -- Bitcoin's merkle tree, one level up: neighbours are hashed together, an odd last one with itself.
  abbrev pub parents : List Bytes → List Bytes
  parents [] = []
  parents (a ∷ []) = double_sha256 sha256 (a ++ a) ∷ []
  parents (a ∷ b ∷ rest) = double_sha256 sha256 (a ++ b) ∷ parents rest

  -- The root is what is left when one hash is.
  pub data MerkleRoot : List Bytes → Bytes → Type 0 where
    single : (root : Bytes) → MerkleRoot (root ∷ []) root
    level :
        {root a b : Bytes} {rest : List Bytes}
        → MerkleRoot (double_sha256 sha256 (a ++ b) ∷ parents rest) root
        → MerkleRoot (a ∷ b ∷ rest) root

  pad_pair : {A : Type 0} (x y : A) (zs : List A) → pad (x ∷ y ∷ zs) ≡ x ∷ y ∷ pad zs
  unfolding pad
  pad_pair x y [] = refl
  pad_pair x y (z ∷ zs) = ground (arith)

  last_of-map : (xs : List Bytes) → last_of (map some xs) ≡ map some (last_of xs)
  unfolding last_of
  last_of-map [] = refl
  last_of-map (x ∷ []) = refl
  last_of-map (x ∷ y ∷ xs) = last_of-map (y ∷ xs)

  -- Hashing a padded level of known hashes gives the parents.
  next_level-pad : (ts : List Bytes) → next_level sha256 (pad (map some ts)) ≡ map some (parents ts)
  unfolding next_level
  next_level-pad [] = unfold pad in refl
  next_level-pad (a ∷ []) = unfold pad in refl
  next_level-pad (a ∷ b ∷ ts) =
      ap (next_level sha256) (pad_pair (some a) (some b) (map some ts))
      ∙ ap (◌∷◌ (some (double_sha256 sha256 (a ++ b)))) (next_level-pad ts)

  length-parents : (ts : List Bytes) → length (parents ts) ≤ length ts
  length-parents [] = omega arith
  length-parents (a ∷ []) = omega arith
  length-parents (a ∷ b ∷ ts) = omega (arith, length-parents ts)

  fold_branch-append :
      (h : Bytes) (xs ys : List Bytes)
      → fold_branch sha256 h (xs ++ ys) ≡ fold_branch sha256 (fold_branch sha256 h xs) ys
  unfolding fold_branch
  fold_branch-append h [] ys = refl
  fold_branch-append h (x ∷ xs) ys = fold_branch-append (double_sha256 sha256 (h ++ x)) xs ys

  -- One round of the loop on a level whose first entry is the unknown one.
  branch_loop_step :
      (fuel : ℕ) (t : Bytes) (us branch : List Bytes)
      → branch_loop sha256 (suc fuel) (none ∷ map some (t ∷ us)) 0 branch
        ≡ branch_loop sha256 fuel (none ∷ map some (parents us)) 0 (branch ++ (t ∷ []))
  unfolding branch_loop
  branch_loop_step fuel t us branch =
      rw (lt→ltb 1 (suc (suc (length (map (λ (x : Bytes). some x) us)))) (omega arith)) (
        ap (λ p. branch_loop sha256 fuel (next_level sha256 p) 0 (branch ++ known_at p 1))
          (pad_pair none (some t) (map some us))
        ∙ ap (λ l. branch_loop sha256 fuel (none ∷ l) 0 (branch ++ (t ∷ []))) (next_level-pad us))

  branch_loop_done :
      (fuel : ℕ) (branch : List Bytes) → branch_loop sha256 fuel (none ∷ []) 0 branch ≡ branch
  unfolding branch_loop
  branch_loop_done zero branch = refl
  branch_loop_done (suc fuel) branch = refl

  branch_loop-MerkleRoot :
      (fuel : ℕ) (h : Bytes) (ts branch : List Bytes)
      → length ts ≤ fuel
      → MerkleRoot
          (fold_branch sha256 h branch ∷ ts)
          (fold_branch sha256 h (branch_loop sha256 fuel (none ∷ map some ts) 0 branch))
  unfolding double_sha256 fold_branch
  branch_loop-MerkleRoot fuel h [] branch enough =
      rw (branch_loop_done fuel branch) (single (fold_branch sha256 h branch))
  branch_loop-MerkleRoot zero h (t ∷ us) branch enough = absurd (omega arith)
  branch_loop-MerkleRoot (suc fuel) h (t ∷ us) branch enough =
      rw (branch_loop_step fuel t us branch) (
        level (
          rw (fold_branch-append h branch (t ∷ [])) at (
            branch_loop-MerkleRoot fuel h (parents us) (branch ++ (t ∷ []))
              (omega (arith, length-parents us)))))

  -- For every coinbase and every list of transaction ids, hashing the coinbase along the computed
  -- branch gives the root of the merkle tree over the coinbase id and those ids.
  pub branch-MerkleRoot :
      (h : Bytes) (txids : List Bytes)
      → MerkleRoot (h ∷ txids) (fold_branch sha256 h (compute_merkle_branch_raw sha256 txids))
  unfolding compute_merkle_branch_raw fold_branch
  branch-MerkleRoot h [] = single h
  branch-MerkleRoot h (t ∷ ts) =
      branch_loop-MerkleRoot (length (none ∷ map (λ (x : Bytes). some x) (t ∷ ts))) h (t ∷ ts) []
        (omega (arith, length-map ts (λ (x : Bytes). some x)))

  -- For a job that carries the branch of a list of transaction ids, `merkle_root` of a coinbase is the
  -- root of the merkle tree whose leaves are the coinbase's id and then those ids, whatever coinbase a
  -- share completes. A level of odd length takes its last node twice.
  pub merkle_root-MerkleRoot :
      (job : StratumJob) (coinbase : Bytes) (txids : List Bytes)
      → job.merkle_branch_raw ≡ compute_merkle_branch_raw sha256 txids
      → MerkleRoot (double_sha256 sha256 coinbase ∷ txids) (merkle_root sha256 job coinbase)
  unfolding merkle_root
  merkle_root-MerkleRoot job coinbase txids e =
      rw e (branch-MerkleRoot (double_sha256 sha256 coinbase) txids)

-- ===== src/Template/Build/Split.antt =====
-- What `build_job` guarantees of a job that it returns.
use solo_pool_rs.Prelude.{
  ℕ, zero, suc, ◌+◌, ◌≤◌, ◌≡◌, refl, ap, ◌∙◌, sym, List, [], ◌∷◌, ◌++◌, length, take, drop, arith,
  take-append-drop, length-take, length-drop,
}
use solo_pool_rs.Prelude.Bytes.{Bytes}
use solo_pool_rs.Error.{ok, Safe, Safe->>=, NoPanic, Safe-known}
use solo_pool_rs.Template.PrevHash.{Hex, stratum_prev_hash}
use solo_pool_rs.Template.Coinbase.{BitcoinCrate, build_coinbase}
use solo_pool_rs.Template.Coinbase.Sentinel.{EmbedsScript, HasRegion, build_coinbase-Safe}
use solo_pool_rs.Template.Merkle.{compute_merkle_branch_raw}
use solo_pool_rs.Template.Target.{bits_to_target}
use solo_pool_rs.Template.Job.{StratumJob}
use solo_pool_rs.Template.Job.Splice.{IsSplit}
use solo_pool_rs.Template.Build.{
  GbtTransaction, GbtResult, txid_bytes, all_txids, slice_from, build_job,
}

drop-nil : (n : ℕ) → drop {A = ℕ} n [] ≡ []
drop-nil zero = refl
drop-nil (suc n) = refl

drop-drop : (n m : ℕ) (xs : Bytes) → drop m (drop n xs) ≡ drop (n + m) xs
drop-drop zero m xs = ap (λ k. drop k xs) (omega arith)
drop-drop (suc n) m [] = drop-nil m ∙ sym (drop-nil (suc n + m))
drop-drop (suc n) m (x ∷ xs) = drop-drop n m xs ∙ ap (λ k. drop k (x ∷ xs)) (suc_out n)
  where
    suc_out : (k : ℕ) → suc (k + m) ≡ suc k + m
    suc_out k = omega arith

three_parts :
    (off n : ℕ) (b c2 : Bytes)
    → c2 ≡ drop (off + n) b
    → b ≡ take off b ++ (take n (drop off b) ++ c2)
three_parts off n b c2 cut =
    sym (take-append-drop off b)
    ∙ ap (◌++◌ (take off b)) (
        sym (take-append-drop n (drop off b))
        ∙ ap (◌++◌ (take n (drop off b))) (drop-drop off n b ∙ sym cut))

bits_to_target-NoPanic : (bits : Bytes) → NoPanic (bits_to_target bits)
unfolding bits_to_target
bits_to_target-NoPanic bits = ground arith

stratum_prev_hash-NoPanic : (hex : Hex) (h : Bytes) → NoPanic (stratum_prev_hash hex h)
unfolding stratum_prev_hash
stratum_prev_hash-NoPanic hex h = ground arith

module _ (sha256 : Bytes → Bytes) (hex : Hex) (bitcoin : BitcoinCrate) where
  -- The job carries the template's facts: its parts around a region of the asked width, the branch
  -- of the transactions' ids, the previous hash in Stratum order and the target of its bits.
  pub record IsBuilt (gbt : GbtResult) (len1 len2 : ℕ) (job : StratumJob) : Type 0 where
    pub split : IsSplit job
    pub lengths : (job.extranonce1_len ≡ len1) × (job.extranonce2_len ≡ len2)
    pub txids : List Bytes
    pub decoded : all_txids sha256 hex bitcoin gbt.transactions ≡ ok txids
    pub branch : job.merkle_branch_raw ≡ compute_merkle_branch_raw sha256 txids
    pub prev : stratum_prev_hash hex gbt.prev_hash ≡ ok job.prev_hash
    pub target : bits_to_target gbt.bits ≡ ok job.network_target
    pub same_bits : job.bits ≡ gbt.bits
    pub times : (job.min_time ≡ gbt.min_time) × (job.cur_time ≡ gbt.cur_time)

  txid_bytes-NoPanic : (tx : GbtTransaction) → NoPanic (txid_bytes sha256 hex bitcoin tx)
  unfolding txid_bytes
  txid_bytes-NoPanic tx = ground arith

  all_txids-NoPanic : (txs : List GbtTransaction) → NoPanic (all_txids sha256 hex bitcoin txs)
  unfolding all_txids
  all_txids-NoPanic [] = tt
  all_txids-NoPanic (tx ∷ txs) =
      Safe->>= (λ _. Unit {0}) (λ _. Unit {0}) (txid_bytes sha256 hex bitcoin tx) _
        (txid_bytes-NoPanic tx)
        (λ id _.
          Safe->>= (λ _. Unit {0}) (λ _. Unit {0}) (all_txids sha256 hex bitcoin txs) _
            (all_txids-NoPanic txs) (λ ids _. tt))

  module _ (laws : EmbedsScript bitcoin) where
    -- `build_job` never panics, whatever the node answers, if the serializer writes the scriptSig into
    -- its transaction as it is. Every job that it returns is the template's: its parts around a region
    -- of the asked width, the branch of the transactions' ids, the previous hash in Stratum order and
    -- the target, bits and times of the template.
    pub build_job-IsBuilt :
        (job_id : Bytes) (gbt : GbtResult) (address tag : Bytes) (len1 len2 : ℕ)
        → Safe
            (IsBuilt gbt len1 len2)
            (build_job sha256 hex bitcoin job_id gbt address tag len1 len2)
    unfolding build_job
    build_job-IsBuilt job_id gbt address tag len1 len2 =
        Safe->>= (HasRegion hex bitcoin laws (len1 + len2)) Built
          (build_coinbase hex bitcoin gbt.height gbt.coinbase_value address tag len1 len2
            gbt.default_witness_commitment)
          _
          (build_coinbase-Safe hex bitcoin laws gbt.height gbt.coinbase_value address tag len1 len2
            gbt.default_witness_commitment)
          (λ r region.
            Safe->>= (λ c2. c2 ≡ drop (r.1 + (len1 + len2)) r.0) Built
              (slice_from sha256 hex bitcoin (r.1 + (len1 + len2)) r.0) _
              (slice (r.1 + (len1 + len2)) r.0 region)
              (λ c2 cut.
                Safe->>= (λ ids. all_txids sha256 hex bitcoin gbt.transactions ≡ ok ids) Built
                  (all_txids sha256 hex bitcoin gbt.transactions) _
                  (Safe-known (all_txids sha256 hex bitcoin gbt.transactions)
                    (all_txids-NoPanic gbt.transactions))
                  (λ ids decoded.
                    Safe->>= (λ p. stratum_prev_hash hex gbt.prev_hash ≡ ok p) Built
                      (stratum_prev_hash hex gbt.prev_hash) _
                      (Safe-known (stratum_prev_hash hex gbt.prev_hash)
                        (stratum_prev_hash-NoPanic hex gbt.prev_hash))
                      (λ p prev.
                        Safe->>= (λ t. bits_to_target gbt.bits ≡ ok t) Built
                          (bits_to_target gbt.bits) _
                          (Safe-known (bits_to_target gbt.bits) (bits_to_target-NoPanic gbt.bits))
                          (λ t target. record {
                            split = record {
                              reserved = take (len1 + len2) (drop r.1 r.0);
                              template = three_parts r.1 (len1 + len2) r.0 c2 cut;
                              offset = omega (arith, length-take r.1 r.0);
                              width = omega (
                                arith,
                                length-take (len1 + len2) (drop r.1 r.0),
                                length-drop r.1 r.0,
                              );
                            };
                            lengths = (refl, refl);
                            txids = ids;
                            decoded = decoded;
                            branch = refl;
                            prev = prev;
                            target = target;
                            same_bits = refl;
                            times = (refl, refl);
                          })))))
      where
        Built : StratumJob → Type 0
        Built = IsBuilt gbt len1 len2

        slice :
            (n : ℕ) (b : Bytes)
            → n ≤ length b
            → Safe (λ c. c ≡ drop n b) (slice_from sha256 hex bitcoin n b)
        slice n b h = unfold slice_from in ground arith

-- ===== src/Validator/Sound.antt =====
-- From the node's template to an accepted share: what the hashed header commits to.
use solo_pool_rs.Prelude.{
  ℕ, ◌+◌, ◌-◌, ◌^◌, ◌≤◌, ◌≡◌, ◌∙◌, ap, sym, false, some, List, [], ◌∷◌, ◌++◌, length, reverse,
  arith, min, Bool-cases, Option-cases, inl, inr,
}
use solo_pool_rs.Prelude.Bytes.{Bytes}
use solo_pool_rs.Prelude.Words.{u32_from_hex}
use solo_pool_rs.Error.{ok, ◌>>=◌, >>=-eq-ok}
use solo_pool_rs.Template.Job.{
  StratumJob, double_sha256, fold_branch, merkle_root, assemble_coinbase,
}
use solo_pool_rs.Template.Job.Splice.{IsSplit, assemble_coinbase_lem}
use solo_pool_rs.Template.Merkle.Root.{MerkleRoot, merkle_root-MerkleRoot}
use solo_pool_rs.Template.PrevHash.{Hex, stratum_prev_hash}
use solo_pool_rs.Template.PrevHash.Swap.{HexLaws}
use solo_pool_rs.Template.Coinbase.{BitcoinCrate}
use solo_pool_rs.Template.Build.{GbtResult, all_txids}
use solo_pool_rs.Template.Build.Split.{IsBuilt}
use solo_pool_rs.Validator.{
  ShareParams, ShareResult, JobEntry, hash, judge, check_ntime, resolve_version, share_header,
  build_header, validate_share_no_dedup,
}
use solo_pool_rs.Validator.Version.{check_ntime_lem}
use solo_pool_rs.Validator.Header.{HasFields, build_header_lem}
use solo_pool_rs.Validator.Verdict.{Sha256Laws}

stratum_prev_hash-decodes :
    (hex : Hex) (core_hex p : Bytes)
    → stratum_prev_hash hex core_hex ≡ ok p
    → (b : Bytes) × (hex.decode core_hex ≡ some b)
unfolding stratum_prev_hash
stratum_prev_hash-decodes hex core_hex p e = elim (Option-cases (hex.decode core_hex)) [
  | inl absent ↦ absurd (ground (arith, absent))
  | inr (b, present) ↦ (b, present)
]

build_header-reads_bits :
    (hex : Hex) (version : ℕ) (p root : Bytes) (ntime : ℕ) (bits_hex : Bytes) (nonce : ℕ)
    (header : Bytes)
    → build_header hex version p root ntime bits_hex nonce ≡ ok header
    → (bits : ℕ) × (u32_from_hex bits_hex ≡ some bits)
unfolding build_header
build_header-reads_bits hex version p root ntime bits_hex nonce header e =
    elim (Option-cases (u32_from_hex bits_hex)) [
      | inl absent ↦ absurd (ground (arith, absent))
      | inr (bits, present) ↦ (bits, present)
    ]

check_ntime-ok :
    (ntime min_time cur_time : ℕ)
    → check_ntime ntime min_time cur_time ≡ ok tt
    → (min_time ≤ ntime) × (ntime ≤ min (cur_time + 7200) (2 ^ 32 - 1))
check_ntime-ok ntime min_time cur_time e = elim (check_ntime_lem ntime min_time cur_time) [
  | inl (lo, hi, _) ↦ (lo, hi)
  | inr (_, refused) ↦ absurd (cc)
]

carried :
    (params : ShareParams) (job : StratumJob) (extranonce1 coinbase : Bytes)
    → IsSplit job
    → assemble_coinbase job extranonce1 params.extranonce2 ≡ ok coinbase
    → length extranonce1 + length params.extranonce2 ≡ job.extranonce1_len + job.extranonce2_len
    → coinbase ≡ job.coinbase1 ++ (extranonce1 ++ (params.extranonce2 ++ job.coinbase2))
carried params job extranonce1 coinbase split e fits =
    ground (arith, assemble_coinbase_lem job extranonce1 params.extranonce2 split)

module _ (sha256 : Bytes → Bytes) (laws : Sha256Laws sha256) where
  length-fold_branch :
      (h : Bytes) (branch : List Bytes) → length h ≡ 32 → length (fold_branch sha256 h branch) ≡ 32
  unfolding fold_branch double_sha256
  length-fold_branch h [] e = e
  length-fold_branch h (x ∷ branch) e =
      length-fold_branch (sha256 (sha256 (h ++ x))) branch (laws.digest (sha256 (h ++ x))).0

  pub length-merkle_root : (job : StratumJob) (cb : Bytes) → length (merkle_root sha256 job cb) ≡ 32
  unfolding merkle_root double_sha256
  length-merkle_root job cb =
      length-fold_branch (sha256 (sha256 cb)) job.merkle_branch_raw (laws.digest (sha256 cb)).0

module _ (sha256 : Bytes → Bytes) (laws : Sha256Laws sha256) (hex : Hex) (hex_laws : HexLaws hex)
    (bitcoin : BitcoinCrate) where
  -- What stands behind an accepted share.
  pub record IsAccepted (gbt : GbtResult) (job : StratumJob) (params : ShareParams)
      (extranonce1 : Bytes) (result : ShareResult) : Type 0 where
    pub header : Bytes
    pub coinbase : Bytes
    pub root : Bytes
    pub prev : Bytes
    pub txids : List Bytes
    pub version : ℕ
    pub bits : ℕ
    pub hashed : hash result ≡ double_sha256 sha256 header
    pub fields : HasFields version (reverse prev) root params.ntime bits params.nonce header
    pub width : length header ≡ 80
    pub on_tip : hex.decode gbt.prev_hash ≡ some prev
    pub same_bits : u32_from_hex gbt.bits ≡ some bits
    pub rolled :
        resolve_version job.version params.version_bits params.version_rolling_mask ≡ ok version
    pub ids : all_txids sha256 hex bitcoin gbt.transactions ≡ ok txids
    pub commits : MerkleRoot sha256 (double_sha256 sha256 coinbase ∷ txids) root
    pub carries :
        length extranonce1 + length params.extranonce2 ≡ job.extranonce1_len + job.extranonce2_len
        → coinbase ≡ job.coinbase1 ++ (extranonce1 ++ (params.extranonce2 ++ job.coinbase2))
    pub on_time :
        (gbt.min_time ≤ params.ntime) × (params.ntime ≤ min (gbt.cur_time + 7200) (2 ^ 32 - 1))

  judge-hash :
      (header coinbase : Bytes) (job : StratumJob) (d : ℕ) (r : ShareResult)
      → judge sha256 hex header coinbase job d ≡ ok r
      → hash r ≡ double_sha256 sha256 header
  unfolding judge hash
  judge-hash header coinbase job d r e = ground arith

  -- What `share_header` went through.
  record IsMade (params : ShareParams) (job : StratumJob) (extranonce1 header coinbase : Bytes)
      : Type 0 where
    version : ℕ
    assembled : assemble_coinbase job extranonce1 params.extranonce2 ≡ ok coinbase
    resolved :
        resolve_version job.version params.version_bits params.version_rolling_mask ≡ ok version
    built :
        build_header hex version job.prev_hash
          (merkle_root sha256 job coinbase)
          params.ntime
          job.bits
          params.nonce
        ≡ ok header

  share_header-IsMade :
      (params : ShareParams) (job : StratumJob) (extranonce1 header coinbase : Bytes)
      → share_header sha256 hex params job extranonce1 ≡ ok (header, coinbase)
      → IsMade params job extranonce1 header coinbase
  unfolding share_header
  share_header-IsMade params job extranonce1 header coinbase e =
      let (cb, assembled, e1) =
        >>=-eq-ok (assemble_coinbase job extranonce1 params.extranonce2) _ (header, coinbase) e in
      let (v, resolved, e2) =
        >>=-eq-ok (resolve_version job.version params.version_bits params.version_rolling_mask) _
          (header, coinbase) e1 in
      let (hd, built, e3) =
        >>=-eq-ok
          (build_header hex v job.prev_hash (merkle_root sha256 job cb) params.ntime job.bits
            params.nonce)
          _ (header, coinbase) e2 in
      let same_coinbase : cb ≡ coinbase = cc in
      let same_header : hd ≡ header = cc in
      record {
        version = v;
        assembled = assembled ∙ ap ok same_coinbase;
        resolved = resolved;
        built =
            ap
              (λ c.
                build_header hex v job.prev_hash (merkle_root sha256 job c) params.ntime job.bits
                  params.nonce)
              (sym same_coinbase)
            ∙ built
            ∙ ap ok same_header;
      }

  made-IsAccepted :
      (gbt : GbtResult) (len1 len2 : ℕ) (job : StratumJob) (params : ShareParams)
      (extranonce1 header coinbase : Bytes) (result : ShareResult)
      → IsBuilt sha256 hex bitcoin gbt len1 len2 job
      → IsMade params job extranonce1 header coinbase
      → check_ntime params.ntime job.min_time job.cur_time ≡ ok tt
      → hash result ≡ double_sha256 sha256 header
      → IsAccepted gbt job params extranonce1 result
  made-IsAccepted gbt len1 len2 job params extranonce1 header coinbase result from made time
        hashed =
      let (prev, tip) = stratum_prev_hash-decodes hex gbt.prev_hash job.prev_hash from.prev in
      let root = merkle_root sha256 job coinbase in
      let (bits, job_bits) =
        build_header-reads_bits hex made.version job.prev_hash root params.ntime job.bits
          params.nonce header made.built in
      let (hd, built, fields, width) =
        build_header_lem hex hex_laws made.version gbt.prev_hash job.prev_hash prev root
          params.ntime job.bits bits params.nonce tip from.prev job_bits
          (length-merkle_root sha256 laws job coinbase) in
      let same : hd ≡ header = cc in
      record {
        header = header;
        coinbase = coinbase;
        root = root;
        prev = prev;
        txids = from.txids;
        version = made.version;
        bits = bits;
        hashed = hashed;
        fields = sym same ∙ fields;
        width = ap length (sym same) ∙ width;
        on_tip = tip;
        same_bits = ap u32_from_hex (sym from.same_bits) ∙ job_bits;
        rolled = made.resolved;
        ids = from.decoded;
        commits = merkle_root-MerkleRoot sha256 job coinbase from.txids from.branch;
        carries = carried params job extranonce1 coinbase from.split made.assembled;
        on_time =
            let t = check_ntime-ok params.ntime job.min_time job.cur_time time in
            omega (arith, t.0, t.1, from.times);
      }

  -- Every share that `validate_share_no_dedup` accepts, as a valid share or as a block, on a job
  -- that `build_job` made from a template, is for a job that no clean job superseded; and its hash
  -- is that of an 80-byte header whose previous hash is the template's, whose merkle root is that of
  -- the share's coinbase and the template's transactions, whose bits are the template's, whose
  -- version is the one resolved, whose nonce and time are the share's, and whose time is in the
  -- window. If the extranonce has the reserved width, the coinbase is the job's two parts round it.
  pub validate-IsAccepted :
      (gbt : GbtResult) (len1 len2 : ℕ) (params : ShareParams) (job : StratumJob)
      (job_entry : JobEntry) (extranonce1 : Bytes) (difficulty : ℕ) (result : ShareResult)
      → IsBuilt sha256 hex bitcoin gbt len1 len2 job
      → validate_share_no_dedup sha256 hex params job job_entry extranonce1 difficulty ≡ ok result
      → (job_entry.superseded_by_clean ≡ false) × IsAccepted gbt job params extranonce1 result
  unfolding validate_share_no_dedup
  validate-IsAccepted gbt len1 len2 params job job_entry extranonce1 difficulty result from e =
      elim (Bool-cases job_entry.superseded_by_clean) [
        | inl stale ↦ absurd (ground (arith, stale))
        | inr live ↦ (live, accepted (rw live at e))
      ]
    where
      accepted :
          (check_ntime params.ntime job.min_time job.cur_time >>= λ _.
          share_header sha256 hex params job extranonce1 >>= λ r.
          judge sha256 hex r.0 r.1 job difficulty)
            ≡ ok result
          → IsAccepted gbt job params extranonce1 result
      accepted f =
          let (u, time, f1) =
            >>=-eq-ok (check_ntime params.ntime job.min_time job.cur_time) _ result f in
          let (r, shares_header, f2) =
            >>=-eq-ok (share_header sha256 hex params job extranonce1) _ result f1 in
          made-IsAccepted gbt len1 len2 job params extranonce1 r.0 r.1 result from
            (share_header-IsMade params job extranonce1 r.0 r.1 shares_header) time
            (judge-hash r.0 r.1 job difficulty result f2)

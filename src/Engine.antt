-- ===== src/Engine.antt =====
-- src/mining/engine.rs: the current job, the history of jobs and the submission of a found block.
-- `JobEntry` is in the validator's module, which reads it.
pub mod Tip
pub mod Submission
use solo_pool_rs.Prelude.{
  ℕ, zero, suc, ◌+◌, Bool, true, false, ◌||◌, not, Option, none, some, List, [], ◌∷◌, ◌++◌, length,
  any, ltb, leb, if◌then◌else◌,
}
use solo_pool_rs.Prelude.Bytes.{Bytes, bytes_eq}
use solo_pool_rs.Error.{
  Result, ok, err, panic, PoolError, submit_block_rejected, rpc, node_answered, other,
}
use solo_pool_rs.Template.Job.{StratumJob}
use solo_pool_rs.Template.PrevHash.{Hex}
use solo_pool_rs.Template.Coinbase.{BitcoinCrate}
use solo_pool_rs.Template.Build.{GbtResult, build_job}
use solo_pool_rs.Validator.{JobEntry}

abbrev pub job_history_depth : ℕ
job_history_depth = 8

abbrev pub submit_inline_attempts : ℕ
submit_inline_attempts = 3

unfoldable pub tip_moved : Option Bytes → Bytes → Bool
tip_moved none new_prev_hash = true
tip_moved (some current) new_prev_hash = not (bytes_eq current new_prev_hash)

pub record JobBroadcast : Type 0 where
  pub job : StratumJob
  pub clean : Bool

-- The mutable state of `TemplateEngine`; `sent` holds what went into the broadcast channel, in
-- order, and `failing` tells whether `last_template_error` is set.
pub record TemplateEngine : Type 0 where
  pub current_job : Option StratumJob
  pub job_history : List JobEntry
  pub last_template_ok : Option ℕ
  pub failing : Bool
  pub sent : List JobBroadcast

unfoldable pub new : TemplateEngine
new = record {
  current_job = none;
  job_history = [];
  last_template_ok = none;
  failing = false;
  sent = [];
}

-- `history.pop_front()` when it is full.
unfoldable pub make_room : List JobEntry → List JobEntry
make_room [] = []
make_room (e ∷ history) =
    if leb job_history_depth (length (e ∷ history)) then history else e ∷ history

abbrev pub current_prev_hash : TemplateEngine → Option Bytes
current_prev_hash engine = elim engine.current_job [ none ↦ none | some job ↦ some job.prev_hash ]

-- The part of `refresh` that follows a built job.
unfoldable pub install : Bool → StratumJob → ℕ → TemplateEngine → TemplateEngine
unfolding tip_moved make_room
install clean_jobs job now engine =
    let clean = clean_jobs || tip_moved (current_prev_hash engine) job.prev_hash in
    record {
      current_job = some job;
      job_history =
          make_room engine.job_history
          ++ (record { job = job; clean = clean; superseded_by_clean = false } ∷ []);
      last_template_ok = some now;
      failing = false;
      sent = engine.sent ++ (record { job = job; clean = clean } ∷ []);
    }

abbrev note_template_failure : TemplateEngine → TemplateEngine
note_template_failure engine = record engine { failing = true }

-- `history.iter().position(..)`, and whether a later entry is clean.
unfoldable pub find_entry : Bytes → List JobEntry → Option JobEntry
find_entry job_id [] = none
find_entry job_id (e ∷ history) =
    let later = find_entry job_id history in
    if bytes_eq e.job.job_id job_id
    then some (record e { superseded_by_clean = any (λ l. l.clean) history })
    else later

unfoldable pub find_job : Bytes → TemplateEngine → Option JobEntry
unfolding find_entry
find_job job_id engine = find_entry job_id engine.job_history

-- What one refresh meets: the payout address, if it is valid, the node's answer, the next job id,
-- and the clock.
pub record RefreshInput : Type 0 where
  pub clean_jobs : Bool
  pub coinbase_address : Option Bytes
  pub template : Result GbtResult
  pub job_id : Bytes
  pub now : ℕ

pub record PoolConfig : Type 0 where
  pub coinbase_tag : Bytes
  pub extranonce1_size : ℕ
  pub extranonce2_size : ℕ

module _ (sha256 : Bytes → Bytes) (hex : Hex) (bitcoin : BitcoinCrate) where
  -- `build_job`'s result, or the failure to get a template.
  built : PoolConfig → Bytes → RefreshInput → Result StratumJob
  built cfg address input = elim input.template [
    | ok gbt ↦
        build_job sha256 hex bitcoin input.job_id gbt address cfg.coinbase_tag cfg.extranonce1_size
          cfg.extranonce2_size
    | err e ↦ err e
    | panic ↦ panic
  ]

  -- A panic ends the engine's task; the state stays as it is.
  settle : RefreshInput → Result StratumJob → TemplateEngine → TemplateEngine
  unfolding install
  settle input (ok job) engine = install input.clean_jobs job input.now engine
  settle input (err e) engine = note_template_failure engine
  settle input panic engine = engine

  unfoldable pub refresh : PoolConfig → RefreshInput → TemplateEngine → TemplateEngine
  unfolding built settle
  refresh cfg input engine = elim input.coinbase_address [
    | none ↦ note_template_failure engine
    | some address ↦ settle input (built cfg address input) engine
  ]

  -- The refreshes of `run` and `force_refresh`, in order.
  unfoldable pub run : PoolConfig → List RefreshInput → TemplateEngine → TemplateEngine
  unfolding refresh
  run cfg [] engine = engine
  run cfg (input ∷ inputs) engine = run cfg inputs (refresh cfg input engine)

unfoldable pub is_permanent_reject : PoolError → Bool
is_permanent_reject submit_block_rejected = true
is_permanent_reject e = false

-- An attempt's answer; the task's panic is an error like any other.
unfoldable pub try_submit : Result (Unit {0}) → Result (Unit {0})
try_submit (ok tt) = ok tt
try_submit (err e) = err e
try_submit panic = err other

-- The outcome of `submit_found_block`: what it returns, how many submissions it made, whether the
-- archive was marked as submitted, and whether the background task was started.
pub record Submitted : Type 0 where
  pub returned : Result (Unit {0})
  pub attempts : ℕ
  pub marked : Bool
  pub resubmitting : Bool

-- The loop over the attempts that are left; `answers` is the node's answer to each attempt from 1.
unfoldable pub submit_loop : (ℕ → Result (Unit {0})) → ℕ → ℕ → Option PoolError → Submitted
unfolding is_permanent_reject try_submit
submit_loop answers zero attempt none = record {
  returned = err other;
  attempts = attempt;
  marked = false;
  resubmitting = true;
}
submit_loop answers zero attempt (some e) = record {
  returned = err e;
  attempts = attempt;
  marked = false;
  resubmitting = true;
}
submit_loop answers (suc left) attempt last_err = elim (try_submit (answers (attempt + 1))) [
  | ok _ ↦ record { returned = ok tt; attempts = attempt + 1; marked = true; resubmitting = false }
  | err e ↦
      (let rest = submit_loop answers left (attempt + 1) (some e) in
        if is_permanent_reject e
        then record {
          returned = err e;
          attempts = attempt + 1;
          marked = false;
          resubmitting = false;
        }
        else rest)
  | panic ↦ record {
    returned = panic;
    attempts = attempt + 1;
    marked = false;
    resubmitting = false;
  }
]

unfoldable pub submit_found_block : (ℕ → Result (Unit {0})) → Submitted
unfolding submit_loop
submit_found_block answers = submit_loop answers submit_inline_attempts 0 none

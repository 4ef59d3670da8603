-- ===== src/Engine/Tip.antt =====
-- Which jobs of the history a share may still be for.
use solo_pool_rs.Prelude.{
  ℕ, ◌≤◌, ◌<◌, ◌≡◌, ◌∙◌, ap, refl, sym, subst, Bool, true, false, ◌||◌, Option, none, some, List,
  [], ◌∷◌, ◌++◌, length, any, leb, arith, Bool-cases, Option-cases, inl, inr, length-append,
}
use solo_pool_rs.Prelude.Bytes.{Bytes, bytes_eq, eq_of_bytes_eq}
use solo_pool_rs.Error.{Result, ok, err, panic}
use solo_pool_rs.Template.Job.{StratumJob}
use solo_pool_rs.Template.PrevHash.{Hex}
use solo_pool_rs.Template.Coinbase.{BitcoinCrate}
use solo_pool_rs.Validator.{JobEntry}
use solo_pool_rs.Engine.{
  TemplateEngine, RefreshInput, PoolConfig, new, tip_moved, make_room, current_prev_hash, install,
  find_entry, find_job, settle, refresh, run, job_history_depth,
}

abbrev is_clean : JobEntry → Bool
is_clean e = e.clean

-- Every entry without a later clean one builds on `p`.
abbrev pub IsFresh : Bytes → List JobEntry → Type 0
IsFresh p [] = Unit {0}
IsFresh p (e ∷ history) = (any is_clean history ≡ false → e.job.prev_hash ≡ p) × IsFresh p history

-- A history goes with the current job; before the first job it is empty.
abbrev pub GoesWith : List JobEntry → Option StratumJob → Type 0
GoesWith history none = history ≡ []
GoesWith history (some job) = IsFresh job.prev_hash history

pub record IsValid (engine : TemplateEngine) : Type 0 where
  pub bounded : length engine.job_history ≤ job_history_depth
  pub fresh : GoesWith engine.job_history engine.current_job

any-append_one :
    (history : List JobEntry) (n : JobEntry)
    → any is_clean (history ++ (n ∷ [])) ≡ (any is_clean history || n.clean)
any-append_one [] n = ground arith
any-append_one (e ∷ history) n = ground (arith, any-append_one history n)

-- A clean job makes every earlier entry superseded.
append_clean :
    (p : Bytes) (history : List JobEntry) (n : JobEntry)
    → n.clean ≡ true
    → n.job.prev_hash ≡ p
    → IsFresh p (history ++ (n ∷ []))
append_clean p [] n c e = (λ _. e, tt)
append_clean p (x ∷ history) n c e =
    (λ h. absurd (ground (arith, any-append_one history n, c, h)), append_clean p history n c e)

-- Any other job keeps those that were fresh.
append_same :
    (p : Bytes) (history : List JobEntry) (n : JobEntry)
    → IsFresh p history
    → n.job.prev_hash ≡ p
    → IsFresh p (history ++ (n ∷ []))
append_same p [] n f e = (λ _. e, tt)
append_same p (x ∷ history) n f e =
    (λ h. f.0 (ground (arith, any-append_one history n, h)), append_same p history n f.1 e)

make_room-IsFresh :
    (p : Bytes) (history : List JobEntry) → IsFresh p history → IsFresh p (make_room history)
unfolding make_room
make_room-IsFresh p [] f = tt
make_room-IsFresh p (e ∷ history) f =
    elim (Bool-cases (leb job_history_depth (length (e ∷ history)))) [
      | inl full ↦ rw (full, make_room) f.1
      | inr room ↦ rw (room, make_room) f
    ]

length-make_room :
    (history : List JobEntry)
    → length history ≤ job_history_depth
    → length (make_room history) < job_history_depth
unfolding make_room
length-make_room [] h = omega arith
length-make_room (e ∷ history) h = ground arith

tip_same :
    (current : Option StratumJob) (p : Bytes)
    → tip_moved (elim current [ none ↦ none | some job ↦ some job.prev_hash ]) p ≡ false
    → (job : StratumJob) × (current ≡ some job) × (p ≡ job.prev_hash)
unfolding tip_moved
tip_same none p h = cc
tip_same (some job) p h = (job, refl, sym (eq_of_bytes_eq job.prev_hash p (ground (arith, h))))

install-IsValid :
    (clean_jobs : Bool) (job : StratumJob) (now : ℕ) (engine : TemplateEngine)
    → IsValid engine
    → IsValid (install clean_jobs job now engine)
unfolding install
install-IsValid clean_jobs job now engine v = record {
  bounded = omega (
    arith,
    length-append (make_room engine.job_history) _,
    length-make_room engine.job_history v.bounded,
  );
  fresh = elim (Bool-cases clean) [
    | inl yes_clean ↦ append_clean job.prev_hash (make_room engine.job_history) entry yes_clean refl
    | inr not_clean ↦
        (let (current, is_current, same) =
            tip_same engine.current_job job.prev_hash (ground (arith, not_clean)) in
          let fresh : IsFresh current.prev_hash engine.job_history =
            subst (GoesWith engine.job_history) is_current v.fresh in
          append_same job.prev_hash (make_room engine.job_history) entry
            (make_room-IsFresh job.prev_hash engine.job_history
              (subst (λ p. IsFresh p engine.job_history) (sym same) fresh))
            refl)
  ];
}
  where
    clean : Bool
    clean = clean_jobs || tip_moved (current_prev_hash engine) job.prev_hash

    entry : JobEntry
    entry = record { job = job; clean = clean; superseded_by_clean = false }

find_entry-IsFresh :
    (p job_id : Bytes) (history : List JobEntry) (e : JobEntry)
    → IsFresh p history
    → find_entry job_id history ≡ some e
    → e.superseded_by_clean ≡ false
    → (e.job.prev_hash ≡ p) × (e.job.job_id ≡ job_id)
unfolding find_entry
find_entry-IsFresh p job_id [] e f found fresh = cc
find_entry-IsFresh p job_id (x ∷ history) e f found fresh =
    elim (Bool-cases (bytes_eq x.job.job_id job_id)) [
      | inl here ↦
          (let same : record x { superseded_by_clean = any is_clean history } ≡ e =
              ground (arith, here, found) in
            (
              ap (λ y. y.job.prev_hash) (sym same)
                  ∙ f.0 (ap (λ y. y.superseded_by_clean) same ∙ fresh),
              ap (λ y. y.job.job_id) (sym same) ∙ eq_of_bytes_eq x.job.job_id job_id here,
            ))
      | inr elsewhere ↦
          find_entry-IsFresh p job_id history e f.1 (ground (arith, elsewhere, found)) fresh
    ]

find_entry_empty :
    (job_id : Bytes) (history : List JobEntry) (e : JobEntry)
    → history ≡ []
    → ¬ (find_entry job_id history ≡ some e)
unfolding find_entry
find_entry_empty job_id [] e empty found = cc
find_entry_empty job_id (x ∷ history) e empty found = cc

-- The engine starts in a valid state.
pub initial-IsValid : IsValid new
unfolding new
initial-IsValid = record { bounded = omega arith; fresh = refl }

module _ (sha256 : Bytes → Bytes) (hex : Hex) (bitcoin : BitcoinCrate) where
  settle-IsValid :
      (input : RefreshInput) (r : Result StratumJob) (engine : TemplateEngine)
      → IsValid engine
      → IsValid (settle sha256 hex bitcoin input r engine)
  unfolding settle
  settle-IsValid input (ok job) engine v = install-IsValid input.clean_jobs job input.now engine v
  settle-IsValid input (err e) engine v = record { bounded = v.bounded; fresh = v.fresh }
  settle-IsValid input panic engine v = v

  refresh-IsValid :
      (cfg : PoolConfig) (input : RefreshInput) (engine : TemplateEngine)
      → IsValid engine
      → IsValid (refresh sha256 hex bitcoin cfg input engine)
  unfolding refresh
  refresh-IsValid cfg input engine v = elim (Option-cases input.coinbase_address) [
    | inl paused ↦ rw (paused, refresh) (record { bounded = v.bounded; fresh = v.fresh })
    | inr (address, valid_address) ↦ rw (valid_address, refresh) (settle-IsValid input _ engine v)
  ]

  -- After any run of refreshes of an engine in a valid state, whatever the node and the clock do,
  -- the history holds at most eight jobs, and every job in it that no later clean job supersedes
  -- has the current job's previous hash.
  pub run-IsValid :
      (cfg : PoolConfig) (inputs : List RefreshInput) (engine : TemplateEngine)
      → IsValid engine
      → IsValid (run sha256 hex bitcoin cfg inputs engine)
  unfolding run
  run-IsValid cfg [] engine v = v
  run-IsValid cfg (input ∷ inputs) engine v =
      run-IsValid cfg inputs (refresh sha256 hex bitcoin cfg input engine)
        (refresh-IsValid cfg input engine v)

  -- After any run of refreshes since the start, a job that `find_job` returns as not superseded is
  -- the one asked for and builds on the block that the current job builds on.
  pub find_job_on_tip :
      (cfg : PoolConfig) (inputs : List RefreshInput) (job_id : Bytes) (e : JobEntry)
      → find_job job_id (run sha256 hex bitcoin cfg inputs new) ≡ some e
      → e.superseded_by_clean ≡ false
      → (e.job.job_id ≡ job_id)
        × ((current : StratumJob) × ((run sha256 hex bitcoin cfg inputs new).current_job
              ≡ some current)
            × (e.job.prev_hash ≡ current.prev_hash))
  unfolding find_job
  find_job_on_tip cfg inputs job_id e found fresh =
      let engine = run sha256 hex bitcoin cfg inputs new in
      let v = run-IsValid cfg inputs new initial-IsValid in
      elim (Option-cases engine.current_job) [
        | inl none_yet ↦
            (let empty : engine.job_history ≡ [] =
                subst (GoesWith engine.job_history) none_yet v.fresh in
              absurd (find_entry_empty job_id engine.job_history e empty found))
        | inr (current, is_current) ↦
            (let (tip, same_id) =
                find_entry-IsFresh current.prev_hash job_id engine.job_history e
                  (subst (GoesWith engine.job_history) is_current v.fresh) found fresh in
              (same_id, (current, is_current, tip)))
      ]

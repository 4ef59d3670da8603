-- ===== src/Session/Invariant/Start.antt =====
-- A session from its start to its end.
use solo_pool_rs.Prelude.{ℕ, ◌≤◌, ◌≡◌, ◌≢◌, refl, false, Option, none, some, List, arith}
use solo_pool_rs.Prelude.Bytes.{Bytes}
use solo_pool_rs.Template.Job.{StratumJob}
use solo_pool_rs.Template.PrevHash.{Hex}
use solo_pool_rs.Validator.Shares.Invariant as SharesInvariant
use solo_pool_rs.Security.Guard.{SecurityConfig, new_guard}
use solo_pool_rs.Security.ShareRate.{ShareRateLimiter}
use solo_pool_rs.Vardiff as Vardiff
use solo_pool_rs.Vardiff.{F64, VardiffConfig}
use solo_pool_rs.Sv1.Json.{Json}
use solo_pool_rs.Session.State.{Session, new}
use solo_pool_rs.Session.Events.{Event, panicked, start, run}
use solo_pool_rs.Session.Invariant.{IsValid, HasBand}
use solo_pool_rs.Session.Invariant.Run.{run-IsValid}
use solo_pool_rs.Session.Told.Run.{Informed, start-Informed, run-Informed}

module _ (f : F64) where
  pub new-IsValid :
      (session_id extranonce1 : Bytes) (extranonce2_size initial_diff : ℕ) (cfg : VardiffConfig f)
      (security : SecurityConfig) (share_rate : ShareRateLimiter f) (now later : ℕ)
      → cfg.min_difficulty ≤ initial_diff
      → initial_diff ≤ cfg.max_difficulty
      → HasBand f cfg
      → IsValid f (
          new f session_id extranonce1 extranonce2_size initial_diff cfg
            (new_guard security)
            share_rate
            now
            later)
  unfolding new Vardiff.new
  new-IsValid session_id extranonce1 extranonce2_size initial_diff cfg security share_rate now later
        low high band =
      record {
        set_up = λ e. cc;
        named = tt;
        sound = record {
          narrowed = (omega arith, λ n lt. omega arith);
          rolling = λ e. cc;
          range = record {
            current_low = low;
            current_high = high;
            previous_low = low;
            previous_high = high;
          };
          band = band;
          assigned = refl;
          same_cfg = refl;
          deduplicates = SharesInvariant.new-IsValid;
        };
      }

  pub new-unauthorized :
      (session_id extranonce1 : Bytes) (extranonce2_size initial_diff : ℕ) (cfg : VardiffConfig f)
      (security : SecurityConfig) (share_rate : ShareRateLimiter f) (now later : ℕ)
      → (new f session_id extranonce1 extranonce2_size initial_diff cfg
          (new_guard security)
          share_rate
          now
          later).authorized
        ≡ false
  unfolding new
  new-unauthorized session_id extranonce1 extranonce2_size initial_diff cfg security share_rate now
        later =
      refl

  pub start-IsValid :
      (json : Json f) (job : Option StratumJob) (s : Session f)
      → IsValid f s
      → IsValid f (start f json job s).session × ((start f json job s).next ≢ panicked)
  unfolding start
  start-IsValid json none s v = (v, λ e. cc)
  start-IsValid json (some job) s v =
      (record { set_up = v.set_up; named = v.named; sound = v.sound }, λ e. cc)

module _ (f : F64) (json : Json f) (hex : Hex) (size_text : ℕ → ℕ → Bytes)
    (sha256 : Bytes → Bytes) where
  -- Over any run of lines, jobs and retargets, from a new session whose first difficulty lies
  -- between the configured bounds and with a retarget factor not below its inverse, the loop never
  -- panics, and at its end: an authorized session has subscribed and has a worker, whose name the
  -- guard accepts; the version mask has only bits of the pool's own mask, and rolling is on only
  -- with a mask that is not 0 and has as many bits as the miner asked for; the difficulty that the
  -- session keeps is the one that vardiff keeps, and if the session is authorized then it is also the
  -- one that the last `mining.set_difficulty` sent to the miner names; it and the previous one lie
  -- between the bounds, and the configuration is unchanged; and the set of seen shares is valid.
  pub session-IsValid :
      (session_id extranonce1 : Bytes) (extranonce2_size initial_diff : ℕ) (cfg : VardiffConfig f)
      (security : SecurityConfig) (share_rate : ShareRateLimiter f) (now later : ℕ)
      (job : Option StratumJob) (events : List Event)
      → cfg.min_difficulty ≤ initial_diff
      → initial_diff ≤ cfg.max_difficulty
      → HasBand f cfg
      → let s =
          new f session_id extranonce1 extranonce2_size initial_diff cfg
            (new_guard security)
            share_rate
            now
            later in
        let l = run f json hex size_text sha256 events (start f json job s) in
        IsValid f l.session × (l.next ≢ panicked) × Informed f json l
  session-IsValid session_id extranonce1 extranonce2_size initial_diff cfg security share_rate now
        later job events low high band =
      let s =
        new f session_id extranonce1 extranonce2_size initial_diff cfg (new_guard security)
          share_rate now later in
      let begun = start-IsValid f json job s (
        new-IsValid f session_id extranonce1 extranonce2_size initial_diff cfg security share_rate
          now later low high band) in
      let (valid, alive) =
        run-IsValid f json hex size_text sha256 events (start f json job s) begun in
      (
        valid,
        alive,
        run-Informed f json hex size_text sha256 events (start f json job s) begun (
            start-Informed f json job s (
              new-unauthorized f session_id extranonce1 extranonce2_size initial_diff cfg security
                share_rate now later)),
      )

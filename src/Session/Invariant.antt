-- ===== src/Session/Invariant.antt =====
-- The invariant of a session, and that `configure`, `suggest_difficulty` and `subscribe` keep it.
pub mod Authorize
pub mod Submit
pub mod Run
pub mod Start
use solo_pool_rs.Prelude.{
  ℕ, ◌+◌, ◌^◌, ◌≤◌, ◌<◌, ◌≡◌, ◌∙◌, ap, refl, sym, subst, Bool, true, false, not, ◌&&◌, Option, none,
  some, List, arith, leb, ◌==◌, bit_and, min, Bool-cases, Option-cases, inl, inr,
}
use solo_pool_rs.Prelude.Bits.{bit, bit-bit_and, bit_and-lt_right}
use solo_pool_rs.Prelude.Bytes.{Bytes, bytes_eq}
use solo_pool_rs.Prelude.Utf8.{chars}
use solo_pool_rs.Error.{Result, ok, err, panic, ◌>>=◌, Returns}
use solo_pool_rs.Template.PrevHash.{Hex}
use solo_pool_rs.Validator.{version_rolling_mask}
use solo_pool_rs.Validator.Shares as Shares
use solo_pool_rs.Validator.Shares.Invariant as SharesInvariant
use solo_pool_rs.Security.Guard.{
  SessionGuard, check_worker_name, record_new_authorization, validate_worker_name,
}
use solo_pool_rs.Vardiff as Vardiff
use solo_pool_rs.Vardiff.{F64, VardiffConfig, suggest}
use solo_pool_rs.Vardiff.Bounds.{IsInRange}
use solo_pool_rs.Vardiff.Config.{suggest-Assigns}
use solo_pool_rs.Sv1.Json.{Json}
use solo_pool_rs.Sv1.Parse.{
  ConfigureParams, SuggestDifficultyParams, SubscribeParams, AuthorizeParams,
}
use solo_pool_rs.Session.State.{StatCall, Session, Handled}
use solo_pool_rs.Session.Setup.{
  AuthorizeInput, negotiate_mask, min_bits_ok, negotiate, handle_configure,
  handle_suggest_difficulty, handle_subscribe, leave_worker, restore_history, switch_worker,
  is_new_identity, welcome, admit, handle_authorize,
}

-- An authorized session has subscribed, and has a worker.
abbrev pub IsSetUp : Bool → Bool → Option Bytes → Type 0
IsSetUp subscribed authorized worker =
    authorized ≡ true → (subscribed ≡ true) × ((w : Bytes) × (worker ≡ some w))

-- A worker's name is one that the guard accepts.
abbrev pub IsNamed : ℕ → Option Bytes → Type 0
IsNamed max_len none = Unit {0}
IsNamed max_len (some w) = validate_worker_name (chars w) max_len ≡ ok tt

-- A mask has no bit that the pool's own mask does not have.
abbrev pub IsNarrowed : ℕ → Type 0
IsNarrowed mask = (mask < 2 ^ 32) × ((n : ℕ) → n < 32 → bit n mask ≤ bit n version_rolling_mask)

-- Version rolling is on only with a mask that is not 0 and has the bits that the miner asked for.
abbrev pub IsRolling : Bool → Option ℕ → ℕ → Type 0
IsRolling enabled min_bits mask = enabled ≡ true → (0 < mask) × (min_bits_ok min_bits mask ≡ true)

-- The factor of a retarget bounds a range that is not empty.
abbrev pub HasBand : (f : F64) → VardiffConfig f → Type 0
HasBand f cfg = f.le (f.div (f.of_u64 1) cfg.max_retarget_factor) cfg.max_retarget_factor ≡ true

module _ (f : F64) where
  -- The part of the invariant that does not tell who the miner is.
  pub record IsSound (enabled : Bool) (min_bits : Option ℕ) (mask difficulty : ℕ)
      (vardiff : Vardiff.Vardiff f) (cfg : VardiffConfig f) (shares : Shares.ShareSet)
      : Type 0 where
    pub narrowed : IsNarrowed mask
    pub rolling : IsRolling enabled min_bits mask
    pub range : IsInRange f vardiff
    pub band : HasBand f vardiff.cfg
    pub assigned : difficulty ≡ vardiff.current
    pub same_cfg : vardiff.cfg ≡ cfg
    pub deduplicates : SharesInvariant.IsValid shares

  abbrev pub SoundSession : Session f → Type 0
  SoundSession s =
      IsSound s.version_rolling_enabled s.version_rolling_min_bit_count s.version_rolling_mask
        s.difficulty s.vardiff s.vardiff_cfg s.share_set

  pub record IsValid (s : Session f) : Type 0 where
    pub set_up : IsSetUp s.subscribed s.authorized s.worker
    pub named : IsNamed s.guard.max_worker_name_len s.worker
    pub sound : SoundSession s

  negotiate_mask-IsNarrowed :
      (asked : Option ℕ) (mask : ℕ) → IsNarrowed mask → IsNarrowed (negotiate_mask asked mask)
  unfolding negotiate_mask
  negotiate_mask-IsNarrowed none mask h = h
  negotiate_mask-IsNarrowed (some m) mask h =
      (bit_and-lt_right m mask h.0, λ n lt. omega (arith, bit-bit_and n m mask, h.1 n lt))

  negotiate-IsRolling :
      (asked : Bool) (mask : ℕ) → (asked && not (mask == 0)) ≡ true → (0 < mask) × (asked ≡ true)
  negotiate-IsRolling asked mask e = ground arith

  pub negotiate-IsValid :
      (params : ConfigureParams) (s : Session f) → IsValid s → IsValid (negotiate f params s)
  unfolding negotiate
  negotiate-IsValid params s v =
      let mask = negotiate_mask params.version_rolling_mask s.version_rolling_mask in
      elim (Bool-cases params.version_rolling) [
        | inr off ↦ rw (negotiate, off) v
        | inl on ↦
            rw (negotiate, on)
              (record {
                set_up = v.set_up;
                named = v.named;
                sound = record {
                  narrowed =
                      negotiate_mask-IsNarrowed params.version_rolling_mask s.version_rolling_mask
                        v.sound.narrowed;
                  rolling =
                      negotiate-IsRolling (min_bits_ok params.version_rolling_min_bit_count mask)
                        mask;
                  range = v.sound.range;
                  band = v.sound.band;
                  assigned = v.sound.assigned;
                  same_cfg = v.sound.same_cfg;
                  deduplicates = v.sound.deduplicates;
                };
              })
      ]

  -- A session whose vardiff and difficulty changed together.
  pub vardiff_sound :
      (s : Session f) (vardiff : Vardiff.Vardiff f) (difficulty : ℕ)
      → SoundSession s
      → IsInRange f vardiff
      → difficulty ≡ vardiff.current
      → vardiff.cfg ≡ s.vardiff.cfg
      → SoundSession (record s { vardiff = vardiff; difficulty = difficulty })
  vardiff_sound s vardiff difficulty v range assigned same = record {
    narrowed = v.narrowed;
    rolling = v.rolling;
    range = range;
    band = subst (HasBand f) (sym same) v.band;
    assigned = assigned;
    same_cfg = same ∙ v.same_cfg;
    deduplicates = v.deduplicates;
  }

  pub suggest-IsValid :
      (json : Json f) (now : ℕ) (id : json.Value) (params : SuggestDifficultyParams) (s : Session f)
      → IsValid s
      → Returns (λ h. IsValid h.session) (handle_suggest_difficulty f json now id params s)
  unfolding handle_suggest_difficulty
  suggest-IsValid json now id params s v =
      let a = suggest-Assigns f params.difficulty now s.vardiff v.sound.range in
      rw (a.suggested, handle_suggest_difficulty)
        (record {
          set_up = v.set_up;
          named = v.named;
          sound = vardiff_sound s a.after a.applied v.sound a.range (sym a.assigned) a.same_cfg;
        })

  pub subscribe-IsValid :
      (json : Json f) (hex : Hex) (id : json.Value) (params : SubscribeParams) (s : Session f)
      → IsValid s
      → IsValid (handle_subscribe f json hex id params s).session
  unfolding handle_subscribe
  subscribe-IsValid json hex id params s v = record {
    set_up = λ e. (refl, (v.set_up e).1);
    named = v.named;
    sound = v.sound;
  }

  range-shares :
      (v w : Vardiff.Vardiff f)
      → w.cfg ≡ v.cfg
      → w.current ≡ v.current
      → w.previous ≡ v.previous
      → IsInRange f v
      → IsInRange f w
  range-shares v w cfg current previous r = record {
    current_low = omega (arith, r.current_low, current, ap (λ c. c.min_difficulty) cfg);
    current_high = omega (arith, r.current_high, current, ap (λ c. c.max_difficulty) cfg);
    previous_low = omega (arith, r.previous_low, previous, ap (λ c. c.min_difficulty) cfg);
    previous_high = omega (arith, r.previous_high, previous, ap (λ c. c.max_difficulty) cfg);
  }

  -- A session of which only the vardiff's shares changed.
  pub shares_sound :
      (s : Session f) (vardiff : Vardiff.Vardiff f)
      → SoundSession s
      → vardiff.cfg ≡ s.vardiff.cfg
      → vardiff.current ≡ s.vardiff.current
      → vardiff.previous ≡ s.vardiff.previous
      → SoundSession (record s { vardiff = vardiff })
  shares_sound s vardiff v cfg current previous =
      vardiff_sound s vardiff s.difficulty v
        (range-shares s.vardiff vardiff cfg current previous v.range) (v.assigned ∙ sym current) cfg

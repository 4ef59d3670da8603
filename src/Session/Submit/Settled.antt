-- ===== src/Session/Submit/Settled.antt =====
-- A settled share is counted and credited, or not at all.
use solo_pool_rs.Prelude.{
  ℕ, ◌+◌, ◌≡◌, ◌⊎◌, refl, Bool, true, false, if◌then◌else◌, List, [], ◌∷◌, if_elim, inl, inr,
}
use solo_pool_rs.Prelude.Bytes.{Bytes}
use solo_pool_rs.Error.{Result, ok, err, panic, PoolError, Returns}
use solo_pool_rs.Template.PrevHash.{Hex}
use solo_pool_rs.Validator.{ShareResult, valid, block}
use solo_pool_rs.Vardiff.{F64, credit_for}
use solo_pool_rs.Engine.{submit_found_block}
use solo_pool_rs.Sv1.Json.{Json}
use solo_pool_rs.Sv1.Reply.{ok_reply}
use Prim.Native.String.{String}
use solo_pool_rs.Session.Setup.{refuse}
use solo_pool_rs.Security.Guard.{record_invalid}
use solo_pool_rs.Session.State.{
  StatCall, log_share, HandleResult, messages, disconnect, Session, Handled,
}
use solo_pool_rs.Session.Submit.{
  SubmitInput, count_invalid, credit, accept, reject, settle_block, settle, is_malicious,
  accepted_calls,
}
use solo_pool_rs.Session.Invariant.Submit.{returned-cases}

module _ (f : F64) where
  -- The shares logged in some calls: the worker and the difficulty credited.
  unfoldable pub credits : List (StatCall f) → List (Bytes × ℕ)
  credits [] = []
  credits (log_share worker credited ∷ calls) = (worker, credited) ∷ credits calls
  credits (_ ∷ calls) = credits calls

module _ (f : F64) (json : Json f) where
  -- The answer is a disconnection or one error reply to that request.
  pub data IsRefusal (size_text : ℕ → ℕ → Bytes) (id : json.Value)
      : HandleResult json.Value → Type 0 where
    ended : (reason : String) → IsRefusal size_text id (disconnect reason)
    error_told : (e : PoolError) → IsRefusal size_text id (refuse f json size_text id e)

  -- Nothing is counted or credited, and the miner is told of an error or disconnected.
  pub record IsUncounted (size_text : ℕ → ℕ → Bytes) (id : json.Value) (s : Session f)
      (h : Handled f json.Value) : Type 0 where
    pub same_accepted : h.session.shares_accepted ≡ s.shares_accepted
    pub same_vardiff : h.session.vardiff ≡ s.vardiff
    pub nothing : credits f h.calls ≡ []
    pub untold : IsRefusal size_text id h.answer
    pub same_difficulty : h.session.difficulty ≡ s.difficulty
    pub same_authorized : h.session.authorized ≡ s.authorized

  -- One share of that hash difficulty is counted and credited to that worker, and the miner is told
  -- so.
  pub record IsCounted (id : json.Value) (worker : Bytes) (hash_difficulty : ℕ) (s : Session f)
      (h : Handled f json.Value) : Type 0 where
    pub one_accepted : h.session.shares_accepted ≡ s.shares_accepted + 1
    pub same_rejected : h.session.shares_rejected ≡ s.shares_rejected
    pub credited : credits f h.calls ≡ (worker, credit_for f s.vardiff hash_difficulty) ∷ []
    pub told : h.answer ≡ messages (ok_reply f json id (json.bool true) ∷ [])
    pub same_difficulty : h.session.difficulty ≡ s.difficulty
    pub same_authorized : h.session.authorized ≡ s.authorized

  pub limited-IsRefusal :
      (size_text : ℕ → ℕ → Bytes) (id : json.Value) (e : PoolError) (limit : Bool)
      → IsRefusal size_text id
          (if limit then disconnect "too many invalid shares" else refuse f json size_text id e)
  limited-IsRefusal size_text id e true = ended "too many invalid shares"
  limited-IsRefusal size_text id e false = error_told e

-- The difficulty of an accepted share's hash.
abbrev pub hash_difficulty : ShareResult → ℕ
hash_difficulty (valid assigned difficulty h) = difficulty
hash_difficulty (block difficulty block_hex h) = difficulty

module _ (f : F64) (json : Json f) (hex : Hex) (size_text : ℕ → ℕ → Bytes) where
  -- A settled result: counted if it is one, else not.
  abbrev pub Settles :
      json.Value → Bytes → Result ShareResult → Session f → Handled f json.Value → Type 0
  Settles id worker r s h =
      ((res : ShareResult) × (r ≡ ok res)
        × (h.session.share_set ≡ s.share_set)
        × IsCounted f json id worker (hash_difficulty res) s h)
      ⊎ IsUncounted f json size_text id s h

  reject-IsUncounted :
      (id : json.Value) (worker : Bytes) (e : PoolError) (s : Session f)
      → IsUncounted f json size_text id s (reject f json size_text id worker e s)
  unfolding reject count_invalid credits
  reject-IsUncounted id worker e s =
      if_elim (IsUncounted f json size_text id s) (is_malicious e) _ _
        (λ _. record {
          same_accepted = refl;
          same_vardiff = refl;
          nothing = refl;
          untold =
              limited-IsRefusal f json size_text id e (record_invalid s.guard.invalid_shares).0;
          same_difficulty = refl;
          same_authorized = refl;
        })
        (λ _. record {
          same_accepted = refl;
          same_vardiff = refl;
          nothing = refl;
          untold = error_told e;
          same_difficulty = refl;
          same_authorized = refl;
        })

  pub settle-Settles :
      (input : SubmitInput) (id : json.Value) (worker : Bytes) (height : ℕ) (r : Result ShareResult)
      (s : Session f)
      → Returns (Settles id worker r s) (settle f json hex size_text input id worker height r s)
  unfolding settle accept credit credits accepted_calls
  settle-Settles input id worker height (ok (valid d difficulty h)) s = inl (
    valid d difficulty h,
    refl,
    refl,
    record {
      one_accepted = refl;
      same_rejected = refl;
      credited = refl;
      told = refl;
      same_difficulty = refl;
      same_authorized = refl;
    },
  )
  settle-Settles input id worker height (ok (block difficulty block_hex h)) s =
      elim (returned-cases input.answers) [ inl e ↦ counted e | inr (er, e) ↦ refused er e ]
    where
      Goal : Type 0
      Goal = Returns (Settles id worker (ok (block difficulty block_hex h)) s) (
          settle_block f json hex size_text input id worker height difficulty h
            (submit_found_block input.answers).returned s)

      counted : (submit_found_block input.answers).returned ≡ ok tt → Goal
      counted e =
          unfold settle_block in
          rw (settle_block, e)
            (inl (
              block difficulty block_hex h,
              refl,
              refl,
              record {
                one_accepted = refl;
                same_rejected = refl;
                credited = refl;
                told = refl;
                same_difficulty = refl;
                same_authorized = refl;
              },
            ))

      refused : (er : PoolError) → (submit_found_block input.answers).returned ≡ err er → Goal
      refused er e =
          unfold settle_block in
          rw (settle_block, e)
            (inr (record {
              same_accepted = refl;
              same_vardiff = refl;
              nothing = refl;
              untold = error_told er;
              same_difficulty = refl;
              same_authorized = refl;
            }))
  settle-Settles input id worker height (err e) s = inr (reject-IsUncounted id worker e s)
  settle-Settles input id worker height panic s = inr (record {
    same_accepted = refl;
    same_vardiff = refl;
    nothing = refl;
    untold = ended "internal error";
    same_difficulty = refl;
    same_authorized = refl;
  })

-- ===== src/Error.antt =====
-- src/error.rs: the pool's errors, the results of fallible code, and the Stratum error replies.
use Prim.Native.String.{String}
use solo_pool_rs.Prelude.{ℕ, ◌≡◌, ◌⊎◌, inl, inr, refl}
use solo_pool_rs.Prelude.Bytes.{Bytes}

-- `bitcoincore_rpc::Error`, by the one distinction the pool draws: a JSON-RPC error object that the
-- node answered with, or a call that failed on the way.
pub data RpcError : Type 0 where
  node_answered transport : RpcError

-- `PoolError`. `detail` texts, which only logs show, are dropped; an I/O error and an `anyhow`
-- error carry nothing that the code branches on.
pub data PoolError : Type 0 where
  parse : PoolError
  unknown_method : Bytes → PoolError
  not_subscribed : PoolError
  not_authorized : PoolError
  invalid_params : String → PoolError
  stale_job : Bytes → PoolError
  duplicate_share : PoolError
  low_difficulty : PoolError
  invalid_header : PoolError
  bad_extranonce_size : ℕ → ℕ → PoolError
  rpc : RpcError → PoolError
  template_unavailable : PoolError
  submit_block_rejected : PoolError
  banned : PoolError
  rate_limited : PoolError
  message_too_large : ℕ → PoolError
  io : PoolError
  connection_closed : PoolError
  other : PoolError

-- `Result<A, PoolError>`; `panic` is a run that a slice or an index out of range cuts off.
pub data Result {ℓ} (A : Type ℓ) : Type ℓ where
  ok : A → Result A
  err : PoolError → Result A
  panic : Result A

infixl 5 ◌>>=◌
abbrev pub ◌>>=◌ {ℓ κ} : {A : Type ℓ} {B : Type κ} → Result A → (A → Result B) → Result B
ok a >>= f = f a
err e >>= f = err e
panic >>= f = panic

infixl 5 ◌>>◌
abbrev pub ◌>>◌ {ℓ} : {B : Type ℓ} → Result (Unit {0}) → Result B → Result B
m >> k = m >>= λ _. k

-- A run that does not panic, and whose result, if it gives one, satisfies `P`.
abbrev pub Safe {ℓ} : {A : Type ℓ} → (A → Type 0) → Result A → Type 0
Safe P (ok a) = P a
Safe P (err e) = Unit {0}
Safe P panic = ⊥

pub Safe->>= {ℓ κ} :
    {A : Type ℓ} {B : Type κ} (P : A → Type 0) (Q : B → Type 0) (m : Result A) (f : A → Result B)
    → Safe P m
    → ((a : A) → P a → Safe Q (f a))
    → Safe Q (m >>= f)
Safe->>= P Q (ok a) f p q = q a p
Safe->>= P Q (err e) f p q = tt
Safe->>= P Q panic f p q = absurd p

abbrev pub NoPanic {ℓ} : {A : Type ℓ} → Result A → Type 0
NoPanic m = Safe (λ _. Unit {0}) m

pub Safe-known : {A : Type 0} (m : Result A) → NoPanic m → Safe (λ a. m ≡ ok a) m
Safe-known (ok a) h = refl
Safe-known (err e) h = tt
Safe-known panic h = absurd h

pub NoPanic->>= {ℓ κ} :
    {A : Type ℓ} {B : Type κ} (m : Result A) (f : A → Result B)
    → NoPanic m
    → ((a : A) → NoPanic (f a))
    → NoPanic (m >>= f)
NoPanic->>= (ok a) f p q = q a
NoPanic->>= (err e) f p q = tt
NoPanic->>= panic f p q = p

pub NoPanic-cases :
    {A : Type 0} (m : Result A)
    → NoPanic m
    → ((a : A) × (m ≡ ok a)) ⊎ ((e : PoolError) × (m ≡ err e))
NoPanic-cases (ok a) h = inl (a, refl)
NoPanic-cases (err e) h = inr (e, refl)
NoPanic-cases panic h = absurd h

-- A run that gives a result, which satisfies `P`.
abbrev pub Returns {ℓ} : {A : Type ℓ} → (A → Type 0) → Result A → Type 0
Returns P (ok a) = P a
Returns P (err e) = ⊥
Returns P panic = ⊥

pub Returns-map {ℓ} :
    {A : Type ℓ} {P Q : A → Type 0}
    → ((a : A) → P a → Q a)
    → (m : Result A) → Returns P m
    → Returns Q m
Returns-map h (ok a) p = h a p
Returns-map h (err e) p = p
Returns-map h panic p = p

pub Returns-zip {ℓ} :
    {A : Type ℓ} {P Q R : A → Type 0}
    → ((a : A) → P a → Q a → R a)
    → (m : Result A) → Returns P m
    → Returns Q m
    → Returns R m
Returns-zip h (ok a) p q = h a p q
Returns-zip h (err e) p q = p
Returns-zip h panic p q = p

-- What a chain that succeeds went through.
pub >>=-eq-ok {ℓ κ} :
    {A : Type ℓ} {B : Type κ} (m : Result A) (f : A → Result B) (b : B)
    → (m >>= f) ≡ ok b
    → (a : A) × (m ≡ ok a) × (f a ≡ ok b)
>>=-eq-ok (ok a) f b h = (a, refl, h)
>>=-eq-ok (err e) f b h = cc
>>=-eq-ok panic f b h = cc

-- `StratumErrCode`.
pub data StratumErrCode : Type 0 where
  unknown job_not_found duplicate_share low_difficulty_share unauthorized not_subscribed :
      StratumErrCode

unfoldable pub code_number : StratumErrCode → ℕ
code_number unknown = 20
code_number job_not_found = 21
code_number StratumErrCode.duplicate_share = 22
code_number low_difficulty_share = 23
code_number unauthorized = 24
code_number StratumErrCode.not_subscribed = 25

unfoldable pub message : StratumErrCode → String
message unknown = "Unknown problem"
message job_not_found = "Job not found"
message StratumErrCode.duplicate_share = "Duplicate share"
message low_difficulty_share = "Low difficulty share"
message unauthorized = "Unauthorized worker"
message StratumErrCode.not_subscribed = "Not subscribed"

-- The text in a reply: one of the fixed messages, or the one that names the two sizes.
pub data ReplyText : Type 0 where
  fixed : String → ReplyText
  wrong_extranonce2_size : ℕ → ℕ → ReplyText

-- The JSON array `[code, text, null]`.
pub record StratumError : Type 0 where
  pub code : ℕ
  pub text : ReplyText

abbrev coded : StratumErrCode → StratumError
unfolding code_number message
coded c = record { code = code_number c; text = fixed (message c) }

unfoldable pub to_stratum_error : PoolError → StratumError
unfolding coded
to_stratum_error (stale_job id) = coded job_not_found
to_stratum_error PoolError.duplicate_share = coded StratumErrCode.duplicate_share
to_stratum_error low_difficulty = coded low_difficulty_share
to_stratum_error not_authorized = coded unauthorized
to_stratum_error PoolError.not_subscribed = coded StratumErrCode.not_subscribed
to_stratum_error (bad_extranonce_size got expected) = record {
  code = code_number unknown;
  text = wrong_extranonce2_size got expected;
}
to_stratum_error _ = coded unknown

unfoldable pub submit_failure_label : PoolError → String
submit_failure_label (rpc e) = "rpc_error"
submit_failure_label submit_block_rejected = "rejected"
submit_failure_label template_unavailable = "template_unavailable"
submit_failure_label io = "io"
submit_failure_label _ = "other"

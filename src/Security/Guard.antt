-- ===== src/Security/Guard.antt =====
-- The guards of one session: worker names, invalid shares, identities and message sizes. The share
-- limiter of `SessionGuard` counts in floating point and is not part of this record.
pub mod Laws
use solo_pool_rs.Prelude.{
  ℕ, ◌+◌, ◌*◌, Bool, true, false, ◌||◌, ◌&&◌, List, [], ◌∷◌, length, any, ltb, leb, ◌==◌,
  if◌then◌else◌,
}
use solo_pool_rs.Error.{Result, ok, err, invalid_params, message_too_large}

-- `char::is_control`: the general category Cc.
abbrev pub is_control : ℕ → Bool
is_control c = leb c 0x1f || (leb 0x7f c && leb c 0x9f)

-- `char::is_whitespace`: the Unicode property White_Space.
abbrev pub is_whitespace : ℕ → Bool
is_whitespace c =
    (leb 0x09 c && leb c 0x0d)
    || (c == 0x20)
    || (c == 0x85)
    || (c == 0xa0)
    || (c == 0x1680)
    || (leb 0x2000 c && leb c 0x200a)
    || (c == 0x2028)
    || (c == 0x2029)
    || (c == 0x202f)
    || (c == 0x205f)
    || (c == 0x3000)

-- `char::len_utf8` and `str::len`; a text is the list of its scalar values.
unfoldable pub len_utf8 : ℕ → ℕ
len_utf8 c = if ltb c 0x80 then 1 else if ltb c 0x800 then 2 else if ltb c 0x1_0000 then 3 else 4

unfoldable pub byte_len : List ℕ → ℕ
unfolding len_utf8
byte_len [] = 0
byte_len (c ∷ cs) = len_utf8 c + byte_len cs

abbrev pub is_refused_char : ℕ → Bool
is_refused_char c = is_control c || is_whitespace c

unfoldable pub validate_worker_name : List ℕ → ℕ → Result (Unit {0})
validate_worker_name name max_len =
    if byte_len name == 0
    then err (invalid_params "worker name")
    else if ltb max_len (byte_len name)
    then err (invalid_params "worker name")
    else if any is_refused_char name
    then err (invalid_params "worker name")
    else ok tt

pub record InvalidShareCounter : Type 0 where
  pub count : ℕ
  pub max : ℕ

unfoldable pub record_invalid : InvalidShareCounter → Bool × InvalidShareCounter
record_invalid c =
    if c.max == 0
    then (false, c)
    else (let counted = record c { count = c.count + 1 } in (leb c.max counted.count, counted))

pub record SessionGuard : Type 0 where
  pub invalid_shares : InvalidShareCounter
  pub max_message_bytes : ℕ
  pub max_worker_name_len : ℕ
  pub authorizations : ℕ
  pub max_authorizations : ℕ

unfoldable pub record_new_authorization : SessionGuard → Bool × SessionGuard
record_new_authorization g =
    if g.max_authorizations == 0
    then (true, g)
    else (let counted = record g { authorizations = g.authorizations + 1 } in
        (leb counted.authorizations g.max_authorizations, counted))

unfoldable pub check_message_size : SessionGuard → ℕ → Result (Unit {0})
check_message_size g len =
    if ltb g.max_message_bytes len then err (message_too_large len) else ok tt

unfoldable pub check_worker_name : SessionGuard → List ℕ → Result (Unit {0})
unfolding validate_worker_name
check_worker_name g name = validate_worker_name name g.max_worker_name_len

-- The fields of `SecurityConfig` that `SessionGuard::new` reads, less the rate of shares.
pub record SecurityConfig : Type 0 where
  pub max_invalid_shares : ℕ
  pub max_message_bytes : ℕ
  pub max_worker_name_len : ℕ
  pub max_authorizations_per_session : ℕ

unfoldable pub new_guard : SecurityConfig → SessionGuard
new_guard cfg = record {
  invalid_shares = record { count = 0; max = cfg.max_invalid_shares };
  max_message_bytes = cfg.max_message_bytes;
  max_worker_name_len = cfg.max_worker_name_len;
  authorizations = 0;
  max_authorizations = cfg.max_authorizations_per_session;
}

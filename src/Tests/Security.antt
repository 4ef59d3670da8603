-- ===== src/Tests/Security.antt =====
-- The theorems on bans, limits and guards, at concrete inputs.
use solo_pool_rs.Prelude.{
  ℕ, ◌+◌, ◌≤◌, ◌<◌, ◌≡◌, ◌⊎◌, length, refl, true, false, none, List, [], ◌∷◌, arith,
}
use solo_pool_rs.Prelude.Bytes.{Bytes, bytes_eq}
use solo_pool_rs.Security.Table.{lookup, contains_key, insert}
use solo_pool_rs.Security.Bans.{BanList, ban, is_banned}
use solo_pool_rs.Security.Connections.{ConnectionRateLimiter, new, check_and_record}
use solo_pool_rs.Security.Connections.Memory.{IsBounded, check_and_record-IsBounded}
use solo_pool_rs.Security.Connections.Rate.{Attempt, since, allowed_times, allowed_times_per_minute}
use solo_pool_rs.Security.Guard.{SessionGuard}
use solo_pool_rs.Security.Bans.Laws.{Op, banned, asked, apply_all, is_banned-ban}

-- A list that holds three addresses at most.
abbrev wide : BanList
wide = record { entries = []; ban_duration = 3_600; max_entries = 3 }

abbrev ip : Bytes
ip = 1 ∷ 2 ∷ 3 ∷ 4 ∷ []

-- Another address is banned and asked for.
abbrev between : List Op
between = banned (9 ∷ []) [] 12 13 ∷ asked (9 ∷ []) 14 15 ∷ []

is_banned-ban_example :
    let c = apply_all between (ban ip [] 10 11 wide) in
    ((20 < 11 + 3_600) × (is_banned ip 20 21 c ≡ (true, c)))
    ⊎ ((11 + 3_600 ≤ 20)
        × ((is_banned ip 20 21 c).0 ≡ false)
        × (lookup ip (is_banned ip 20 21 c).1.entries ≡ none))
unfolding ban contains_key bytes_eq insert
is_banned-ban_example =
    is_banned-ban ip [] 10 11 20 21 wide between (omega arith) (refl, (refl, tt)) (omega arith)

-- A limiter that tracks one address.
abbrev small_limiter : ConnectionRateLimiter
small_limiter = record { windows = (ip, 5 ∷ []) ∷ []; max_per_minute = 2; max_tracked = 1 }

check_and_record-IsBounded_example :
    IsBounded
      (check_and_record (9 ∷ []) 70_000_000_000 70_000_000_001 70_000_000_002 small_limiter).1
unfolding contains_key
check_and_record-IsBounded_example =
    check_and_record-IsBounded (9 ∷ []) 70_000_000_000 70_000_000_001 70_000_000_002 small_limiter
      (record { once = (refl, tt); bounded = omega arith })

abbrev two_attempts : List Attempt
two_attempts =
    record { ip = ip; now = 100; pruned_at = 100; later = 101 }
    ∷ record { ip = ip; now = 200; pruned_at = 200; later = 201 }
    ∷ []

allowed_times_per_minute_example : length (since 50 (allowed_times ip two_attempts (new 1))) ≤ 1
allowed_times_per_minute_example = allowed_times_per_minute 50 1 ip two_attempts (omega arith)

abbrev a_guard : SessionGuard
a_guard = record {
  invalid_shares = record { count = 0; max = 3 };
  max_message_bytes = 4_096;
  max_worker_name_len = 128;
  authorizations = 0;
  max_authorizations = 2;
}

abbrev two_words : List ℕ
two_words = b'a' ∷ b' ' ∷ []

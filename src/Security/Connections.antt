-- ===== src/Security/Connections.antt =====
-- `ConnectionRateLimiter`: the sliding window of each address's connections.
pub mod Memory
pub mod Rate
use solo_pool_rs.Prelude.{
  ℕ, ◌-◌, Bool, true, false, ◌&&◌, not, Option, none, some, List, [], ◌∷◌, ◌++◌, length, any, keep,
  ltb, leb, if◌then◌else◌,
}
use solo_pool_rs.Prelude.Bytes.{Bytes}
use solo_pool_rs.Security.Table.{lookup, contains_key, insert, retain}
use solo_pool_rs.Security.Bans.{max_tracked_ips}

pub record ConnectionRateLimiter : Type 0 where
  pub windows : List (Bytes × List ℕ)
  pub max_per_minute : ℕ
  pub max_tracked : ℕ

unfoldable pub new : ℕ → ConnectionRateLimiter
new max_per_minute = record {
  windows = [];
  max_per_minute = max_per_minute;
  max_tracked = max_tracked_ips;
}

-- `Duration::from_secs(60)`.
abbrev pub one_minute : ℕ
one_minute = 60_000_000_000

-- `Instant::now().checked_sub(..)`.
abbrev pub cutoff : ℕ → Option ℕ
cutoff now = if ltb now one_minute then none else some (now - one_minute)

-- `times.iter().any(|&t| t > one_minute_ago)`.
abbrev pub is_live : ℕ → List ℕ → Bool
is_live one_minute_ago times = any (ltb one_minute_ago) times

unfoldable pub prune : ℕ → ConnectionRateLimiter → ConnectionRateLimiter
prune now l = elim (cutoff now) [
  | none ↦ l
  | some one_minute_ago ↦ record l { windows = retain (is_live one_minute_ago) l.windows }
]

-- `self.windows.entry(ip).or_default()`.
unfoldable pub window : Bytes → ConnectionRateLimiter → List ℕ
window ip l = elim (lookup ip l.windows) [ none ↦ [] | some times ↦ times ]

-- `entry.retain(|&t| t > cutoff)`.
unfoldable pub evict : Option ℕ → List ℕ → List ℕ
evict none times = times
evict (some before) times = keep (ltb before) times

-- The part of `check_and_record` on the address's own window.
unfoldable pub record_connection :
    Bytes → Option ℕ → ℕ → ConnectionRateLimiter → Bool × ConnectionRateLimiter
record_connection ip one_minute_ago later l =
    let entry = evict one_minute_ago (window ip l) in
    if leb l.max_per_minute (length entry)
    then (false, record l { windows = insert ip entry l.windows })
    else (true, record l { windows = insert ip (entry ++ (later ∷ [])) l.windows })

abbrev pub is_full_for : Bytes → ConnectionRateLimiter → Bool
is_full_for ip l = leb l.max_tracked (length l.windows) && not (contains_key ip l.windows)

-- `check_and_record`; the clock is read for the cutoff, when the map is pruned, and for the entry.
unfoldable pub check_and_record :
    Bytes → ℕ → ℕ → ℕ → ConnectionRateLimiter → Bool × ConnectionRateLimiter
unfolding prune record_connection
check_and_record ip now pruned_at later l =
    let one_minute_ago = cutoff now in
    if is_full_for ip l
    then (let pruned = prune pruned_at l in
        if leb pruned.max_tracked (length pruned.windows)
        then (false, pruned)
        else record_connection ip one_minute_ago later pruned)
    else record_connection ip one_minute_ago later l

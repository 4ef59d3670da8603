-- ===== src/Security/Bans.antt =====
-- `BanList`.
pub mod Laws
use solo_pool_rs.Prelude.{
  ℕ, ◌+◌, ◌*◌, Bool, true, false, ◌&&◌, not, Option, none, some, List, [], ◌∷◌, length, ltb, leb,
  if◌then◌else◌,
}
use solo_pool_rs.Prelude.Bytes.{Bytes}
use solo_pool_rs.Security.Table.{lookup, contains_key, insert, remove, retain}

pub record BanEntry : Type 0 where
  pub until : ℕ
  pub reason : Bytes

pub record BanList : Type 0 where
  pub entries : List (Bytes × BanEntry)
  pub ban_duration : ℕ
  pub max_entries : ℕ

-- `MAX_TRACKED_IPS`.
abbrev pub max_tracked_ips : ℕ
max_tracked_ips = 65_536

unfoldable pub new : ℕ → BanList
new ban_duration_secs = record {
  entries = [];
  ban_duration = 1_000_000_000 * ban_duration_secs;
  max_entries = max_tracked_ips;
}

abbrev pub still_banned : ℕ → BanEntry → Bool
still_banned now e = ltb now e.until

unfoldable pub prune : ℕ → BanList → BanList
prune now b = record b { entries = retain (still_banned now) b.entries }

-- `iter().min_by_key(|e| e.until)`: the first entry of the least expiry.
unfoldable pub soonest : List (Bytes × BanEntry) → Option (Bytes × ℕ)
soonest [] = none
soonest ((ip, e) ∷ m) = elim (soonest m) [
  | none ↦ some (ip, e.until)
  | some best ↦ if ltb best.1 e.until then some best else some (ip, e.until)
]

unfoldable pub drop_victim : BanList → BanList
drop_victim b = elim (soonest b.entries) [
  | none ↦ b
  | some victim ↦ record b { entries = remove victim.0 b.entries }
]

unfoldable pub make_room : ℕ → BanList → BanList
make_room now b =
    let pruned = prune now b in
    if leb pruned.max_entries (length pruned.entries) then drop_victim pruned else pruned

-- `ban`; the clock is read when the list is pruned, and again for the new entry.
unfoldable pub ban : Bytes → Bytes → ℕ → ℕ → BanList → BanList
ban ip reason now later b =
    let full = leb b.max_entries (length b.entries) && not (contains_key ip b.entries) in
    let roomy = if full then make_room now b else b in
    record roomy {
      entries =
          insert ip (record { until = later + b.ban_duration; reason = reason }) roomy.entries;
    }

-- `remove_if(ip, |_, e| now >= e.until)`.
unfoldable pub remove_expired : Bytes → ℕ → BanList → BanList
remove_expired ip now b = elim (lookup ip b.entries) [
  | none ↦ b
  | some e ↦ if leb e.until now then record b { entries = remove ip b.entries } else b
]

-- `is_banned`; the second reading of the clock is that of the clean-up.
unfoldable pub is_banned : Bytes → ℕ → ℕ → BanList → Bool × BanList
unfolding remove_expired
is_banned ip now later b = elim (lookup ip b.entries) [
  | none ↦ (false, remove_expired ip later b)
  | some e ↦ if ltb now e.until then (true, b) else (false, remove_expired ip later b)
]

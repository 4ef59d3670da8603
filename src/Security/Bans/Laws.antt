-- ===== src/Security/Bans/Laws.antt =====
-- The ban list stays within its limit, and a ban lasts exactly its time.
use solo_pool_rs.Prelude.{
  ℕ, ◌+◌, ◌≤◌, ◌<◌, ◌≡◌, ◌⊎◌, ◌∙◌, refl, Bool, true, false, ◌&&◌, none, some, List, [], ◌∷◌, length,
  arith, leb, ltb, if_elim, Bool-cases, Option-cases, inl, inr,
}
use solo_pool_rs.Prelude.All.{All}
use solo_pool_rs.Prelude.Bytes.{Bytes, bytes_eq, bytes_eq_refl}
use solo_pool_rs.Security.Table.{
  lookup, contains_key, DistinctKeys, lookup-insert, lookup-remove, insert-DistinctKeys,
  retain-DistinctKeys, remove-DistinctKeys, length-insert_present, length-insert-le,
  length-retain-le, length-remove-le, length-remove_present,
}
use solo_pool_rs.Security.Bans.{
  BanEntry, BanList, still_banned, prune, soonest, drop_victim, make_room, ban, is_banned,
  remove_expired,
}

pub record IsValid (b : BanList) : Type 0 where
  pub once : DistinctKeys b.entries
  pub bounded : length b.entries ≤ b.max_entries
  pub room : 0 < b.max_entries

soonest-present :
    (m : List (Bytes × BanEntry)) (v : Bytes × ℕ) → soonest m ≡ some v → contains_key v.0 m ≡ true
unfolding soonest contains_key
soonest-present [] v h = cc
soonest-present ((ip, e) ∷ m) v h = elim (Option-cases (soonest m)) [
  | inl empty ↦ ground (arith, empty, bytes_eq_refl ip)
  | inr (best, found) ↦ ground (arith, found, bytes_eq_refl ip, soonest-present m best)
]

soonest-none : (m : List (Bytes × BanEntry)) → soonest m ≡ none → length m ≡ 0
unfolding soonest
soonest-none [] h = refl
soonest-none ((ip, e) ∷ m) h = elim (Option-cases (soonest m)) [
  | inl empty ↦ ground (arith, empty)
  | inr (best, found) ↦ ground (arith, found)
]

-- Room for one more, and the limit as it was.
record HasRoom (b c : BanList) : Type 0 where
  room : length c.entries + 1 ≤ b.max_entries
  once : DistinctKeys c.entries
  limit : c.max_entries ≡ b.max_entries

drop_victim-HasRoom : (b : BanList) → IsValid b → HasRoom b (drop_victim b)
unfolding drop_victim
drop_victim-HasRoom b v = elim (Option-cases (soonest b.entries)) [
  | inl empty ↦
      rw (empty, drop_victim)
        (record { room = omega (arith, soonest-none b.entries empty); once = v.once; limit = refl })
  | inr (victim, found) ↦
      rw (found, drop_victim)
        (record {
          room = omega (
            arith,
            length-remove_present victim.0 b.entries (soonest-present b.entries victim found),
          );
          once = remove-DistinctKeys victim.0 b.entries v.once;
          limit = refl;
        })
]

prune-IsValid : (now : ℕ) (b : BanList) → IsValid b → IsValid (prune now b)
unfolding prune
prune-IsValid now b v = record {
  once = retain-DistinctKeys (still_banned now) b.entries v.once;
  bounded = omega (arith, length-retain-le (still_banned now) b.entries);
  room = v.room;
}

max_entries-prune : (now : ℕ) (b : BanList) → (prune now b).max_entries ≡ b.max_entries
unfolding prune
max_entries-prune now b = refl

make_room-HasRoom : (now : ℕ) (b : BanList) → IsValid b → HasRoom b (make_room now b)
unfolding make_room
make_room-HasRoom now b v =
    elim (Bool-cases (leb (prune now b).max_entries (length (prune now b).entries))) [
      | inl full ↦
          (let r = drop_victim-HasRoom (prune now b) pruned in
            rw full (record {
              room = omega (arith, r.room, max_entries-prune now b);
              once = r.once;
              limit = r.limit ∙ max_entries-prune now b;
            }))
      | inr spare ↦ rw spare (record {
        room = ground (arith, max_entries-prune now b);
        once = pruned.once;
        limit = max_entries-prune now b;
      })
    ]
  where
    pruned : IsValid (prune now b)
    pruned = prune-IsValid now b v

-- `ban` keeps each address once and the list within its limit, however many addresses are banned.
pub ban-IsValid :
    (ip reason : Bytes) (now later : ℕ) (b : BanList)
    → IsValid b
    → IsValid (ban ip reason now later b)
unfolding ban
ban-IsValid ip reason now later b v = elim (Bool-cases (contains_key ip b.entries)) [
  | inl known ↦
      rw (known, and_false (leb b.max_entries (length b.entries)))
        (record {
          once = insert-DistinctKeys ip _ b.entries v.once;
          bounded = omega (arith, length-insert_present ip entry b.entries known);
          room = v.room;
        })
  | inr new ↦ elim (Bool-cases (leb b.max_entries (length b.entries))) [
    | inl full ↦
        (let r = make_room-HasRoom now b v in
          rw (new, full)
            (record {
              once = insert-DistinctKeys ip _ (make_room now b).entries r.once;
              bounded =
                  omega
                    (arith, r.room, r.limit, length-insert-le ip entry (make_room now b).entries);
              room = omega (arith, r.limit);
            }))
    | inr spare ↦
        rw (new, spare)
          (record {
            once = insert-DistinctKeys ip _ b.entries v.once;
            bounded = omega (arith, length-insert-le ip entry b.entries, below spare);
            room = v.room;
          })
  ]
]
  where
    entry : BanEntry
    entry = record { until = later + b.ban_duration; reason = reason }

    and_false : (x : Bool) → (x && false) ≡ false
    and_false x = ground arith

    below : leb b.max_entries (length b.entries) ≡ false → length b.entries < b.max_entries
    below e = ground arith

is_banned_known :
    (ip : Bytes) (at after : ℕ) (c : BanList) (e : BanEntry)
    → at ≤ after
    → lookup ip c.entries ≡ some e
    → ((at < e.until) × (is_banned ip at after c ≡ (true, c)))
      ⊎ ((e.until ≤ at)
          × ((is_banned ip at after c).0 ≡ false)
          × (lookup ip (is_banned ip at after c).1.entries ≡ none))
unfolding is_banned
is_banned_known ip at after c e h found =
    ground (arith, found, lookup-remove ip ip c.entries, bytes_eq_refl ip)

-- What happens to the list for the sake of another address.
pub data Op : Type 0 where
  banned : Bytes → Bytes → ℕ → ℕ → Op
  asked : Bytes → ℕ → ℕ → Op

abbrev pub concerns : Op → Bytes
concerns (banned other_ip reason now later) = other_ip
concerns (asked other_ip at after) = other_ip

unfoldable pub apply : Op → BanList → BanList
apply (banned other_ip reason now later) b = ban other_ip reason now later b
apply (asked other_ip at after) b = (is_banned other_ip at after b).1

unfoldable pub apply_all : List Op → BanList → BanList
unfolding apply
apply_all [] b = b
apply_all (op ∷ ops) b = apply_all ops (apply op b)

-- The list before and after an operation for another address, of which there was room.
record Spares (ip : Bytes) (b c : BanList) : Type 0 where
  same : lookup ip c.entries ≡ lookup ip b.entries
  grown : length c.entries ≤ length b.entries + 1
  limit : c.max_entries ≡ b.max_entries

remove_expired-Spares :
    (ip other_ip : Bytes) (at : ℕ) (b : BanList)
    → bytes_eq other_ip ip ≡ false
    → Spares ip b (remove_expired other_ip at b)
unfolding remove_expired
remove_expired-Spares ip other_ip at b other = elim (Option-cases (lookup other_ip b.entries)) [
  | inl absent ↦
      rw (remove_expired, absent) (record { same = refl; grown = omega arith; limit = refl })
  | inr (e, found) ↦
      rw (remove_expired, found)
        (if_elim (Spares ip b) (leb e.until at) _ _
          (λ _. record {
            same = lookup-remove other_ip ip b.entries ∙ rw other refl;
            grown = omega (arith, length-remove-le other_ip b.entries);
            limit = refl;
          })
          (λ _. record { same = refl; grown = omega arith; limit = refl }))
]

apply-Spares :
    (ip : Bytes) (op : Op) (b : BanList)
    → bytes_eq (concerns op) ip ≡ false
    → length b.entries + 1 ≤ b.max_entries
    → Spares ip b (apply op b)
unfolding apply ban is_banned
apply-Spares ip (banned other_ip reason now later) b other room = rw spare (record {
  same = lookup-insert other_ip ip _ b.entries ∙ rw other refl;
  grown = length-insert-le other_ip _ b.entries;
  limit = refl;
})
  where
    spare : leb b.max_entries (length b.entries) ≡ false
    spare = ground (arith, room)
apply-Spares ip (asked other_ip at after) b other room =
    elim (Option-cases (lookup other_ip b.entries)) [
      | inl absent ↦ rw (apply, absent) (remove_expired-Spares ip other_ip after b other)
      | inr (e, found) ↦
          rw (apply, found)
            (if_elim {A = Bool × BanList} (λ r. Spares ip b r.1) (ltb at e.until) _ _
              (λ _. record { same = refl; grown = omega arith; limit = refl })
              (λ _. remove_expired-Spares ip other_ip after b other))
    ]

apply_all-lookup :
    (ip : Bytes) (ops : List Op) (b : BanList)
    → All (λ op. bytes_eq (concerns op) ip ≡ false) ops
    → length b.entries + length ops ≤ b.max_entries
    → lookup ip (apply_all ops b).entries ≡ lookup ip b.entries
unfolding apply_all
apply_all-lookup ip [] b others room = refl
apply_all-lookup ip (op ∷ ops) b (other, others) room =
    let s = apply-Spares ip op b other (omega (arith, room)) in
    apply_all-lookup ip ops (apply op b) others (omega (arith, room, s.grown, s.limit)) ∙ s.same

-- An address that was banned stays so to the end of the term and no longer, whatever bans and
-- questions about other addresses come in between, as long as the list has room for as many more
-- entries as there are of those, so that none is dropped; once the term is over it is forgotten when
-- it is asked for.
pub is_banned-ban :
    (ip reason : Bytes) (now later at after : ℕ) (b : BanList) (ops : List Op)
    → at ≤ after
    → All (λ op. bytes_eq (concerns op) ip ≡ false) ops
    → length (ban ip reason now later b).entries + length ops
      ≤ (ban ip reason now later b).max_entries
    → let c = apply_all ops (ban ip reason now later b) in
      ((at < later + b.ban_duration) × (is_banned ip at after c ≡ (true, c)))
      ⊎ ((later + b.ban_duration ≤ at)
          × ((is_banned ip at after c).0 ≡ false)
          × (lookup ip (is_banned ip at after c).1.entries ≡ none))
is_banned-ban ip reason now later at after b ops h others room =
    is_banned_known ip at after (apply_all ops (ban ip reason now later b))
      (record { until = later + b.ban_duration; reason = reason }) h
      (apply_all-lookup ip ops (ban ip reason now later b) others room ∙ entered)
  where
    entered :
        lookup ip (ban ip reason now later b).entries
        ≡ some (record { until = later + b.ban_duration; reason = reason })
    entered = unfold ban in lookup-insert ip ip _ _ ∙ rw (bytes_eq_refl ip) refl

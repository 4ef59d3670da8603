-- ===== src/Validator/Shares.antt =====
-- `ShareSet`: the header hashes accepted in this job generation, with FIFO eviction.
pub mod Fresh
pub mod Invariant
pub mod History
use solo_pool_rs.Prelude.{
  ℕ, Bool, true, false, ◌||◌, not, List, [], ◌∷◌, ◌++◌, length, any, keep, leb, if◌then◌else◌,
}
use solo_pool_rs.Prelude.Bytes.{Bytes, bytes_eq}
use solo_pool_rs.Error.{Result, ok, err, panic, duplicate_share}
use solo_pool_rs.Validator.{ShareResult, hash}

-- The hash set is a list; `order` has its oldest entry first.
pub record ShareSet : Type 0 where
  pub seen : List Bytes
  pub order : List Bytes
  pub max_size : ℕ

unfoldable pub new : ShareSet
new = record { seen = []; order = []; max_size = 4096 }

-- Membership, insertion and removal of a `HashSet`.
unfoldable pub member : Bytes → List Bytes → Bool
member k [] = false
member k (x ∷ xs) = bytes_eq x k || member k xs

pub insert_hash : Bytes → List Bytes → List Bytes
insert_hash k xs = if member k xs then xs else k ∷ xs

pub remove_hash : Bytes → List Bytes → List Bytes
remove_hash k = keep (λ x. not (bytes_eq x k))

unfoldable pub contains : ShareSet → Bytes → Bool
contains s key = member key s.seen

-- The eviction of `insert`: the oldest entry leaves both collections.
evict : List Bytes → ShareSet → ShareSet
unfolding remove_hash
evict [] s = s
evict (oldest ∷ rest) s = record s { seen = remove_hash oldest s.seen; order = rest }

add : ShareSet → Bytes → ShareSet
unfolding insert_hash
add s key = record s { seen = insert_hash key s.seen; order = s.order ++ (key ∷ []) }

unfoldable pub insert : ShareSet → Bytes → ShareSet
unfolding evict add
insert s key =
    if member key s.seen
    then s
    else add (if leb s.max_size (length s.seen) then evict s.order s else s) key

-- A run that panicked is no argument of the source's `dedup`: the session ends before.
unfoldable pub dedup : ShareSet → Result ShareResult → Result ShareResult × ShareSet
unfolding contains
dedup s (ok res) =
    if contains s (hash res) then (err duplicate_share, s) else (ok res, insert s (hash res))
dedup s (err e) = (err e, s)
dedup s panic = (panic, s)

unfoldable pub clear : ShareSet → ShareSet
clear s = record s { seen = []; order = [] }

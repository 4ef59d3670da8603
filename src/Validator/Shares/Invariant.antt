-- ===== src/Validator/Shares/Invariant.antt =====
-- The two collections of a `ShareSet` hold the same hashes, each once, and at most `max_size`.
use solo_pool_rs.Prelude.{
  suc, ◌+◌, ◌≤◌, ◌<◌, ◌≡◌, ◌∙◌, ap, refl, sym, subst, true, false, ◌||◌, List, [], ◌∷◌, ◌++◌,
  length, arith, leb, if◌then◌else◌, Bool-cases, inl, inr, length-append,
}
use solo_pool_rs.Prelude.Bytes.{Bytes, bytes_eq, bytes_eq_refl, eq_of_bytes_eq, bytes_eq_iff}
use solo_pool_rs.Error.{Result, ok, err, panic}
use solo_pool_rs.Validator.{ShareResult, hash}
use solo_pool_rs.Validator.Shares.{
  ShareSet, new, member, insert_hash, remove_hash, evict, add, insert, dedup, clear,
}

-- No hash twice.
abbrev pub Distinct : List Bytes → Type 0
Distinct [] = Unit {0}
Distinct (x ∷ xs) = (member x xs ≡ false) × Distinct xs

pub member_append :
    (k : Bytes) (xs ys : List Bytes) → member k (xs ++ ys) ≡ (member k xs || member k ys)
unfolding member
member_append k [] ys = refl
member_append k (x ∷ xs) ys = ground (arith, member_append k xs ys)

pub member_single : (k x : Bytes) → member k (x ∷ []) ≡ bytes_eq x k
unfolding member
member_single k x = ground arith

pub member_remove :
    (k x : Bytes) (xs : List Bytes)
    → member k (remove_hash x xs) ≡ (if bytes_eq x k then false else member k xs)
unfolding member remove_hash
member_remove k x [] = ground arith
member_remove k x (y ∷ ys) =
    ground (arith, member_remove k x ys, bytes_eq_iff y x, bytes_eq_iff y k, bytes_eq_iff x k)

remove_absent : (x : Bytes) (xs : List Bytes) → member x xs ≡ false → remove_hash x xs ≡ xs
unfolding member remove_hash
remove_absent x [] m = refl
remove_absent x (y ∷ ys) m = ground (arith, remove_absent x ys)

length-remove :
    (x : Bytes) (xs : List Bytes)
    → Distinct xs
    → member x xs ≡ true
    → length (remove_hash x xs) + 1 ≡ length xs
unfolding member
length-remove x [] d m = cc
length-remove x (y ∷ ys) d m = elim (Bool-cases (bytes_eq y x)) [
  | inl e ↦
      (let same : y ≡ x = eq_of_bytes_eq y x e in
        let absent : member x ys ≡ false = subst (λ k. member k ys ≡ false) same d.0 in
        removed e (ap length (remove_absent x ys absent)))
  | inr e ↦ kept e (length-remove x ys d.1 (ground (arith, e)))
]
  where
    removed :
        bytes_eq y x ≡ true
        → length (remove_hash x ys) ≡ length ys
        → length (remove_hash x (y ∷ ys)) + 1 ≡ suc (length ys)
    removed e l = unfold remove_hash in rw e (omega (arith, l))

    kept :
        bytes_eq y x ≡ false
        → length (remove_hash x ys) + 1 ≡ length ys
        → length (remove_hash x (y ∷ ys)) + 1 ≡ suc (length ys)
    kept e l = unfold remove_hash in rw e (omega (arith, l))

remove-Distinct : (x : Bytes) (xs : List Bytes) → Distinct xs → Distinct (remove_hash x xs)
remove-Distinct x [] d = unfold remove_hash in tt
remove-Distinct x (y ∷ ys) d = elim (Bool-cases (bytes_eq y x)) [
  | inl e ↦ dropped e (remove-Distinct x ys d.1)
  | inr e ↦ kept e (remove-Distinct x ys d.1)
]
  where
    dropped : bytes_eq y x ≡ true → Distinct (remove_hash x ys) → Distinct (remove_hash x (y ∷ ys))
    dropped e h = unfold remove_hash in rw e h

    kept : bytes_eq y x ≡ false → Distinct (remove_hash x ys) → Distinct (remove_hash x (y ∷ ys))
    kept e h = unfold remove_hash in rw e (member_remove y x ys ∙ ground (arith, d.0), h)

append-Distinct :
    (xs : List Bytes) (k : Bytes) → Distinct xs → member k xs ≡ false → Distinct (xs ++ (k ∷ []))
unfolding member
append-Distinct [] k d m = (refl, tt)
append-Distinct (x ∷ xs) k d m = (
  ground (arith, member_append x xs (k ∷ []), d.0, bytes_eq_iff x k, bytes_eq_iff k x),
  append-Distinct xs k d.1 (ground (arith, m)),
)

-- The hash set and the queue hold the same hashes, each once, and no more than the limit.
pub record IsValid (s : ShareSet) : Type 0 where
  pub same : (k : Bytes) → member k s.seen ≡ member k s.order
  pub seen_once : Distinct s.seen
  pub order_once : Distinct s.order
  pub sizes : length s.seen ≡ length s.order
  pub bounded : length s.order ≤ s.max_size
  pub room : 0 < s.max_size

pub new-IsValid : IsValid new
unfolding new
new-IsValid = record {
  same = λ k. refl;
  seen_once = tt;
  order_once = tt;
  sizes = refl;
  bounded = omega arith;
  room = omega arith;
}

evicted :
    (x : Bytes) (xs seen : List Bytes) (k : Bytes)
    → Distinct (x ∷ xs)
    → member k seen ≡ member k (x ∷ xs)
    → member k (remove_hash x seen) ≡ member k xs
unfolding member
evicted x xs seen k once same = elim (Bool-cases (bytes_eq x k)) [
  | inl e ↦
      member_remove k x seen
      ∙ rw e (sym (subst (λ j. member j xs ≡ false) (eq_of_bytes_eq x k e) once.0))
  | inr e ↦ member_remove k x seen ∙ rw e (same ∙ rw e)
]

evict-IsValid :
    (xs : List Bytes) (s : ShareSet)
    → s.order ≡ xs
    → IsValid s
    → IsValid (evict xs s)
      × (length (evict xs s).order + 1 ≤ s.max_size)
      × ((k : Bytes) → member k s.seen ≡ false → member k (evict xs s).seen ≡ false)
      × ((evict xs s).max_size ≡ s.max_size)
unfolding evict
evict-IsValid [] s e v = (v, omega (arith, ap length e), λ k m. m, refl)
evict-IsValid (x ∷ xs) s e v = (
  record {
    same = λ k. evicted x xs s.seen k once (v.same k ∙ ap (member k) e);
    seen_once = remove-Distinct x s.seen v.seen_once;
    order_once = once.1;
    sizes = omega (
      arith,
      length-remove x s.seen v.seen_once
          (v.same x ∙ ap (member x) e ∙ unfold member in rw (bytes_eq_refl x)),
      ap length e,
    );
    bounded = omega (arith, ap length e);
    room = v.room;
  },
  omega (arith, ap length e),
  λ k m. member_remove k x s.seen ∙ ground (arith, m),
  refl,
)
  where
    once : Distinct (x ∷ xs)
    once = subst Distinct e v.order_once

add-IsValid :
    (s : ShareSet) (k : Bytes)
    → IsValid s
    → length s.order + 1 ≤ s.max_size
    → member k s.seen ≡ false
    → IsValid (add s k)
unfolding add insert_hash
add-IsValid s k v room fresh = rw fresh (record {
  same = λ j. added j;
  seen_once = (fresh, v.seen_once);
  order_once = append-Distinct s.order k v.order_once (sym (v.same k) ∙ fresh);
  sizes = omega (arith, length-append s.order (k ∷ []), v.sizes);
  bounded = omega (arith, length-append s.order (k ∷ []));
  room = v.room;
})
  where
    added : (j : Bytes) → member j (k ∷ s.seen) ≡ member j (s.order ++ (k ∷ []))
    added j =
        unfold member in
        ground (arith, member_append j s.order (k ∷ []), member_single j k, v.same j)

-- `insert` keeps the set valid.
pub insert-IsValid : (s : ShareSet) (k : Bytes) → IsValid s → IsValid (insert s k)
unfolding insert
insert-IsValid s k v = elim (Bool-cases (member k s.seen)) [
  | inl known ↦ rw known v
  | inr fresh ↦ elim (Bool-cases (leb s.max_size (length s.seen))) [
    | inl full ↦
        (let (valid_rest, room, still, same_max) = evict-IsValid s.order s refl v in
          rw (fresh, full)
            (add-IsValid (evict s.order s) k valid_rest (omega (arith, room, same_max))
              (still k fresh)))
    | inr spare ↦ rw (fresh, spare) (add-IsValid s k v (ground (arith, v.sizes)) fresh)
  ]
]

-- Deduplication keeps the set valid: the hash set and the queue hold the same hashes, each once, and
-- at most `max_size` of them, whatever the validation's outcome.
pub dedup-IsValid : (s : ShareSet) (r : Result ShareResult) → IsValid s → IsValid (dedup s r).1
unfolding dedup
dedup-IsValid s (ok res) v = elim (Bool-cases (member (hash res) s.seen)) [
  | inl known ↦ rw known v
  | inr fresh ↦ rw fresh (insert-IsValid s (hash res) v)
]
dedup-IsValid s (err e) v = v
dedup-IsValid s panic v = v

pub clear-IsValid : (s : ShareSet) → IsValid s → IsValid (clear s)
unfolding clear
clear-IsValid s v = record {
  same = λ k. refl;
  seen_once = tt;
  order_once = tt;
  sizes = refl;
  bounded = omega arith;
  room = v.room;
}

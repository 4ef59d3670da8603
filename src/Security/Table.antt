-- ===== src/Security/Table.antt =====
-- A `DashMap` keyed by IP address, used by one caller at a time: an association list.
use solo_pool_rs.Prelude.{
  ◌+◌, ◌≤◌, ◌≡◌, ◌∙◌, refl, subst, Bool, true, false, ◌||◌, Option, none, some, List, [], ◌∷◌,
  length, arith, if◌then◌else◌, Bool-cases, inl, inr,
}
use solo_pool_rs.Prelude.Bytes.{Bytes, bytes_eq, bytes_eq_iff, eq_of_bytes_eq}

module _ {V : Type 0} where
  unfoldable pub lookup : Bytes → List (Bytes × V) → Option V
  lookup k [] = none
  lookup k ((j, v) ∷ m) = if bytes_eq j k then some v else lookup k m

  unfoldable pub contains_key : Bytes → List (Bytes × V) → Bool
  contains_key k [] = false
  contains_key k ((j, v) ∷ m) = bytes_eq j k || contains_key k m

  unfoldable pub insert : Bytes → V → List (Bytes × V) → List (Bytes × V)
  insert k v [] = (k, v) ∷ []
  insert k v ((j, w) ∷ m) = if bytes_eq j k then (k, v) ∷ m else (j, w) ∷ insert k v m

  unfoldable pub remove : Bytes → List (Bytes × V) → List (Bytes × V)
  remove k [] = []
  remove k ((j, v) ∷ m) = if bytes_eq j k then remove k m else (j, v) ∷ remove k m

  unfoldable pub retain : (V → Bool) → List (Bytes × V) → List (Bytes × V)
  retain p [] = []
  retain p ((j, v) ∷ m) = let rest = retain p m in if p v then (j, v) ∷ rest else rest

  -- Each key stands once.
  abbrev pub DistinctKeys : List (Bytes × V) → Type 0
  DistinctKeys [] = Unit {0}
  DistinctKeys ((j, v) ∷ m) = (contains_key j m ≡ false) × DistinctKeys m

  pub lookup-insert :
      (k j : Bytes) (v : V) (m : List (Bytes × V))
      → lookup j (insert k v m) ≡ (if bytes_eq k j then some v else lookup j m)
  unfolding lookup insert
  lookup-insert k j v [] = refl
  lookup-insert k j v ((i, w) ∷ m) =
      ground (arith, lookup-insert k j v m, bytes_eq_iff k j, bytes_eq_iff i k, bytes_eq_iff i j)

  pub lookup_absent :
      (k : Bytes) (m : List (Bytes × V)) → contains_key k m ≡ false → lookup k m ≡ none
  unfolding lookup contains_key
  lookup_absent k [] h = refl
  lookup_absent k ((j, v) ∷ m) h = ground (arith, lookup_absent k m)

  pub lookup-remove :
      (k j : Bytes) (m : List (Bytes × V))
      → lookup j (remove k m) ≡ (if bytes_eq k j then none else lookup j m)
  unfolding lookup remove
  lookup-remove k j [] = ground arith
  lookup-remove k j ((i, w) ∷ m) =
      ground (arith, lookup-remove k j m, bytes_eq_iff k j, bytes_eq_iff i k, bytes_eq_iff i j)

  contains_key-insert :
      (k j : Bytes) (v : V) (m : List (Bytes × V))
      → contains_key j (insert k v m) ≡ (bytes_eq k j || contains_key j m)
  unfolding contains_key insert
  contains_key-insert k j v [] = ground arith
  contains_key-insert k j v ((i, w) ∷ m) =
      ground
        (arith, contains_key-insert k j v m, bytes_eq_iff k j, bytes_eq_iff i k, bytes_eq_iff i j)

  pub contains_key-retain :
      (p : V → Bool) (k : Bytes) (m : List (Bytes × V))
      → contains_key k m ≡ false
      → contains_key k (retain p m) ≡ false
  unfolding contains_key retain
  contains_key-retain p k [] h = refl
  contains_key-retain p k ((j, v) ∷ m) h = ground (arith, contains_key-retain p k m)

  pub contains_key-remove :
      (i k : Bytes) (m : List (Bytes × V))
      → contains_key k m ≡ false
      → contains_key k (remove i m) ≡ false
  unfolding contains_key remove
  contains_key-remove i k [] h = refl
  contains_key-remove i k ((j, v) ∷ m) h = ground (arith, contains_key-remove i k m)

  pub insert-DistinctKeys :
      (k : Bytes) (v : V) (m : List (Bytes × V)) → DistinctKeys m → DistinctKeys (insert k v m)
  unfolding insert contains_key
  insert-DistinctKeys k v [] d = (refl, tt)
  insert-DistinctKeys k v ((j, w) ∷ m) d = elim (Bool-cases (bytes_eq j k)) [
    | inl e ↦ rw e (subst (λ x. contains_key x m ≡ false) (eq_of_bytes_eq j k e) d.0, d.1)
    | inr e ↦ rw e (
      contains_key-insert k j v m ∙ ground (arith, d.0, bytes_eq_iff k j, bytes_eq_iff j k),
      insert-DistinctKeys k v m d.1,
    )
  ]

  pub retain-DistinctKeys :
      (p : V → Bool) (m : List (Bytes × V)) → DistinctKeys m → DistinctKeys (retain p m)
  unfolding retain
  retain-DistinctKeys p [] d = tt
  retain-DistinctKeys p ((j, v) ∷ m) d =
      ground (arith, retain-DistinctKeys p m d.1, contains_key-retain p j m d.0)

  pub remove-DistinctKeys :
      (k : Bytes) (m : List (Bytes × V)) → DistinctKeys m → DistinctKeys (remove k m)
  unfolding remove
  remove-DistinctKeys k [] d = tt
  remove-DistinctKeys k ((j, v) ∷ m) d =
      ground (arith, remove-DistinctKeys k m d.1, contains_key-remove k j m d.0)

  pub length-insert_present :
      (k : Bytes) (v : V) (m : List (Bytes × V))
      → contains_key k m ≡ true
      → length (insert k v m) ≡ length m
  unfolding insert contains_key
  length-insert_present k v [] h = cc
  length-insert_present k v ((j, w) ∷ m) h = ground (arith, length-insert_present k v m)

  pub length-insert-le :
      (k : Bytes) (v : V) (m : List (Bytes × V)) → length (insert k v m) ≤ length m + 1
  unfolding insert
  length-insert-le k v [] = omega arith
  length-insert-le k v ((j, w) ∷ m) = ground (arith, length-insert-le k v m)

  pub length-retain-le : (p : V → Bool) (m : List (Bytes × V)) → length (retain p m) ≤ length m
  unfolding retain
  length-retain-le p [] = omega arith
  length-retain-le p ((j, v) ∷ m) = ground (arith, length-retain-le p m)

  pub length-remove-le : (k : Bytes) (m : List (Bytes × V)) → length (remove k m) ≤ length m
  unfolding remove
  length-remove-le k [] = omega arith
  length-remove-le k ((j, v) ∷ m) = ground (arith, length-remove-le k m)

  pub length-remove_present :
      (k : Bytes) (m : List (Bytes × V))
      → contains_key k m ≡ true
      → length (remove k m) + 1 ≤ length m
  unfolding remove contains_key
  length-remove_present k [] h = cc
  length-remove_present k ((j, v) ∷ m) h =
      ground (arith, length-remove_present k m, length-remove-le k m)

  pub lookup-retain :
      (p : V → Bool) (k : Bytes) (m : List (Bytes × V)) (v : V)
      → DistinctKeys m
      → lookup k m ≡ some v
      → lookup k (retain p m) ≡ (if p v then some v else none)
  unfolding lookup retain
  lookup-retain p k [] v d h = cc
  lookup-retain p k ((j, w) ∷ m) v d h = elim (Bool-cases (bytes_eq j k)) [
    | inl e ↦
        (let absent : contains_key k m ≡ false =
            subst (λ x. contains_key x m ≡ false) (eq_of_bytes_eq j k e) d.0 in
          ground (arith, lookup_absent k (retain p m), contains_key-retain p k m absent))
    | inr e ↦ ground (arith, lookup-retain p k m v d.1)
  ]

  pub lookup-retain-none :
      (p : V → Bool) (k : Bytes) (m : List (Bytes × V))
      → lookup k m ≡ none
      → lookup k (retain p m) ≡ none
  unfolding lookup retain
  lookup-retain-none p k [] h = refl
  lookup-retain-none p k ((j, w) ∷ m) h = ground (arith, lookup-retain-none p k m)

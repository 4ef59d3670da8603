-- ===== src/Template/Coinbase/Sentinel.antt =====
-- Where the extranonce region of a built coinbase lies.
use solo_pool_rs.Prelude.{
  ℕ, suc, ◌+◌, ◌-◌, ◌≤◌, ◌≡◌, refl, ◌∙◌, true, Option, none, some, List, [], ◌∷◌, ◌++◌,
  append_assoc, length, take, drop, replicate, arith, min, length-append, length-take, length-drop,
  length-replicate, Bool-cases, inl, inr,
}
use solo_pool_rs.Prelude.Bytes.{Bytes}
use solo_pool_rs.Error.{Safe, Safe->>=}
use solo_pool_rs.Template.PrevHash.{Hex}
use solo_pool_rs.Template.Coinbase.{
  BitcoinCrate, has_prefix, find_bytes, sentinel, script_sig, blank, encode_bip34_height,
  witness_outputs, reward_script, locate, build_coinbase,
}

-- What the pool relies on: the scriptSig stands in the serialized transaction as it is.
pub record EmbedsScript (bitcoin : BitcoinCrate) : Type 0 where
  pub front : Bytes → List (ℕ × Bytes) → Bytes
  pub back : Bytes → List (ℕ × Bytes) → Bytes
  pub embeds :
      (script : Bytes) (outputs : List (ℕ × Bytes))
      → bitcoin.serialize script outputs ≡ front script outputs ++ (script ++ back script outputs)

has_prefix_append : (needle rest : Bytes) → has_prefix needle (needle ++ rest) ≡ true
unfolding has_prefix
has_prefix_append [] rest = refl
has_prefix_append (n ∷ needle) rest = ground (arith, has_prefix_append needle rest)

-- The search finds a sentinel that is there, or an earlier one.
find_bytes_before :
    (front rest : Bytes)
    → (i : ℕ) × (find_bytes sentinel (front ++ (sentinel ++ rest)) ≡ some i) × (i ≤ length front)
unfolding find_bytes
find_bytes_before [] rest = (0, ground (arith, has_prefix_append sentinel rest), omega arith)
find_bytes_before (x ∷ front) rest =
    let later = find_bytes_before front rest in
    elim (Bool-cases (has_prefix sentinel (x ∷ (front ++ (sentinel ++ rest))))) [
      | inl e ↦ (0, rw e, omega arith)
      | inr e ↦ (suc later.0, rw (e, later.1), omega (arith, later.2))
    ]

pub length-blank :
    (offset n : ℕ) (b : Bytes) → offset ≤ length b → length (blank offset n b) ≡ length b
unfolding blank
length-blank offset n b h = omega (
  arith,
  length-append (take offset b) (replicate k 0 ++ drop (offset + k) b),
  length-append (replicate k 0) (drop (offset + k) b),
  length-take offset b,
  length-replicate {A = ℕ} k 0,
  length-drop (offset + k) b,
)
  where
    k : ℕ
    k = min n (length b - offset)

module _ (hex : Hex) (bitcoin : BitcoinCrate) (laws : EmbedsScript bitcoin) where
  -- The region of `en_total` bytes lies inside the bytes that come with its offset.
  abbrev pub HasRegion : ℕ → Bytes × ℕ → Type 0
  HasRegion en_total r = r.1 + en_total ≤ length r.0

  locate_at :
      (n : ℕ) (front rest : Bytes)
      → n ≤ 4 + length rest
      → Safe (HasRegion n) (locate hex bitcoin n (front ++ (sentinel ++ rest)))
  unfolding locate
  locate_at n front rest room =
      let found = find_bytes_before front rest in
      rw (found.1, locate) (omega (arith, found.2, inside found.0 found.2))
    where
      whole : Bytes
      whole = front ++ (sentinel ++ rest)

      inside : (i : ℕ) → i ≤ length front → i + n ≤ length (blank i n whole)
      inside i h = omega (
        arith,
        length-append front (sentinel ++ rest),
        length-blank i n whole (omega (arith, length-append front (sentinel ++ rest))),
      )

  serialized_shape :
      (height : ℕ) (tag : Bytes) (n : ℕ) (outputs : List (ℕ × Bytes))
      → let script = script_sig height tag n in
        bitcoin.serialize script outputs
        ≡ (laws.front script outputs ++ (encode_bip34_height height ++ tag))
          ++ (sentinel ++ (replicate (n - 4) 0 ++ laws.back script outputs))
  serialized_shape height tag n outputs =
      laws.embeds (script_sig height tag n) outputs ∙ unfold script_sig in simp append_assoc

  locate-Safe :
      (height : ℕ) (tag : Bytes) (n : ℕ) (outputs : List (ℕ × Bytes))
      → Safe
          (HasRegion n)
          (locate hex bitcoin n (bitcoin.serialize (script_sig height tag n) outputs))
  locate-Safe height tag n outputs =
      let tail = laws.back (script_sig height tag n) outputs in
      rw (serialized_shape height tag n outputs) (
        locate_at n _ (replicate (n - 4) 0 ++ tail) (
          omega
            (arith, length-append (replicate (n - 4) 0) tail, length-replicate {A = ℕ} (n - 4) 0)))

  -- If the serializer writes the scriptSig into its transaction as it is, `build_coinbase` never
  -- panics, and the region that it announces, of both extranonces' width, lies inside its result.
  pub build_coinbase-Safe :
      (height reward : ℕ) (address tag : Bytes) (len1 len2 : ℕ) (commitment : Option Bytes)
      → Safe
          (HasRegion (len1 + len2))
          (build_coinbase hex bitcoin height reward address tag len1 len2 commitment)
  unfolding build_coinbase
  build_coinbase-Safe height reward address tag len1 len2 commitment =
      Safe->>= (λ _. Unit {0}) (HasRegion (len1 + len2)) (reward_script hex bitcoin address) _
        (reward_script-Safe address)
        (λ script _.
          Safe->>= (λ _. Unit {0}) (HasRegion (len1 + len2))
            (witness_outputs hex bitcoin commitment) _ (witness_outputs-Safe commitment)
            (λ witness _. locate-Safe height tag (len1 + len2) ((reward, script) ∷ witness)))
    where
      reward_script-Safe : (a : Bytes) → Safe (λ _. Unit {0}) (reward_script hex bitcoin a)
      reward_script-Safe a = ground arith

      witness_outputs-Safe :
          (c : Option Bytes) → Safe (λ _. Unit {0}) (witness_outputs hex bitcoin c)
      witness_outputs-Safe none = tt
      witness_outputs-Safe (some c) = ground arith

-- ===== src/Tests/Json.antt =====
-- Concrete functions for `serde_json` and `binary_sv2`.
use solo_pool_rs.Prelude.{ℕ, ◌≡◌, refl, Bool, true, Option, none, some, List, [], ◌∷◌}
use solo_pool_rs.Prelude.Bytes.{Bytes}
use solo_pool_rs.Sv1.Json.{Json, JsonLaws, text}
use solo_pool_rs.Sv2.Frame.{Wire}
use solo_pool_rs.Sv2.Job.{WireTypes}
use solo_pool_rs.Tests.Doubles.{fixed}

-- Arrays and objects are chains of their elements.
pub data Tree : Type 0 where
  null_tree : Tree
  bool_tree : Bool → Tree
  number_tree : ℕ → Tree
  string_tree : Bytes → Tree
  end_tree : Tree
  element : Tree → Tree → Tree
  entry : Bytes → Tree → Tree → Tree

abbrev pub chain : List Tree → Tree
chain [] = end_tree
chain (v ∷ vs) = element v (chain vs)

abbrev pub entries : List (Bytes × Tree) → Tree
entries [] = end_tree
entries ((k, v) ∷ vs) = entry k v (entries vs)

abbrev pub elements : Tree → Option (List Tree)
elements end_tree = some []
elements (element v t) = elim (elements t) [ none ↦ none | some vs ↦ some (v ∷ vs) ]
elements _ = none

abbrev pub string_of : Tree → Option Bytes
string_of (string_tree s) = some s
string_of _ = none

abbrev pub number_of : Tree → Option ℕ
number_of (number_tree n) = some n
number_of _ = none

abbrev pub plain_json : Json fixed
plain_json = record {
  Value = Tree;
  null = null_tree;
  bool = bool_tree;
  number = number_tree;
  string = string_tree;
  array = chain;
  object = entries;
  as_array = elements;
  as_str = string_of;
  as_u64 = number_of;
  as_f64 = number_of;
  as_object = λ v. none;
  parse_request = λ line. some (number_tree 1, text "mining.subscribe", end_tree);
}

elements-chain : (vs : List Tree) → elements (chain vs) ≡ some vs
elements-chain [] = refl
elements-chain (v ∷ vs) = rw (elements-chain vs) refl

pub plain_json-JsonLaws : JsonLaws fixed plain_json
plain_json-JsonLaws = record {
  as_array-array = elements-chain;
  as_str-string = λ s. refl;
  as_u64-number = λ n small. refl;
}

-- The display of the error that names two sizes.
abbrev pub sizes : ℕ → ℕ → Bytes
sizes got expected = got ∷ expected ∷ []

-- A writer that always succeeds.
abbrev pub open_wire : Wire
open_wire = record { encode = λ message. some []; send = λ message. true }

abbrev pub any_types : WireTypes
any_types = record { seq0255 = λ hashes. true; b064k = λ bytes. true }

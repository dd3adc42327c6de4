-- ===== src/Container/Map.antt =====
-- `std::map` as the source uses it: `find`, `insert`, `erase`, `size` and `begin`, over an
-- association list. A map holds a key at most once, `insert` never overwrites, and `erase` of a
-- key removes it.
use flex_gas.Prelude.{
  ==_iff, Bool, Bytes, List, Option, [], arith, bytes_eq, bytes_eq_iff, false, if◌then◌else◌,
  length, ltb, none, some, true, ℕ, ◌&&◌, ◌<◌, ◌==◌, ◌↔◌, ◌∷◌, ◌≡◌,
}

-- What a key type brings: a test for equality.
pub record Key (K : Type 0) : Type 0 where
  pub beq : K → K → Bool
  pub beq_iff : (a b : K) → (beq a b ≡ true) ↔ (a ≡ b)

abbrev nat_beq : ℕ → ℕ → Bool
nat_beq a b = a == b

instance abbrev pub nat_key : Key ℕ
nat_key = record { beq = nat_beq; beq_iff = ==_iff }

instance abbrev pub bytes_key : Key Bytes
bytes_key = record { beq = bytes_eq; beq_iff = bytes_eq_iff }

abbrev pub Map : Type 0 → Type 0 → Type 0
Map K V = List (K × V)

-- The value that `insert` leaves under its key.
abbrev pub kept {ℓ} : {V : Type ℓ} → Option V → V → Option V
kept none v = some v
kept (some w) v = some w

module _ {K V : Type 0} ⦃key : Key K⦄ where
  unfoldable pub find : K → Map K V → Option V
  find k [] = none
  find k ((j, v) ∷ m) = if key.beq j k then some v else find k m

  -- Nothing happens where the key is there already.
  unfoldable pub insert : K → V → Map K V → Map K V
  insert k v [] = (k, v) ∷ []
  insert k v ((j, w) ∷ m) = if key.beq j k then (j, w) ∷ m else (j, w) ∷ insert k v m

  unfoldable pub erase : K → Map K V → Map K V
  erase k [] = []
  erase k ((j, w) ∷ m) = let rest = erase k m in if key.beq j k then rest else (j, w) ∷ rest

  pub find-insert :
      (k j : K) (v : V) (m : Map K V)
      → find j (insert k v m) ≡ (if key.beq k j then kept (find k m) v else find j m)
  unfolding find insert
  find-insert k j v [] = ground arith
  find-insert k j v ((i, w) ∷ m) =
      ground (arith, key.beq_iff i k, key.beq_iff i j, key.beq_iff k j, find-insert k j v m)

  pub find-erase :
      (k j : K) (m : Map K V) → find j (erase k m) ≡ (if key.beq k j then none else find j m)
  unfolding find erase
  find-erase k j [] = ground arith
  find-erase k j ((i, w) ∷ m) =
      ground (arith, key.beq_iff i k, key.beq_iff i j, key.beq_iff k j, find-erase k j m)

  pub length-insert-pos : (k : K) (v : V) (m : Map K V) → 0 < length (insert k v m)
  unfolding insert
  length-insert-pos k v [] = omega arith
  length-insert-pos k v ((j, w) ∷ m) = ground (arith, length-insert-pos k v m)

-- The order of `std::string`.
unfoldable pub bytes_lt : Bytes → Bytes → Bool
bytes_lt [] [] = false
bytes_lt [] (b ∷ t) = true
bytes_lt (a ∷ s) [] = false
bytes_lt (a ∷ s) (b ∷ t) = if ltb a b then true else (a == b) && bytes_lt s t

-- `begin()`: the entry with the least key.
unfoldable pub least {ℓ} : {V : Type ℓ} → List (Bytes × V) → Option (Bytes × V)
least [] = none
least ((k, v) ∷ m) = elim (least m) [
  | none ↦ some (k, v)
  | some (j, w) ↦ if bytes_lt j k then some (j, w) else some (k, v)
]

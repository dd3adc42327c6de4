-- ===== src/Links/Memory.antt =====
-- The bytes that a transfer reads and writes: the memory of a process, and the structures that the
-- source fills byte by byte.
use mathlib.Core.Path.{◌≡⟨◌⟩◌, ◌∎}
use flex_gas.Agent.Window.{u64}
use flex_gas.Prelude.{
  List, [], ap, arith, if◌then◌else◌, leb, length, refl, suc, sym, take, zero, ℕ, ◌%◌, ◌*◌, ◌++◌,
  ◌+◌, ◌-◌, ◌/◌, ◌<◌, ◌==◌, ◌∙◌, ◌∷◌, ◌≡◌, ◌≤◌, ◌⊎◌,
}

abbrev pub Memory : Type 0
Memory = ℕ → ℕ

abbrev pub drop {ℓ} : {A : Type ℓ} → ℕ → List A → List A
drop zero xs = xs
drop (suc n) [] = []
drop (suc n) (x ∷ xs) = drop n xs

abbrev pub min : ℕ → ℕ → ℕ
min a b = if leb a b then a else b

-- a - b of two size_t.
unfoldable pub sub64 : ℕ → ℕ → ℕ
sub64 a b = (a + u64 - b) % u64

unfoldable pub store_byte : Memory → ℕ → ℕ → Memory
store_byte m a v b = if a == b then v else m b

unfoldable pub read_bytes : Memory → ℕ → ℕ → List ℕ
read_bytes m a zero = []
read_bytes m a (suc n) = m a ∷ read_bytes m (a + 1) n

unfoldable pub write_bytes : Memory → ℕ → List ℕ → Memory
write_bytes m a [] = m
write_bytes m a (x ∷ xs) = write_bytes (store_byte m a x) (a + 1) xs

-- The n bytes of a number, the lowest first.
abbrev pub le_bytes : ℕ → ℕ → List ℕ
le_bytes zero v = []
le_bytes (suc n) v = (v % 256) ∷ le_bytes n (v / 256)

abbrev pub of_bytes : List ℕ → ℕ
of_bytes [] = 0
of_bytes (b ∷ bs) = b + 256 * of_bytes bs

pub sub64_lem : (a b : ℕ) → a < u64 → b ≤ a → sub64 a b ≡ a - b
unfolding sub64
sub64_lem a b fits le = omega arith

pub length-drop {ℓ} : {A : Type ℓ} (n : ℕ) (xs : List A) → length (drop n xs) ≡ length xs - n
length-drop zero xs = omega arith
length-drop (suc n) [] = omega arith
length-drop (suc n) (x ∷ xs) = omega (arith, length-drop n xs)

pub length-take {ℓ} : {A : Type ℓ} (n : ℕ) (xs : List A) → n ≤ length xs → length (take n xs) ≡ n
length-take zero xs le = refl
length-take (suc n) [] le = absurd (omega arith)
length-take (suc n) (x ∷ xs) le = omega (arith, length-take n xs (omega arith))

pub take-drop {ℓ} : {A : Type ℓ} (n : ℕ) (xs : List A) → take n xs ++ drop n xs ≡ xs
take-drop zero xs = refl
take-drop (suc n) [] = refl
take-drop (suc n) (x ∷ xs) = rw (take-drop n xs)

pub length-zero {ℓ} : {A : Type ℓ} (xs : List A) → length xs ≡ 0 → xs ≡ []
length-zero [] e = refl
length-zero (x ∷ xs) e = absurd (omega arith)

-- The shorter of two starts of a list is a start of the longer one.
pub split_prefix {ℓ} :
    {A : Type ℓ} (xs ys zs ws : List A)
    → length xs ≡ length zs
    → xs ++ ys ≡ zs ++ ws
    → (xs ≡ zs) × (ys ≡ ws)
split_prefix [] ys [] ws same e = (refl, e)
split_prefix [] ys (z ∷ zs) ws same e = absurd (omega arith)
split_prefix (x ∷ xs) ys [] ws same e = absurd (omega arith)
split_prefix (x ∷ xs) ys (z ∷ zs) ws same e =
    let ih = split_prefix xs ys zs ws (omega arith) (cc) in (cc, ih.1)

pub length-read_bytes : (m : Memory) (a n : ℕ) → length (read_bytes m a n) ≡ n
unfolding read_bytes
length-read_bytes m a zero = refl
length-read_bytes m a (suc n) = omega (arith, length-read_bytes m (a + 1) n)

pub drop-read_bytes :
    (m : Memory) (a n k : ℕ) → k ≤ n → drop k (read_bytes m a n) ≡ read_bytes m (a + k) (n - k)
unfolding read_bytes
drop-read_bytes m a n zero le = ground arith
drop-read_bytes m a zero (suc k) le = absurd (omega arith)
drop-read_bytes m a (suc n) (suc k) le = ground (arith, drop-read_bytes m (a + 1) n k (omega arith))

pub write_bytes-append :
    (m : Memory) (a : ℕ) (xs ys : List ℕ)
    → write_bytes m a (xs ++ ys) ≡ write_bytes (write_bytes m a xs) (a + length xs) ys
unfolding write_bytes
write_bytes-append m a [] ys = ground arith
write_bytes-append m a (x ∷ xs) ys =
    ground (arith, write_bytes-append (store_byte m a x) (a + 1) xs ys)

-- A write changes nothing outside of its range.
pub write_bytes_outside :
    (m : Memory) (a : ℕ) (xs : List ℕ) (b : ℕ)
    → (b < a) ⊎ (a + length xs ≤ b)
    → write_bytes m a xs b ≡ m b
unfolding write_bytes store_byte
write_bytes_outside m a [] b out = refl
write_bytes_outside m a (x ∷ xs) b out =
    ground (arith, write_bytes_outside (store_byte m a x) (a + 1) xs b)

pub read_bytes-write_bytes :
    (m : Memory) (a : ℕ) (xs : List ℕ) → read_bytes (write_bytes m a xs) a (length xs) ≡ xs
unfolding write_bytes read_bytes store_byte
read_bytes-write_bytes m a [] = refl
read_bytes-write_bytes m a (x ∷ xs) = ground (
  arith,
  read_bytes-write_bytes (store_byte m a x) (a + 1) xs,
  write_bytes_outside (store_byte m a x) (a + 1) xs a,
)

pub take-read_bytes :
    (m : Memory) (a n k : ℕ) → n ≤ k → take n (read_bytes m a k) ≡ read_bytes m a n
unfolding read_bytes
take-read_bytes m a zero k le = refl
take-read_bytes m a (suc n) zero le = absurd (omega arith)
take-read_bytes m a (suc n) (suc k) le = ground (arith, take-read_bytes m (a + 1) n k (omega arith))

-- A field of a structure that was written whole.
pub read_bytes-field :
    (m : Memory) (a i n : ℕ) (xs : List ℕ)
    → i + n ≤ length xs
    → read_bytes (write_bytes m a xs) (a + i) n ≡ take n (drop i xs)
read_bytes-field m a i n xs le =
    let w : Memory = write_bytes m a xs in
    read_bytes w (a + i) n
    ≡⟨ sym (take-read_bytes w (a + i) n (length xs - i) (omega arith)) ⟩
      take n (read_bytes w (a + i) (length xs - i))
    ≡⟨ ap (take n) (sym (drop-read_bytes w a (length xs) i (omega arith))) ⟩
      take n (drop i (read_bytes w a (length xs)))
    ≡⟨ ap (λ l. take n (drop i l)) (read_bytes-write_bytes m a xs) ⟩ take n (drop i xs) ∎

pub take_all {ℓ} : {A : Type ℓ} (n : ℕ) (xs : List A) → length xs ≤ n → take n xs ≡ xs
take_all zero [] le = refl
take_all zero (x ∷ xs) le = absurd (omega arith)
take_all (suc n) [] le = refl
take_all (suc n) (x ∷ xs) le = ap (◌∷◌ x) (take_all n xs (omega arith))

drop-nil {ℓ} : {A : Type ℓ} (n : ℕ) → drop {A = A} n [] ≡ []
drop-nil zero = refl
drop-nil (suc n) = refl

pub drop-drop {ℓ} : {A : Type ℓ} (m n : ℕ) (xs : List A) → drop m (drop n xs) ≡ drop (n + m) xs
drop-drop m zero xs = ground arith
drop-drop m (suc n) [] = drop-nil m ∙ sym (drop-nil (suc n + m))
drop-drop m (suc n) (x ∷ xs) =
    let e : suc n + m ≡ suc (n + m) = omega arith in rw e (drop-drop m n xs)

-- A list from an index on, cut again.
pub cut {ℓ} :
    {A : Type ℓ} (n k : ℕ) (xs : List A) → drop k xs ≡ take n (drop k xs) ++ drop (k + n) xs
cut n k xs = sym (take-drop n (drop k xs)) ∙ ap (λ l. take n (drop k xs) ++ l) (drop-drop n k xs)

pub cut_bytes :
    (m : Memory) (a len k : ℕ)
    → k ≤ len
    → read_bytes m a len ≡ take k (read_bytes m a len) ++ read_bytes m (a + k) (len - k)
cut_bytes m a len k le =
    sym (take-drop k (read_bytes m a len))
    ∙ ap (λ l. take k (read_bytes m a len) ++ l) (drop-read_bytes m a len k le)

-- 256 ^ n
abbrev pub range : ℕ → ℕ
range zero = 1
range (suc n) = 256 * range n

pub of_bytes-le_bytes : (n v : ℕ) → v < range n → of_bytes (le_bytes n v) ≡ v
of_bytes-le_bytes zero v fits = omega arith
of_bytes-le_bytes (suc n) v fits = omega (arith, of_bytes-le_bytes n (v / 256) (omega arith))

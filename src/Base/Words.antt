-- ===== src/Base/Words.antt =====
-- Texts and numbers as bytes: equality of texts, little-endian words, and texts that end in 0.
use Prim.Native.Nat.{ℕ, zero, suc, ◌+◌, ◌*◌, ◌/◌, ◌%◌, ◌^◌, ◌<◌}
use mathlib.Core.Path.{◌≡◌, refl, ap}
use mathlib.Core.Logic.{◌≢◌, inl, inr}
use mathlib.Core.List.{List, [], ◌∷◌, ◌++◌}
use mathlib.Core.Option.{Option, none, some}
use mathlib.Core.Bool.{Bool, true, false, ◌&&◌}
use native.Mathlib.Omega.{arith}
use native.Mathlib.Nat.{pow-suc}
use elevator.Base.Tests.{if◌then◌else◌, Option-cases, ◌==◌, ==-refl, ne→==_false}
use elevator.Base.Lists.{length, All}

abbrev pub Bytes : Type 0
Bytes = List ℕ

-- std::string's operator ==
unfoldable pub bytes_eq : Bytes → Bytes → Bool
bytes_eq [] [] = true
bytes_eq [] (y ∷ ys) = false
bytes_eq (x ∷ xs) [] = false
bytes_eq (x ∷ xs) (y ∷ ys) = (x == y) && bytes_eq xs ys

pub bytes_eq_refl : (s : Bytes) → bytes_eq s s ≡ true
unfolding bytes_eq
bytes_eq_refl [] = refl
bytes_eq_refl (x ∷ xs) = rw (==-refl x) (bytes_eq_refl xs)

pub bytes_eq→eq : (s t : Bytes) → bytes_eq s t ≡ true → s ≡ t
unfolding bytes_eq
bytes_eq→eq [] [] h = refl
bytes_eq→eq [] (y ∷ ys) h = cc
bytes_eq→eq (x ∷ xs) [] h = cc
bytes_eq→eq (x ∷ xs) (y ∷ ys) h = ground (arith, bytes_eq→eq xs ys)

-- The `n` bytes of a number in memory, lowest first.
unfoldable pub word : ℕ → ℕ → Bytes
word zero v = []
word (suc n) v = (v % 256) ∷ word n (v / 256)

-- memcpy of `n` bytes into a number, if there are as many.
unfoldable pub read_word : ℕ → Bytes → Option (ℕ × Bytes)
read_word zero bs = some (0, bs)
read_word (suc n) [] = none
read_word (suc n) (b ∷ bs) = elim (read_word n bs) [
  | none ↦ none
  | some (v, rest) ↦ some (b + 256 * v, rest)
]

-- memchr (…, 0, …), and the text up to there.
unfoldable pub read_text : Bytes → Option (Bytes × Bytes)
read_text [] = none
read_text (b ∷ bs) =
    let more : Option (Bytes × Bytes) = elim (read_text bs) [
      | none ↦ none
      | some (s, rest) ↦ some (b ∷ s, rest)
    ] in
    if b == 0 then some ([], bs) else more

pub length-word : (n v : ℕ) → length (word n v) ≡ n
unfolding word
length-word zero v = refl
length-word (suc n) v = ap suc (length-word n (v / 256))

-- A number that fits is read back, and the bytes behind it are left.
pub read_word-word :
    (n v : ℕ) (rest : Bytes) → v < 256 ^ n → read_word n (word n v ++ rest) ≡ some (v, rest)
unfolding read_word word
read_word-word zero v rest h = let e : v ≡ 0 = omega arith in rw e
read_word-word (suc n) v rest h =
    rw (read_word-word n (v / 256) rest (below h)) (ap (λ (m : ℕ). some (m, rest)) (omega arith))
  where
    below : v < 256 ^ suc n → v / 256 < 256 ^ n
    below h = let e = pow-suc 256 n in omega arith

-- A text with no 0 is read back.
pub read_text-append :
    (s rest : Bytes) → All (λ b. b ≢ 0) s → read_text (s ++ (0 ∷ rest)) ≡ some (s, rest)
unfolding read_text
read_text-append [] rest h = refl
read_text-append (b ∷ s) rest h = rw (ne→==_false b 0 h.0, read_text-append s rest h.1)

pub read_word-short : (n : ℕ) (bs : Bytes) → length bs < n → read_word n bs ≡ none
unfolding read_word
read_word-short zero bs h = absurd (omega arith)
read_word-short (suc n) [] h = refl
read_word-short (suc n) (b ∷ bs) h = rw (read_word-short n bs (omega arith))

pub length-read_word :
    (n v : ℕ) (bs rest : Bytes) → read_word n bs ≡ some (v, rest) → length bs ≡ n + length rest
unfolding read_word
length-read_word zero v bs rest h = ground arith
length-read_word (suc n) v [] rest h = cc
length-read_word (suc n) v (b ∷ bs) rest h = elim (Option-cases (read_word n bs)) [
  | inl e ↦ absurd (let k : none ≡ some (v, rest) = rw e at h in cc k)
  | inr ((u, r), e) ↦
      let k : some (b + 256 * u, r) ≡ some (v, rest) = rw e at h in
      ground (arith, k, length-read_word n u bs r e)
]

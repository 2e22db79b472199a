-- ===== src/Chunks/Utf8.antt =====
-- UTF-8, and what isContinuationByte and utf8SequenceLength tell of its bytes.
use data_info.Common.{
  ℕ, zero, suc, ◌≤◌, ◌<◌, ltb, leb, ◌==◌, Text, ◌≡◌, ◌⊎◌, inl, inr, refl, ap, sym, ◌∙◌, Bool, true,
  false, ◌&&◌, some, [], ◌∷◌, arith, Bool-cases,
}
use data_info.Chunks.{is_continuation, sequence_length}

-- UTF-8, by the ranges of its bytes: one that goes on with a character, and one that begins a character
-- of `n` bytes.
abbrev pub IsContinuation : ℕ → Type 0
IsContinuation b = (0x80 ≤ b) × (b < 0xC0)

abbrev pub Begins : ℕ → ℕ → Type 0
Begins n b =
    ((n ≡ 1) × (b < 0x80))
    ⊎ ((n ≡ 2) × (0xC0 ≤ b) × (b < 0xE0))
    ⊎ ((n ≡ 3) × (0xE0 ≤ b) × (b < 0xF0))
    ⊎ ((n ≡ 4) × (0xF0 ≤ b) × (b < 0xF8))

-- Empty, or begun by the first byte of a character.
unfoldable pub BeginsWell : Text → Type 0
BeginsWell [] = Unit
BeginsWell (b ∷ l) = (n : ℕ) × Begins n b

in_range : ℕ → Bool
in_range b = leb 0x80 b && ltb b 0xC0

same : Bool → Bool → Bool
same true b = b
same false true = false
same false false = true

all_below : ℕ → (ℕ → Bool) → Bool
all_below zero f = true
all_below (suc n) f = f n && all_below n f

all_below-at : (n : ℕ) (f : ℕ → Bool) (b : ℕ) → all_below n f ≡ true → b < n → f b ≡ true
unfolding all_below
all_below-at zero f b e h = absurd (omega (arith, h))
all_below-at (suc n) f b e h = elim (Bool-cases (b == n)) [
  | inl s ↦ ap f (here s) ∙ ground (arith, e)
  | inr o ↦ all_below-at n f b (ground (arith, e)) (ground (arith, o, h))
]
  where
    here : (b == n) ≡ true → b ≡ n
    here s = ground (arith, s)

-- The mask of isContinuationByte tells the range, for every byte.
is_continuation-range : (b : ℕ) → b < 256 → is_continuation b ≡ in_range b
unfolding same
is_continuation-range b h = equal (is_continuation b) (in_range b) (
    all_below-at 256 (λ x. same (is_continuation x) (in_range x)) b
      (unfold is_continuation in_range all_below in refl) h)
  where
    equal : (x y : Bool) → same x y ≡ true → x ≡ y
    equal true y e = sym e
    equal false true e = e
    equal false false e = refl

pub continues : (b : ℕ) → IsContinuation b → is_continuation b ≡ true
continues b h = is_continuation-range b (omega (arith, h)) ∙ (unfold in_range in ground (arith, h))

pub begins : (n b : ℕ) → Begins n b → is_continuation b ≡ false
begins n b h = is_continuation-range b (ground (arith, h)) ∙ (unfold in_range in ground (arith, h))

pub Begins-length : (n b : ℕ) → Begins n b → sequence_length b ≡ some n
unfolding sequence_length
Begins-length n b h = ground (arith, h)

-- ===== src/Chunks/Scan.antt =====
-- Where DecodeChunk's scan back stops.
use data_info.Common.{
  ℕ, zero, suc, ◌+◌, ◌≤◌, ◌<◌, ltb, Text, length, get_elem?, ◌≡◌, refl, ap, ◌∙◌, true, false, some,
  All, [], ◌∷◌, ◌++◌, arith, if◌then◌else◌,
}
use data_info.Chunks.{is_continuation, sequence_length, scan_back, ends_at, end_of}
use data_info.Chunks.Utf8.{IsContinuation, continues}

get_elem?-append : (l r : Text) (k : ℕ) → get_elem? (l ++ r) (length l + k) ≡ get_elem? r k
get_elem?-append [] r k = ap (get_elem? r) (omega arith)
get_elem?-append (x ∷ l) r k =
    ap (get_elem? (x ∷ (l ++ r))) {y = suc (length l + k)} (omega arith) ∙ get_elem?-append l r k

scan_back-stop :
    (l : Text) (start i b : ℕ)
    → get_elem? l i ≡ some b
    → is_continuation b ≡ false
    → scan_back l start i ≡ i
unfolding scan_back
scan_back-stop l start zero b e c = refl
scan_back-stop l start (suc i) b e c = ground (arith, e, c)

scan_back-step :
    (l : Text) (start i b : ℕ)
    → get_elem? l (suc i) ≡ some b
    → is_continuation b ≡ true
    → start ≤ i
    → scan_back l start (suc i) ≡ scan_back l start i
unfolding scan_back
scan_back-step l start i b e c h = ground (arith, e, c, h)

inside :
    (l : Text) (k : ℕ)
    → All IsContinuation l
    → k < length l
    → (b : ℕ) × ((get_elem? l k ≡ some b) × (is_continuation b ≡ true))
inside [] k h m = absurd (omega (arith, m))
inside (b ∷ l) zero h m = (b, (refl, continues b h.0))
inside (b ∷ l) (suc k) h m = inside l k h.1 (omega (arith, m))

pub length-append : (l r : Text) → length (l ++ r) ≡ length l + length r
length-append [] r = omega arith
length-append (x ∷ l) r = omega (arith, length-append l r)

-- The scan back stops at the last byte that is no continuation.
module _ (before : Text) (start first : ℕ) (rest : Text) (near : start ≤ length before)
    (is_first : is_continuation first ≡ false) (conts : All IsContinuation rest) where
  at_first : get_elem? (before ++ first ∷ rest) (length before) ≡ some first
  at_first =
      ap (get_elem? (before ++ first ∷ rest)) (omega arith)
      ∙ get_elem?-append before (first ∷ rest) 0

  pub scan_back-rest :
      (k : ℕ)
      → k ≤ length rest
      → scan_back (before ++ first ∷ rest) start (length before + k) ≡ length before
  scan_back-rest zero h =
      ap (scan_back (before ++ first ∷ rest) start) (omega arith)
      ∙ scan_back-stop _ start (length before) first at_first is_first
  scan_back-rest (suc k) h =
      let (b, (e, c)) = inside rest k conts (omega (arith, h)) in
      ap (scan_back (before ++ first ∷ rest) start) (omega arith)
      ∙ scan_back-step _ start (length before + k) b
          (ap (get_elem? (before ++ first ∷ rest)) (omega arith)
            ∙ get_elem?-append before (first ∷ rest) (suc k)
            ∙ e)
          c (omega (arith, near))
      ∙ scan_back-rest k (omega (arith, h))

  pub end_of-first :
      (n : ℕ)
      → sequence_length first ≡ some n
      → end_of (before ++ first ∷ rest) start (length before)
        ≡ (if ltb (suc (length rest)) n then length before else length (before ++ first ∷ rest))
  unfolding end_of ends_at
  end_of-first n e = ground (arith, at_first, e, near, length-append before (first ∷ rest))

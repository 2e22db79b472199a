-- ===== src/Chunks/Lines.antt =====
-- Where seekLineStart stops.
use data_info.Common.{
  ℕ, zero, suc, ◌-◌, ◌≤◌, ◌<◌, leb, Text, length, get_elem?, ◌≡◌, ◌⊎◌, inl, inr, refl, ap, ◌∙◌,
  Bool, true, false, arith, if◌then◌else◌,
}
use data_info.Chunks.{is_newline, seek_from, seek_line_start}

-- `i` is a line's start at or before `p`: 0, or behind a newline other than the first byte; and from
-- `i` to `p` there is no newline.
pub record LineStart (chunk : Text) (p i : ℕ) : Type 0 where
  pub near : i ≤ suc p
  pub behind : (i ≡ 0) ⊎ ((1 < i) × (is_newline (get_elem? chunk (i - 1)) ≡ true))
  pub last : (k : ℕ) → 0 < k → i ≤ k → k ≤ p → is_newline (get_elem? chunk k) ≡ false

seek_from-LineStart : (chunk : Text) (p : ℕ) → LineStart chunk p (seek_from chunk p)
unfolding seek_from
seek_from-LineStart chunk zero = record {
  near = omega arith;
  behind = inl refl;
  last = λ k a b c. absurd (omega (arith, a, c));
}
seek_from-LineStart chunk (suc p) =
    chosen (is_newline (get_elem? chunk (suc p))) refl (seek_from-LineStart chunk p)
  where
    chosen :
        (b : Bool)
        → is_newline (get_elem? chunk (suc p)) ≡ b
        → LineStart chunk p (seek_from chunk p)
        → LineStart chunk (suc p) (if b then suc (suc p) else seek_from chunk p)
    chosen true e h = record {
      near = omega arith;
      behind =
          let back : suc (suc p) - 1 ≡ suc p = omega arith in
          inr (omega arith, ap (λ x. is_newline (get_elem? chunk x)) back ∙ e);
      last = λ k a b c. absurd (omega (arith, b, c));
    }
    chosen false e h = record {
      near = omega (arith, h.near);
      behind = h.behind;
      last = λ k a b c. at k a b (split k c);
    }
      where
        split : (k : ℕ) → k ≤ suc p → (k ≤ p) ⊎ (k ≡ suc p)
        split k c = ground (arith, c)

        at :
            (k : ℕ)
            → 0 < k
            → seek_from chunk p ≤ k
            → (k ≤ p) ⊎ (k ≡ suc p)
            → is_newline (get_elem? chunk k) ≡ false
        at k a b (inl c) = h.last k a b c
        at k a b (inr c) = ap (λ x. is_newline (get_elem? chunk x)) c ∙ e

-- seekLineStart answers with the start of the line that the position is in, or that begins behind it
-- if the position holds a newline: 0, or the offset behind a newline other than the chunk's first byte,
-- with no newline from there to the position. A position past the end counts as the last byte.
pub seek_line_start-LineStart :
    (chunk : Text) (position : ℕ)
    → LineStart chunk
        (if leb (length chunk) position then length chunk - 1 else position)
        (seek_line_start chunk position)
unfolding seek_line_start
seek_line_start-LineStart chunk position = seek_from-LineStart chunk _

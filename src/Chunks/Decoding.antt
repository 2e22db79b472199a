-- ===== src/Chunks/Decoding.antt =====
-- What DecodeChunk keeps of a chunk that begins or ends within a character.
use mathlib.Core.List.{append_assoc}
use data_info.Common.{
  ℕ, zero, suc, ◌+◌, ◌-◌, ◌≤◌, ltb, leb, Text, length, take, drop, ◌≡◌, refl, ap, sym, ◌∙◌, Bool,
  true, false, All, [], ◌∷◌, ◌++◌, arith, if◌then◌else◌,
}
use data_info.Chunks.{leading, scan_back, end_of, slice, between, decode_chunk}
use data_info.Chunks.Utf8.{IsContinuation, Begins, BeginsWell, continues, begins, Begins-length}
use data_info.Chunks.Scan.{length-append, scan_back-rest, end_of-first}

leading-lem :
    (k : ℕ) (c l : Text)
    → All IsContinuation c
    → length c ≤ k
    → BeginsWell l
    → leading k (c ++ l) ≡ length c
unfolding leading BeginsWell
leading-lem zero [] l h m f = refl
leading-lem zero (b ∷ c) l h m f = absurd (omega (arith, m))
leading-lem (suc k) [] [] h m f = refl
leading-lem (suc k) [] (b ∷ l) h m (n, f) = ground (arith, begins n b f)
leading-lem (suc k) (b ∷ c) l h m f =
    ground (arith, continues b h.0, leading-lem k c l h.1 (omega (arith, m)) f)

drop-append : (l r : Text) → drop (length l) (l ++ r) ≡ r
drop-append [] r = refl
drop-append (x ∷ l) r = drop-append l r

take-append : (l r : Text) → take (length l) (l ++ r) ≡ l
take-append [] r = refl
take-append (x ∷ l) r = ap (λ t. x ∷ t) (take-append l r)

-- What lies between the two ends.
between-middle :
    (a m z : Text) (start end : ℕ)
    → start ≡ length a
    → end ≡ length a + length m
    → between (a ++ (m ++ z)) start end ≡ m
unfolding between slice
between-middle a [] z start end h k = ground (arith, h, k)
between-middle a (x ∷ m) z start end h k = rw filled middle
  where
    filled : leb end start ≡ false
    filled = ground (arith, h, k)

    amount : end - start ≡ length (x ∷ m)
    amount = omega (arith, h, k)

    middle : take (end - start) (drop start (a ++ ((x ∷ m) ++ z))) ≡ x ∷ m
    middle =
        ap (λ s. take (end - start) (drop s (a ++ ((x ∷ m) ++ z)))) h
        ∙ ap (take (end - start)) (drop-append a ((x ∷ m) ++ z))
        ∙ ap (λ j. take j ((x ∷ m) ++ z)) amount
        ∙ take-append (x ∷ m) z

append-nil : (l : Text) → l ++ [] ≡ l
append-nil [] = refl
append-nil (x ∷ l) = ap (λ t. x ∷ t) (append-nil l)

-- The part of a chunk from `start` to the end that the scan back finds.
kept : Text → ℕ → ℕ → Text
kept l start last = between l start (end_of l start (scan_back l start last))

decode_chunk-kept :
    (l : Text) (trim_leading : Bool) (last : ℕ)
    → length l ≡ suc last
    → decode_chunk l trim_leading ≡ kept l (if trim_leading then leading 3 l else 0) last
unfolding decode_chunk kept
decode_chunk-kept [] trim_leading last h = absurd (omega (arith, h))
decode_chunk-kept (b ∷ l) trim_leading last h =
    ap (kept (b ∷ l) (if trim_leading then leading 3 (b ∷ l) else 0)) {x = length l} {y = last}
      (omega (arith, h))

module _ (front body : Text) (first : ℕ) (rest : Text) (n : ℕ) (is_first : Begins n first)
    (conts : All IsContinuation rest) where
  kept-lem :
      kept (front ++ (body ++ first ∷ rest)) (length front) (length (front ++ body) + length rest)
      ≡ body ++ (if ltb (suc (length rest)) n then [] else first ∷ rest)
  unfolding kept
  kept-lem = ap (between _ (length front)) found ∙ cut (ltb (suc (length rest)) n)
    where
      again : front ++ (body ++ first ∷ rest) ≡ (front ++ body) ++ first ∷ rest
      again = sym (append_assoc front body (first ∷ rest))

      near : length front ≤ length (front ++ body)
      near = omega (arith, length-append front body)

      found :
          end_of (front ++ (body ++ first ∷ rest)) (length front) (
            scan_back
              (front ++ (body ++ first ∷ rest))
              (length front)
              (length (front ++ body) + length rest))
          ≡ (if ltb (suc (length rest)) n
              then length (front ++ body)
              else length ((front ++ body) ++ first ∷ rest))
      found =
          ap
            (λ l.
              end_of l (length front)
                (scan_back l (length front) (length (front ++ body) + length rest)))
            again
          ∙ ap (end_of ((front ++ body) ++ first ∷ rest) (length front)) (
              scan_back-rest (front ++ body) (length front) first rest near
                (begins n first is_first) conts (length rest) (omega arith))
          ∙ end_of-first (front ++ body) (length front) first rest near (begins n first is_first)
              conts n (Begins-length n first is_first)

      cut :
          (short : Bool)
          → between
              (front ++ (body ++ first ∷ rest))
              (length front)
              (if short then length (front ++ body) else length ((front ++ body) ++ first ∷ rest))
            ≡ body ++ (if short then [] else first ∷ rest)
      cut true =
          between-middle front body (first ∷ rest) _ _ refl (length-append front body)
          ∙ sym (append-nil body)
      cut false =
          ap (λ t. between (front ++ t) (length front) (length ((front ++ body) ++ first ∷ rest)))
            (sym (append-nil (body ++ first ∷ rest)))
          ∙ between-middle front (body ++ first ∷ rest) [] _ _ refl
              (ap length (sym again) ∙ length-append front (body ++ first ∷ rest))

-- DecodeChunk on a chunk that begins with at most three bytes that go on with a character, and whose
-- last character begins with the byte `first`, of `n` bytes when whole: the bytes at the front are
-- dropped if leading ones are to be trimmed, and the last character is dropped if bytes of it are
-- missing. Every other byte is kept, in order.
pub decode_chunk-characters :
    (front body : Text) (first : ℕ) (rest : Text) (n : ℕ) (trim_leading : Bool)
    → All IsContinuation front
    → length front ≤ 3
    → BeginsWell (body ++ first ∷ rest)
    → Begins n first
    → All IsContinuation rest
    → decode_chunk (front ++ (body ++ first ∷ rest)) trim_leading
      ≡ (if trim_leading then [] else front)
        ++ (body ++ (if ltb (suc (length rest)) n then [] else first ∷ rest))
decode_chunk-characters front body first rest n trim_leading h few well f conts =
    decode_chunk-kept _ trim_leading (length (front ++ body) + length rest) size
    ∙ trimmed trim_leading
  where
    size : length (front ++ (body ++ first ∷ rest)) ≡ suc (length (front ++ body) + length rest)
    size = omega (
      arith,
      length-append front body,
      length-append body (first ∷ rest),
      length-append front (body ++ first ∷ rest),
    )

    trimmed :
        (trim : Bool)
        → kept
            (front ++ (body ++ first ∷ rest))
            (if trim then leading 3 (front ++ (body ++ first ∷ rest)) else 0)
            (length (front ++ body) + length rest)
          ≡ (if trim then [] else front)
            ++ (body ++ (if ltb (suc (length rest)) n then [] else first ∷ rest))
    trimmed true =
        ap (λ s. kept (front ++ (body ++ first ∷ rest)) s (length (front ++ body) + length rest))
          (leading-lem 3 front (body ++ first ∷ rest) h few well)
        ∙ kept-lem front body first rest n f conts
    trimmed false =
        ap (λ l. kept l 0 (length (front ++ body) + length rest))
          (sym (append_assoc front body (first ∷ rest)))
        ∙ kept-lem [] (front ++ body) first rest n f conts
        ∙ append_assoc front body _

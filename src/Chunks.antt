-- ===== src/Chunks.antt =====
-- internal/service/chunks.go: reading a file in chunks, and a tabular file in pages of whole lines.
-- Text and buffers are bytes. Where the plan of a page computes on an int64 it wraps around, since page
-- and size are the client's and only known to be positive; a position in a chunk is a natural number,
-- and one that would be negative (an empty chunk) reads as 0, which the code treats alike.
pub mod Pages
pub mod Lines
pub mod Utf8
pub mod Scan
pub mod Decoding
mod Tests
use Prim.Native.Nat.{bit_and}
use data_info.Common.{
  ℕ, zero, suc, ◌+◌, ◌-◌, ◌*◌, ◌/◌, ◌%◌, ltb, leb, ◌==◌, Text, Bool, true, false, not, ◌&&◌, ◌||◌,
  Option, none, some, List, [], ◌∷◌, length, take, drop, get_elem?, if◌then◌else◌,
}

-- isContinuationByte
unfoldable pub is_continuation : ℕ → Bool
is_continuation b = bit_and b 0xC0 == 0x80

-- utf8SequenceLength: none where the byte can start no sequence.
unfoldable pub sequence_length : ℕ → Option ℕ
sequence_length b =
    if ltb b 0x80
    then some 1
    else if ltb b 0xC0
    then none
    else if ltb b 0xE0
    then some 2
    else if ltb b 0xF0
    then some 3
    else if ltb b 0xF8
    then some 4
    else none

-- How many leading continuation bytes are dropped, three at most.
leading : ℕ → Text → ℕ
unfolding is_continuation
leading zero buffer = 0
leading (suc n) [] = 0
leading (suc n) (b ∷ buffer) =
    let more = suc (leading n buffer) in if is_continuation b then more else 0

-- The index where the scan back from `last` stops: a byte that is no continuation, or `start`.
pub scan_back : Text → ℕ → ℕ → ℕ
unfolding is_continuation
scan_back buffer start zero = 0
scan_back buffer start (suc last) =
    let back = scan_back buffer start last in
    elim (get_elem? buffer (suc last)) [
      | none ↦ suc last
      | some b ↦ if ltb start (suc last) && is_continuation b then back else suc last
    ]

ends_at : Text → ℕ → Option ℕ → ℕ → ℕ
ends_at buffer last none end = end
ends_at buffer last (some needed) end = if ltb (length buffer) (last + needed) then last else end

pub end_of : Text → ℕ → ℕ → ℕ
unfolding sequence_length ends_at
end_of buffer start last = elim (get_elem? buffer last) [
  | none ↦ length buffer
  | some b ↦
      if leb start last
      then ends_at buffer last (sequence_length b) (length buffer)
      else length buffer
]

-- chunk[start:end]
unfoldable pub slice : Text → ℕ → ℕ → Text
slice chunk start end = take (end - start) (drop start chunk)

between : Text → ℕ → ℕ → Text
unfolding slice
between chunk start end = if leb end start then [] else slice chunk start end

unfoldable pub decode_chunk : Text → Bool → Text
unfolding leading scan_back end_of between
decode_chunk [] trim_leading = []
decode_chunk (b ∷ buffer) trim_leading =
    let start = if trim_leading then leading 3 (b ∷ buffer) else 0 in
    between (b ∷ buffer) start
      (end_of (b ∷ buffer) start (scan_back (b ∷ buffer) start (length buffer)))

pub record TabularPage : Type 0 where
  pub page : ℕ
  pub pages : ℕ
  pub load_offset : ℕ
  pub load_length : ℕ

-- An int64 is its 64 bits: from `half` on it is negative.
abbrev pub modulus : ℕ
modulus = 18446744073709551616

abbrev pub half : ℕ
half = 9223372036854775808

unfoldable pub wrap : ℕ → ℕ
wrap n = n % modulus

-- x - 1
unfoldable pub one_less : ℕ → ℕ
unfolding wrap
one_less n = wrap (n + 18446744073709551615)

-- x / size, toward 0, for a positive size.
unfoldable pub quotient : ℕ → ℕ → ℕ
unfolding wrap
quotient n size = if ltb n half then n / size else wrap (modulus - (modulus - n) / size)

unfoldable pub page_count : ℕ → ℕ → ℕ
unfolding wrap one_less quotient
page_count size file_size =
    if size == 0 || leb half size then 0 else quotient (one_less (wrap (file_size + size))) size

-- PlanTabularPage: `page` counts from one. Beyond the first page the read starts a page early.
unfoldable pub plan_tabular_page : ℕ → ℕ → ℕ → TabularPage
unfolding page_count wrap one_less
plan_tabular_page page size file_size =
    let zero_based = one_less page in
    let first = zero_based == 0 in
    let load_page = if first then zero_based else one_less zero_based in
    record {
      page = zero_based;
      pages = page_count size file_size;
      load_offset = if load_page == 0 then 0 else wrap (size * load_page);
      load_length = if first then size else wrap (size * 2);
    }

abbrev newline : ℕ
newline = 10

pub is_newline : Option ℕ → Bool
is_newline none = false
is_newline (some b) = b == newline

-- The loop of seekLineStart: `for i := position; i > 0; i--`.
pub seek_from : Text → ℕ → ℕ
unfolding is_newline
seek_from chunk zero = 0
seek_from chunk (suc i) =
    let back = seek_from chunk i in
    if is_newline (get_elem? chunk (suc i)) then suc (suc i) else back

-- seekLineStart: the offset behind the last newline at or before the position.
unfoldable pub seek_line_start : Text → ℕ → ℕ
unfolding seek_from
seek_line_start chunk position =
    seek_from chunk (if leb (length chunk) position then length chunk - 1 else position)

-- Where the page's lines begin and end in its chunk.
unfoldable pub page_start : Text → ℕ → TabularPage → ℕ
unfolding seek_line_start
page_start chunk size page = seek_line_start chunk (if page.page == 0 then 0 else size - 1)

unfoldable pub page_end : Text → TabularPage → ℕ
unfolding seek_line_start
page_end chunk page =
    if page.page + 1 == page.pages then length chunk else seek_line_start chunk (length chunk - 1)

unfoldable pub trim_to_whole_lines : Text → ℕ → TabularPage → Text
unfolding page_start page_end between
trim_to_whole_lines [] size page = []
trim_to_whole_lines (c ∷ chunk) size page =
    between (c ∷ chunk) (page_start (c ∷ chunk) size page) (page_end (c ∷ chunk) page)

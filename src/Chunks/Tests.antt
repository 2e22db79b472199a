-- ===== src/Chunks/Tests.antt =====
-- The pages of a file of ten bytes, three at a time, and a line of a small chunk.
use data_info.Common.{◌+◌, ◌*◌, ◌≤◌, ◌<◌, ◌≡◌, arith, [], ◌∷◌, inl, inr, refl, true}
use data_info.Chunks.Lines.{LineStart, seek_line_start-LineStart}
use data_info.Chunks.Decoding.{decode_chunk-characters}
use data_info.Chunks.Utf8.{BeginsWell}
use data_info.Chunks.{decode_chunk, seek_line_start, page_count, plan_tabular_page}
use data_info.Chunks.Pages.{page_count-covers, plan_tabular_page-covers}

page_count-covers_example : (10 ≤ page_count 3 10 * 3) × (page_count 3 10 * 3 < 10 + 3)
page_count-covers_example = page_count-covers 3 10 (omega arith) (omega arith) (omega arith)

plan_tabular_page-covers_example :
    (plan_tabular_page 3 3 10).load_offset + (plan_tabular_page 3 3 10).load_length ≡ 3 * 3
plan_tabular_page-covers_example =
    (plan_tabular_page-covers 3 3 10 (omega arith) (omega arith) (omega arith) (omega arith)).0

-- "ab", a newline, "cd": the line at 4 starts at 3.
seek_line_start-LineStart_example : LineStart (97 ∷ 98 ∷ 10 ∷ 99 ∷ 100 ∷ []) 4 3
unfolding seek_line_start
seek_line_start-LineStart_example = seek_line_start-LineStart (97 ∷ 98 ∷ 10 ∷ 99 ∷ 100 ∷ []) 4

-- A chunk that begins with the end of one character and ends with the start of another: only the whole
-- one between them is kept.
decode_chunk-characters_example : decode_chunk (0xA9 ∷ 97 ∷ 0xC3 ∷ []) true ≡ 97 ∷ []
unfolding BeginsWell
decode_chunk-characters_example =
    decode_chunk-characters (0xA9 ∷ []) (97 ∷ []) 0xC3 [] 2 true ((omega arith, omega arith), tt)
      (omega arith) (1, inl (refl, omega arith)) (inr (inl (refl, omega arith, omega arith))) tt

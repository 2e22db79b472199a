-- ===== src/Chunks/Pages.antt =====
-- The plan of the read that covers a page.
use data_info.Common.{
  ℕ, zero, suc, ◌+◌, ◌-◌, ◌*◌, ◌/◌, ◌≤◌, ◌<◌, leb, ◌==◌, ◌||◌, ◌≡◌, ap, ◌∙◌, Bool, false, arith,
  if◌then◌else◌,
}
use data_info.Chunks.{modulus, half, wrap, one_less, quotient, page_count, plan_tabular_page}

wrap_small : (n : ℕ) → n < modulus → wrap n ≡ n
unfolding wrap
wrap_small n h = ground (arith, h)

one_less_small : (n : ℕ) → 0 < n → n < modulus → one_less n ≡ n - 1
unfolding one_less wrap
one_less_small n h k = ground (arith, h, k)

quotient_small : (n size : ℕ) → n < half → quotient n size ≡ n / size
unfolding quotient
quotient_small n size h = ground (arith, h)

page_count_small :
    (size file_size : ℕ)
    → 0 < size
    → size < half
    → file_size + size ≤ half
    → page_count size file_size ≡ (file_size + size - 1) / size
unfolding page_count
page_count_small size file_size h b k =
    fits (size == 0 || leb half size) (ground (arith, h, b)) ∙ computed
  where
    sum : one_less (wrap (file_size + size)) ≡ file_size + size - 1
    sum =
        ap one_less (wrap_small (file_size + size) (omega (arith, k)))
        ∙ one_less_small (file_size + size) (omega (arith, h)) (omega (arith, k))

    computed : quotient (one_less (wrap (file_size + size))) size ≡ (file_size + size - 1) / size
    computed =
        ap (λ n. quotient n size) sum
        ∙ quotient_small (file_size + size - 1) size (omega (arith, h, k))

    fits :
        (c : Bool)
        → c ≡ false
        → (if c then 0 else quotient (one_less (wrap (file_size + size))) size)
          ≡ quotient (one_less (wrap (file_size + size))) size
    fits c e = ground (arith, e)

divided :
    (size file_size : ℕ)
    → 0 < size
    → (file_size ≤ (file_size + size - 1) / size * size)
      × ((file_size + size - 1) / size * size < file_size + size)
divided zero file_size h = ground arith
divided (suc size) file_size h = (grind arith, grind arith)

-- For a positive int64 size whose sum with the file's size is at most 2 ^ 63, so that the code's int64 sum
-- does not wrap around, the pages cover the file and none is empty: the file ends in the last page.
pub page_count-covers :
    (size file_size : ℕ)
    → 0 < size
    → size < half
    → file_size + size ≤ half
    → (file_size ≤ page_count size file_size * size)
      × (page_count size file_size * size < file_size + size)
page_count-covers size file_size h b k =
    rw (page_count_small size file_size h b k) (divided size file_size h)

-- When the end of a page (counted from one) is within int64, the read for the page ends there, and
-- begins where the page before it begins, or at the page itself if it is the first: no product of the
-- plan wraps around.
pub plan_tabular_page-covers :
    (page size file_size : ℕ)
    → 0 < page
    → page < half
    → size < half
    → page * size < half
    → let plan = plan_tabular_page page size file_size in
      (plan.load_offset + plan.load_length ≡ page * size)
      × (plan.load_offset ≡ (page - 2) * size)
      × (plan.page + 1 ≡ page)
unfolding plan_tabular_page
plan_tabular_page-covers zero size file_size h k s f = elim h [ ]
plan_tabular_page-covers (suc zero) size file_size h k s f =
    (ground (arith, one), ground (arith, one), ground (arith, one))
  where
    one : one_less 1 ≡ 0
    one = one_less_small 1 (omega arith) (omega arith)
plan_tabular_page-covers (suc (suc n)) size file_size h k s f = (
  ground (arith, first, second, offset, double, total),
  ground (arith, first, second, offset, comm, zeroed),
  ground (arith, first),
)
  where
    first : one_less (suc (suc n)) ≡ suc n
    first = one_less_small (suc (suc n)) (omega arith) (omega (arith, k)) ∙ omega arith

    second : one_less (suc n) ≡ n
    second = one_less_small (suc n) (omega arith) (omega (arith, k)) ∙ omega arith

    total : size * n + size * 2 ≡ suc (suc n) * size
    total = grind arith

    comm : size * n ≡ n * size
    comm = grind arith

    offset : wrap (size * n) ≡ size * n
    offset = wrap_small (size * n) (omega (arith, total, f))

    double : wrap (size * 2) ≡ size * 2
    double = wrap_small (size * 2) (omega (arith, total, f))

    zeroed : n ≡ 0 → n * size ≡ 0
    zeroed e = rw e (grind arith)

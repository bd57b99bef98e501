-- ===== src/Pagination/Pages.antt =====
-- What an accepted page query is, and which items its page shows.
use booking_flight_system_mi.Base.{
  ℕ, zero, suc, ◌+◌, ◌-◌, ◌*◌, ◌/◌, ◌≤◌, ◌<◌, ◌≡◌, refl, ◌↔◌, ◌||◌, not, true, Option, none, some,
  all, Bool-cases, inl, inr, arith, leb→le, leb, ◌&&◌, and-right,
}
use native.Mathlib.Nat.{le-div_iff_mul-le}
use booking_flight_system_mi.Money.{max_safe_integer}
use booking_flight_system_mi.Requests.{
  Value, undefined, null, boolean, number, string, array, object, trim, is_empty, success,
}
use booking_flight_system_mi.Pagination.{
  PageQuery, is_digit, number_of, is_at_most, parse_pagination_value, page_query_of,
  parse_page_query, to_pagination, max_page_size,
}

-- A page from 1 on, 1 to 100 items long; its offset is that of the earlier pages, and exact.
pub record IsPageQuery (q : PageQuery) : Type 0 where
  pub page_low : 1 ≤ q.page
  pub size_low : 1 ≤ q.page_size
  pub size_high : q.page_size ≤ 100
  pub limited : q.limit ≡ q.page_size
  pub skipped : q.offset + q.page_size ≡ q.page * q.page_size
  pub exact : q.offset ≤ max_safe_integer

abbrev InRange : ℕ → Option ℕ → Option ℕ → Type 0
InRange default maximum none = Unit
InRange default maximum (some n) = (1 ≤ n) × (is_at_most maximum n ≡ true)

parsed-InRange :
    (v : Value) (default : ℕ) (maximum : Option ℕ)
    → 1 ≤ default
    → is_at_most maximum default ≡ true
    → InRange default maximum (parse_pagination_value v default maximum)
unfolding parse_pagination_value
parsed-InRange undefined default maximum h k = (h, k)
parsed-InRange (string raw) default maximum h k =
    elim (Bool-cases (is_empty (trim raw) || not (all is_digit (trim raw)))) [
      | inl y ↦ rw y tt
      | inr n ↦
          let value = number_of 0 (trim raw) in
          elim (Bool-cases
            (leb value max_safe_integer && leb 1 value && is_at_most maximum value)) [
              | inl y ↦ rw (n, y) (ground arith, and-right _ _ y)
              | inr m ↦ rw (n, m) tt
            ]
    ]
parsed-InRange null default maximum h k = tt
parsed-InRange (boolean b) default maximum h k = tt
parsed-InRange (number n) default maximum h k = tt
parsed-InRange (array vs) default maximum h k = tt
parsed-InRange (object fs) default maximum h k = tt

page_query_of-IsPageQuery :
    (page page_size : Option ℕ) (q : PageQuery)
    → InRange 1 none page
    → InRange 20 (some max_page_size) page_size
    → page_query_of page page_size ≡ success q
    → IsPageQuery q
unfolding page_query_of
page_query_of-IsPageQuery (some zero) (some n) q h k e = absurd (omega (arith, h.0))
page_query_of-IsPageQuery (some (suc p)) (some n) q h k e =
    let low = k.0 in
    let high = leb→le n max_page_size k.1 in
    let its_page : q.page ≡ suc p = ground arith in
    let its_size : q.page_size ≡ n = ground arith in
    let its_offset : q.offset ≡ (suc p - 1) * n = ground arith in
    let earlier : suc p - 1 ≡ p = omega arith in
    let skip : (suc p - 1) * n + n ≡ suc p * n = rw earlier (omega arith) in
    record {
      page_low = ground arith;
      size_low = ground arith;
      size_high = ground arith;
      limited = ground arith;
      skipped = rw (its_page, its_size, its_offset) skip;
      exact = ground arith;
    }
page_query_of-IsPageQuery none page_size q h k e = absurd (cc)
page_query_of-IsPageQuery (some p) none q h k e = absurd (cc)

-- An accepted page query names a page from 1 on, of 1 to 100 items; its offset is the number of
-- items on the earlier pages, and a safe integer.
pub parse_page_query-IsPageQuery :
    (raw_page raw_page_size : Value) (q : PageQuery)
    → parse_page_query raw_page raw_page_size ≡ success q
    → IsPageQuery q
unfolding parse_page_query
parse_page_query-IsPageQuery raw_page raw_page_size q e =
    page_query_of-IsPageQuery (parse_pagination_value raw_page 1 none)
      (parse_pagination_value raw_page_size 20 (some max_page_size)) q
      (parsed-InRange raw_page 1 none (omega arith) refl)
      (parsed-InRange raw_page_size 20 (some max_page_size) (omega arith) refl) e

below_iff :
    (page size offset total : ℕ)
    → 1 ≤ size
    → offset + size ≡ page * size
    → (page ≤ (total + (size - 1)) / size) ↔ (offset < total)
below_iff page size offset total h e =
    let (there, back) =
      le-div_iff_mul-le {k = size} {x = page} {y = total + (size - 1)} (omega arith) in
    (λ k. let times = there k in omega arith, λ k. back (omega arith))

-- The page of an accepted query is one of the pages of the answer exactly when it shows an item:
-- `totalPages` counts the pages that do.
pub to_pagination-total_pages :
    (raw_page raw_page_size : Value) (q : PageQuery) (total_items : ℕ)
    → parse_page_query raw_page raw_page_size ≡ success q
    → (q.page ≤ (to_pagination q total_items).total_pages) ↔ (q.offset < total_items)
unfolding to_pagination
to_pagination-total_pages raw_page raw_page_size q total_items e =
    let its = parse_page_query-IsPageQuery raw_page raw_page_size q e in
    below_iff q.page q.page_size q.offset total_items its.size_low its.skipped

-- ===== src/Pagination.antt =====
-- api/src/pagination.ts: the page of a list, from the query string to the repository's offset.
pub mod Pages
use booking_flight_system_mi.Base.{
  ℕ, zero, suc, ◌+◌, ◌-◌, ◌*◌, ◌/◌, Bool, true, false, not, ◌&&◌, ◌||◌, Option, none, some, List,
  [], ◌∷◌, ◌++◌, all, leb, ltb, if◌then◌else◌, Text, text,
}
use booking_flight_system_mi.Money.{max_safe_integer}
use booking_flight_system_mi.Requests.{
  Value, undefined, string, trim, is_empty, ValidationIssue, issue, ValidationResult, success,
  failure,
}

abbrev pub default_page : ℕ
default_page = 1

abbrev pub default_page_size : ℕ
default_page_size = 20

abbrev pub max_page_size : ℕ
max_page_size = 100

pub record PageQuery : Type 0 where
  pub page : ℕ
  pub page_size : ℕ
  pub limit : ℕ
  pub offset : ℕ

pub record Pagination : Type 0 where
  pub page : ℕ
  pub page_size : ℕ
  pub total_items : ℕ
  pub total_pages : ℕ

abbrev page_issue : ValidationIssue
page_issue = issue (text "page") (text "INVALID_PAGE")

abbrev page_size_issue : ValidationIssue
page_size_issue = issue (text "pageSize") (text "INVALID_PAGE_SIZE")

abbrev pub is_digit : ℕ → Bool
is_digit c = leb b'0' c && leb c b'9'

-- `Number` of decimal digits. It rounds above 2^53, but never to a safe integer.
unfoldable pub number_of : ℕ → Text → ℕ
number_of value [] = value
number_of value (c ∷ cs) = number_of (10 * value + (c - b'0')) cs

abbrev pub is_at_most : Option ℕ → ℕ → Bool
is_at_most none n = true
is_at_most (some maximum) n = leb n maximum

-- The value, or `none` for an issue.
unfoldable pub parse_pagination_value : Value → ℕ → Option ℕ → Option ℕ
parse_pagination_value undefined default maximum = some default
parse_pagination_value (string raw) default maximum =
    let value = number_of 0 (trim raw) in
    if is_empty (trim raw) || not (all is_digit (trim raw))
    then none
    else (if leb value max_safe_integer && leb 1 value && is_at_most maximum value
        then some value
        else none)
parse_pagination_value _ default maximum = none

abbrev when_missing : Option ℕ → ValidationIssue → List ValidationIssue
when_missing none i = i ∷ []
when_missing (some n) i = []

unfoldable pub page_query_of : Option ℕ → Option ℕ → ValidationResult PageQuery
page_query_of (some page) (some page_size) =
    let offset = (page - 1) * page_size in
    if leb offset max_safe_integer
    then success (record { page = page; page_size = page_size; limit = page_size; offset = offset })
    else failure (page_issue ∷ [])
page_query_of page page_size =
    failure (when_missing page page_issue ++ when_missing page_size page_size_issue)

unfoldable pub parse_page_query : Value → Value → ValidationResult PageQuery
parse_page_query raw_page raw_page_size =
    page_query_of (parse_pagination_value raw_page default_page none)
      (parse_pagination_value raw_page_size default_page_size (some max_page_size))

-- `Math.ceil(totalItems / pageSize)`, which the source's division gives exactly for any total that
-- a table can have.
unfoldable pub to_pagination : PageQuery → ℕ → Pagination
to_pagination q total_items = record {
  page = q.page;
  page_size = q.page_size;
  total_items = total_items;
  total_pages = (total_items + (q.page_size - 1)) / q.page_size;
}

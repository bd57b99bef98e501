-- ===== src/Tests/Inputs.antt =====
-- The theorems on seat layouts, page queries and payment bodies at concrete inputs.
use booking_flight_system_mi.Base.{
  ℕ, ◌≤◌, ◌<◌, ◌≡◌, ◌↔◌, refl, List, [], ◌∷◌, Text, text, decimal, decimal_from, same,
}
use booking_flight_system_mi.Money.{whole}
use booking_flight_system_mi.Store.{economy, business}
use booking_flight_system_mi.Requests.{
  Value, object, field, end, string, number, array, cons, nil, success, is_plain_object, property,
  property_of, is_non_empty_string, trim, trim_start,
}
use booking_flight_system_mi.Bookings.Validation.{fare_class_of}
use booking_flight_system_mi.Aircraft.Layout.{
  LayoutSeat, layout_seat, repeats, seat_letters_issues, cabin_issues, cabins_issues, seat_count,
  overlap_issues, find_overlaps, total_seats, expand_rows, expand_cabins, expand_valid, expand_raw,
  expand_seat_layout,
}
use booking_flight_system_mi.Aircraft.Layout.Accepted.{IsLayout, expand_seat_layout-IsLayout}
use booking_flight_system_mi.Pagination.{
  PageQuery, parse_page_query, parse_pagination_value, number_of, page_query_of, to_pagination,
}
use booking_flight_system_mi.Pagination.Pages.{
  IsPageQuery, parse_page_query-IsPageQuery, to_pagination-total_pages,
}
use booking_flight_system_mi.Money.{vnd_currency}
use booking_flight_system_mi.Payments.Validation.{
  currency_of, PaymentInput, validate_payment_input, parsed_payment, amount_issues, is_currency,
}
use booking_flight_system_mi.Payments.Validation.Accepted.{
  IsPayment, validate_payment_input-IsPayment,
}

abbrev cabin_value : Text → ℕ → ℕ → Text → Value
cabin_value fare_class from to letters = object (
    field (text "fareClass") (string fare_class) (
      field (text "fromRow") (number (whole from)) (
        field (text "toRow") (number (whole to))
          (field (text "seatLetters") (string letters) end))))

-- A business row with two seats before two economy rows with one.
abbrev layout : Value
layout = object (
    field (text "cabins")
      (array (
        cons (cabin_value (text "BUSINESS") 1 1 (text "AC"))
          (cons (cabin_value (text "ECONOMY") 2 3 (text "B")) nil)))
      end)

abbrev layout_seats : List LayoutSeat
layout_seats =
    layout_seat business 1 b'A'
    ∷ layout_seat business 1 b'C'
    ∷ layout_seat economy 2 b'B'
    ∷ layout_seat economy 3 b'B'
    ∷ []

layout_expanded : expand_seat_layout layout (text "seatLayout") ≡ success layout_seats
unfolding expand_seat_layout expand_raw expand_valid expand_cabins expand_rows total_seats
    find_overlaps overlap_issues seat_count cabins_issues cabin_issues seat_letters_issues repeats
    fare_class_of is_plain_object property property_of is_non_empty_string trim trim_start decimal
    decimal_from same
layout_expanded = refl

expand_seat_layout-IsLayout_example : IsLayout layout_seats
expand_seat_layout-IsLayout_example =
    expand_seat_layout-IsLayout layout (text "seatLayout") layout_seats layout_expanded

abbrev third_page : PageQuery
third_page = record { page = 3; page_size = 50; limit = 50; offset = 100 }

third_page_parsed : parse_page_query (string (text "3")) (string (text " 50 ")) ≡ success third_page
unfolding parse_page_query parse_pagination_value number_of page_query_of trim trim_start
third_page_parsed = refl

parse_page_query-IsPageQuery_example : IsPageQuery third_page
parse_page_query-IsPageQuery_example =
    parse_page_query-IsPageQuery (string (text "3")) (string (text " 50 ")) third_page
      third_page_parsed

to_pagination-total_pages_example : (3 ≤ (to_pagination third_page 101).total_pages) ↔ (100 < 101)
to_pagination-total_pages_example =
    to_pagination-total_pages (string (text "3")) (string (text " 50 ")) third_page 101
      third_page_parsed

abbrev payment_body : Value
payment_body = object (
    field (text "paymentMethodToken") (string (text " tok_success ")) (
      field (text "amount")
        (object (
          field (text "amount") (number (whole 1500000))
            (field (text "currency") (string (text "VND")) end)))
        end))

abbrev payment_input : PaymentInput
payment_input = record {
  payment_method_token = text "tok_success";
  amount = record { amount = 1500000; currency = vnd_currency };
}

payment_accepted : validate_payment_input payment_body ≡ success payment_input
unfolding validate_payment_input parsed_payment amount_issues is_currency currency_of
    is_plain_object property property_of is_non_empty_string trim trim_start same
payment_accepted = refl

validate_payment_input-IsPayment_example : IsPayment payment_body payment_input
validate_payment_input-IsPayment_example =
    validate_payment_input-IsPayment payment_body payment_input payment_accepted

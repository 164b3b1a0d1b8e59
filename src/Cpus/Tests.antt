-- ===== src/Cpus/Tests.antt =====
-- Runs of expand_cpu_list and format_cpu_list.
use jetson_dlagreen.Common.{ℕ, ◌∷◌, [], List, ◌≡◌, ok, arith, err, value_error, refl}
use jetson_dlagreen.Common.Int.{pos, ◌+ℤ◌, ◌-ℤ◌}
use jetson_dlagreen.Common.Decimal.{
  int_of, read_signed, read_digits, split, split_once, join, str, digits,
}
use jetson_dlagreen.Common.Text.{codes}
use jetson_dlagreen.Cpus.{
  expand_cpu_list, format_cpu_list, expand_items, expand_item, expand_bounds, ranges_from,
  not_a_list,
}
use jetson_dlagreen.Cpus.RoundTrip.{format_cpu_list-round_trip, AreDistinct}

expanded : expand_cpu_list (codes " 8,0-2,+1_0") ≡ ok (pos 8 ∷ pos 0 ∷ pos 1 ∷ pos 2 ∷ pos 10 ∷ [])
unfolding expand_cpu_list expand_items expand_item expand_bounds split split_once int_of read_signed
    read_digits ◌+ℤ◌ ◌-ℤ◌
expanded = refl

backwards : expand_cpu_list (codes "3-1") ≡ err (value_error "invalid CPU range")
unfolding expand_cpu_list expand_items expand_item expand_bounds split split_once int_of read_signed
    read_digits ◌+ℤ◌ ◌-ℤ◌
backwards = refl

repeated : expand_cpu_list (codes "1-3,2") ≡ err not_a_list
unfolding expand_cpu_list expand_items expand_item expand_bounds split split_once int_of read_signed
    read_digits ◌+ℤ◌ ◌-ℤ◌
repeated = refl

formatted : format_cpu_list (11 ∷ 2 ∷ 0 ∷ 1 ∷ 10 ∷ 7 ∷ []) ≡ ok (codes "0-2,7,10-11")
unfolding format_cpu_list ranges_from str digits join
formatted = refl

three_cpus-AreDistinct : AreDistinct (5 ∷ 3 ∷ 4 ∷ [])
three_cpus-AreDistinct k = ground arith

format_cpu_list-round_trip_example :
    (text : List ℕ) × (format_cpu_list (5 ∷ 3 ∷ 4 ∷ []) ≡ ok text)
    × (expand_cpu_list text ≡ ok (pos 3 ∷ pos 4 ∷ pos 5 ∷ []))
format_cpu_list-round_trip_example =
    format_cpu_list-round_trip (5 ∷ 3 ∷ 4 ∷ []) three_cpus-AreDistinct (λ h. cc)

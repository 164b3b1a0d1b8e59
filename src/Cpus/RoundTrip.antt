-- ===== src/Cpus/RoundTrip.antt =====
-- What format_cpu_list writes, expand_cpu_list reads back.
use jetson_dlagreen.Common.Sorting.{count, sort_by, insert_by, count-sort_by}
use jetson_dlagreen.Common.Decimal.{is_digit, str, join, split}
use jetson_dlagreen.Common.Decimal.Laws.{
  Lacks, IsDigits, str-IsDigits, split_once_lacking, int_of-str, split_once-append, split-join,
}
use jetson_dlagreen.Common.{
  ℕ, zero, suc, ◌∷◌, [], Bool, true, false, List, count_up, ◌<◌, ◌≡◌, All, ◌+◌, ◌≤◌, All-map, ok,
  map, ◌-◌, if_either, ◌++◌, ◌==◌, arith, ap, ◌∙◌, refl, All-append, sym, append-nil, append_assoc,
  count_up-append, ◌≢◌, map-append, ltb,
}
use jetson_dlagreen.Common.Int.{pos, ◌+ℤ◌, ◌-ℤ◌, pos-add-one, ltb_ℤ}
use jetson_dlagreen.Cpus.{
  expand_items, int_range, expand_item, ranges_from, expand_bounds, range_text, range_length,
  some_negative, repeats, expand_cpu_list, has_cpu, format_ordered, format_cpu_list,
}

digit-ne : (sep : ℕ) → sep < b'0' → (c : ℕ) → is_digit c ≡ true → (c == sep) ≡ false
digit-ne sep h c k = ground arith

IsDigits-Lacks : (sep : ℕ) (text : List ℕ) → sep < b'0' → IsDigits text → Lacks sep text
IsDigits-Lacks sep text h k = All-map _ _ text (digit-ne sep h) k

int_range-count_up : (n i : ℕ) → int_range (pos i) n ≡ map pos (count_up i n)
int_range-count_up zero i = refl
int_range-count_up (suc n) i =
    ap (λ rest. pos i ∷ rest)
      (ap (λ z. int_range z n) (pos-add-one i) ∙ int_range-count_up n (suc i))

-- The CPUs first, …, previous.
abbrev cpus_between : ℕ → ℕ → List ℕ
cpus_between first previous = count_up first (previous + 1 - first)

pos_part-length :
    (first previous : ℕ)
    → first ≤ previous
    → range_length (pos first) (pos previous) ≡ previous + 1 - first
unfolding ◌+ℤ◌ ◌-ℤ◌
pos_part-length first previous h = ground arith

range_text-Lacks : (first previous : ℕ) → Lacks b',' (range_text first previous)
range_text-Lacks first previous =
    if_either (Lacks b',') (first == previous) _ _
      (λ e. IsDigits-Lacks b',' (str first) (omega arith) (str-IsDigits first))
      (λ e.
        All-append (λ c. (c == b',') ≡ false) (str first) (b'-' ∷ str previous)
          (IsDigits-Lacks b',' (str first) (omega arith) (str-IsDigits first))
          (refl, IsDigits-Lacks b',' (str previous) (omega arith) (str-IsDigits previous)))

str-Lacks : (n : ℕ) → Lacks b'-' (str n)
str-Lacks n = IsDigits-Lacks b'-' (str n) (omega arith) (str-IsDigits n)

one :
    (first previous : ℕ)
    → (first == previous) ≡ true
    → expand_item (str first) ≡ ok (map pos (cpus_between first previous))
unfolding expand_item expand_bounds
one first previous e =
    let single : previous + 1 - first ≡ 1 = ground arith in
    rw (split_once_lacking b'-' (str first) (str-Lacks first), int_of-str first, single) refl

many :
    (first previous : ℕ)
    → first ≤ previous
    → expand_item (str first ++ (b'-' ∷ str previous)) ≡ ok (map pos (cpus_between first previous))
unfolding expand_item expand_bounds
many first previous h =
    let ordered : ltb_ℤ (pos previous) (pos first) ≡ false = ground arith in
    rw
      (
        split_once-append b'-' (str first) (str previous) (str-Lacks first),
        int_of-str first,
        int_of-str previous,
        ordered,
      )
      (ap (λ n. ok (int_range (pos first) n)) (pos_part-length first previous h)
        ∙ ap ok (int_range-count_up (previous + 1 - first) first))

expand_item-range_text :
    (first previous : ℕ)
    → first ≤ previous
    → expand_item (range_text first previous) ≡ ok (map pos (cpus_between first previous))
unfolding expand_item expand_bounds
expand_item-range_text first previous h =
    if_either (λ text. expand_item text ≡ ok (map pos (cpus_between first previous)))
      (first == previous) _ _ (λ e. one first previous e) (λ e. many first previous h)

ranges_from-Lacks :
    (first previous : ℕ) (rest : List ℕ) → All (Lacks b',') (ranges_from first previous rest)
unfolding ranges_from
ranges_from-Lacks first previous [] = (range_text-Lacks first previous, tt)
ranges_from-Lacks first previous (cpu ∷ rest) =
    if_either (All (Lacks b',')) (cpu == previous + 1) _ _ (λ e. ranges_from-Lacks first cpu rest)
      (λ e. (range_text-Lacks first previous, ranges_from-Lacks cpu cpu rest))

cpus_between-append :
    (first previous cpu : ℕ)
    → first ≤ previous
    → cpu ≡ previous + 1
    → cpus_between first cpu ≡ cpus_between first previous ++ (cpu ∷ [])
cpus_between-append first previous cpu h e =
    ap (count_up first) (omega arith)
    ∙ sym (count_up-append first (previous + 1 - first) 1)
    ∙ ap (λ c. count_up first (previous + 1 - first) ++ (c ∷ [])) (omega arith)

cpus_between_self : (cpu : ℕ) → cpus_between cpu cpu ≡ cpu ∷ []
cpus_between_self cpu = let one_cpu : cpu + 1 - cpu ≡ 1 = omega arith in rw one_cpu refl

expand_items-ranges_from :
    (first previous : ℕ) (rest : List ℕ)
    → first ≤ previous
    → expand_items (ranges_from first previous rest)
      ≡ ok (map pos (cpus_between first previous ++ rest))
unfolding ranges_from expand_items
expand_items-ranges_from first previous [] h =
    simp (expand_item-range_text first previous h, append-nil)
expand_items-ranges_from first previous (cpu ∷ rest) h =
    if_either
      (λ items. expand_items items ≡ ok (map pos (cpus_between first previous ++ (cpu ∷ rest))))
      (cpu == previous + 1) _ _
      (λ e.
        expand_items-ranges_from first cpu rest (ground arith)
        ∙ ap (λ cs. ok (map pos cs))
            (rw (cpus_between-append first previous cpu h (ground arith), append_assoc) refl))
      (λ e. simp (
        expand_item-range_text first previous h,
        expand_items-ranges_from cpu cpu rest (omega arith),
        cpus_between_self cpu,
        map-append,
      ))

ranges_from-ne-nil : (first previous : ℕ) (rest : List ℕ) → ranges_from first previous rest ≢ []
unfolding ranges_from
ranges_from-ne-nil first previous [] = λ h. cc
ranges_from-ne-nil first previous (cpu ∷ rest) =
    if_either (λ v. v ≢ []) (cpu == previous + 1) _ _ (λ e. ranges_from-ne-nil first cpu rest)
      (λ e h. cc)

split-join_ranges :
    (ranges : List (List ℕ))
    → ranges ≢ []
    → All (Lacks b',') ranges
    → split b',' (join b',' ranges) ≡ ranges
split-join_ranges [] h k = absurd (h refl)
split-join_ranges (range ∷ ranges) h k = split-join b',' range ranges k

-- No CPU occurs twice.
abbrev pub AreDistinct : List ℕ → Type 0
AreDistinct cpus = (k : ℕ) → count k cpus ≤ 1

has_cpu-count : (c : ℕ) (cpus : List ℕ) → count c cpus ≡ 0 → has_cpu (pos c) (map pos cpus) ≡ false
has_cpu-count c [] h = refl
has_cpu-count c (d ∷ ds) h = ground (arith, has_cpu-count c ds)

repeats-AreDistinct : (cpus : List ℕ) → AreDistinct cpus → repeats (map pos cpus) ≡ false
repeats-AreDistinct [] h = refl
repeats-AreDistinct (c ∷ cs) h =
    ground (arith, h c, has_cpu-count c cs, repeats-AreDistinct cs (λ k. omega (arith, h k)))

some_negative-pos : (cpus : List ℕ) → some_negative (map pos cpus) ≡ false
some_negative-pos [] = refl
some_negative-pos (c ∷ cs) = ground (arith, some_negative-pos cs)

format_ordered-round_trip :
    (cpus : List ℕ)
    → AreDistinct cpus
    → cpus ≢ []
    → (text : List ℕ) × (format_ordered cpus ≡ ok text) × (expand_cpu_list text ≡ ok (map pos cpus))
unfolding expand_cpu_list
format_ordered-round_trip [] h k = absurd (k refl)
format_ordered-round_trip (cpu ∷ rest) h k = (
  join b',' (ranges_from cpu cpu rest),
  refl,
  rw
      (
        split-join_ranges (ranges_from cpu cpu rest) (ranges_from-ne-nil cpu cpu rest)
            (ranges_from-Lacks cpu cpu rest),
        expand_items-ranges_from cpu cpu rest (omega arith),
        cpus_between_self cpu,
      )
      (simp (some_negative-pos (cpu ∷ rest), repeats-AreDistinct (cpu ∷ rest) h)),
)

sort_by-ne-nil : (lt : ℕ → ℕ → Bool) (cpus : List ℕ) → cpus ≢ [] → sort_by lt cpus ≢ []
sort_by-ne-nil lt [] h = h
sort_by-ne-nil lt (c ∷ cs) h = insert_by-ne-nil (sort_by lt cs)
  where
    insert_by-ne-nil : (xs : List ℕ) → insert_by lt c xs ≢ []
    insert_by-ne-nil [] = λ k. cc
    insert_by-ne-nil (x ∷ xs) = if_either (λ v. v ≢ []) (lt x c) _ _ (λ e k. cc) (λ e k. cc)

-- For at least one CPU, none twice, format_cpu_list returns a text, and expand_cpu_list reads it as
-- the CPUs in increasing order.
pub format_cpu_list-round_trip :
    (cpus : List ℕ)
    → AreDistinct cpus
    → cpus ≢ []
    → (text : List ℕ) × (format_cpu_list cpus ≡ ok text)
      × (expand_cpu_list text ≡ ok (map pos (sort_by ltb cpus)))
unfolding format_cpu_list
format_cpu_list-round_trip cpus h k =
    format_ordered-round_trip (sort_by ltb cpus) (λ c. omega (arith, count-sort_by ltb c cpus, h c))
      (sort_by-ne-nil ltb cpus k)

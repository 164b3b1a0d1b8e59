-- ===== src/Bless/Tests.antt =====
-- Concrete kernels and requests: the properties applied to them, and runs of the scheduler.
use jetson_dlagreen.Bless.Estimates.{workload_equivalence-reorders, IsSum, kernels_of}
use jetson_dlagreen.Bless.Partitions.{IsAssignment, strict_share_configurations-exact}
use jetson_dlagreen.Bless.Choice.{IsBestChoice, choose_configuration-IsBestChoice}
use jetson_dlagreen.Common.Dict.{IsAmong, keep}
use jetson_dlagreen.Bless.Shares.{
  add_native, choose_configuration, strict_share_configurations, workload_equivalence_duration_us,
  breadth_first, first_seen, assignments, at_depth, predict_all, total_share,
  interference_free_duration_us, stack_all, add_stack, profiled_duration, choose_among, best_of,
}
use jetson_dlagreen.Bless.Squad.{form_kernel_squad-IsGreedy, form_kernel_squad-in_order}
use jetson_dlagreen.Bless.Greedy.{IsGreedy}
use jetson_dlagreen.Bless.{
  RequestState, form_kernel_squad, kernel_profile, squad_from, KernelProfile, ScheduledKernel,
  check_shares, check_share, most_urgent, ok, least_from, schedule, active_requests,
  initial_cursors, progress_at, length, none, nought, map, str_eq, ℤ,
}
use jetson_dlagreen.Common.{
  ℕ, ◌∷◌, [], inl, String, List, ◌*◌, ◌+◌, ◌≡◌, refl, arith, ◌↔◌, ◌≤◌, count_up, inr,
}
use jetson_dlagreen.Common.Int.{pos, ◌+ℤ◌}
use jetson_dlagreen.Common.Float.{Micro, micro_float, Micro-IsIeee, max_from}

abbrev us : ℕ → Micro
us n = pos (n * 1000000)

-- A kernel that takes `time` on the whole device and twice that on a half, after `before`.
abbrev kernel : String → ℕ → ℕ → KernelProfile Micro
kernel name before time = record {
  name = name;
  cumulative_us = (pos 50, us (2 * (before + time))) ∷ (pos 100, us (before + time)) ∷ [];
  duration_us = (pos 50, us (2 * time)) ∷ (pos 100, us time) ∷ [];
  native_share = pos 100;
}

-- A request that is behind and one that is ahead.
abbrev behind : RequestState Micro
behind = record {
  request_id = "a";
  target_us = us 100;
  elapsed_us = us 4;
  kernels = kernel "a0" 0 5 ∷ kernel "a1" 5 5 ∷ [];
  next_kernel = 0;
}

abbrev ahead : RequestState Micro
ahead = record {
  request_id = "b";
  target_us = us 100;
  elapsed_us = us 12;
  kernels = kernel "b0" 0 10 ∷ kernel "b1" 10 10 ∷ kernel "b2" 20 10 ∷ [];
  next_kernel = 1;
}

abbrev requests : List (RequestState Micro)
requests = behind ∷ ahead ∷ []

abbrev squad : List (ScheduledKernel Micro)
squad =
    record { request_id = "b"; kernel_index = 1; profile = kernel "b1" 10 10 }
    ∷ record { request_id = "b"; kernel_index = 2; profile = kernel "b2" 20 10 }
    ∷ []

profile_run :
    kernel_profile "a0"
      ((pos 50, us 10) ∷ (pos 100, us 5) ∷ [])
      ((pos 50, us 10) ∷ (pos 100, us 5) ∷ [])
      (pos 100)
    ≡ ok (kernel "a0" 0 5)
unfolding kernel_profile check_shares check_share
profile_run = refl

squad_run : form_kernel_squad requests (pos 6) ≡ ok squad
unfolding form_kernel_squad squad_from most_urgent least_from schedule active_requests progress_at
squad_run = refl

form_kernel_squad-IsGreedy_example :
    (s : List (ScheduledKernel Micro)) × (form_kernel_squad requests (pos 6) ≡ ok s)
    × IsGreedy requests 6 (initial_cursors requests) s
form_kernel_squad-IsGreedy_example =
    form_kernel_squad-IsGreedy Micro-IsIeee requests refl
      (
        (refl, ((us 5, refl, refl), ((us 10, refl, refl), tt))),
        ((refl, ((us 10, refl, refl), ((us 20, refl, refl), ((us 30, refl, refl), tt)))), tt),
      )
      5 behind (inl refl) (omega arith, (omega arith, tt))

form_kernel_squad-in_order_example :
    (length squad ≤ 6)
    × (map (λ item. item.kernel_index) (keep (λ item. str_eq item.request_id "b") squad)
        ≡ count_up 1 (length (keep (λ item. str_eq item.request_id "b") squad)))
form_kernel_squad-in_order_example =
    form_kernel_squad-in_order Micro-IsIeee requests refl
      (
        (refl, ((us 5, refl, refl), ((us 10, refl, refl), tt))),
        ((refl, ((us 10, refl, refl), ((us 20, refl, refl), ((us 30, refl, refl), tt)))), tt),
      )
      5 squad ahead (inr (inl refl)) (omega arith, (omega arith, tt)) squad_run

abbrev both : List (ScheduledKernel Micro)
both =
    record { request_id = "a"; kernel_index = 0; profile = kernel "a0" 0 5 }
    ∷ record { request_id = "b"; kernel_index = 1; profile = kernel "b1" 10 10 }
    ∷ record { request_id = "b"; kernel_index = 2; profile = kernel "b2" 20 10 }
    ∷ []

shares_run :
    strict_share_configurations ("a" ∷ "b" ∷ []) (pos 75 ∷ pos 50 ∷ pos 25 ∷ [])
    ≡ ok (
        (("a", pos 25) ∷ ("b", pos 75) ∷ [])
        ∷ (("a", pos 50) ∷ ("b", pos 50) ∷ [])
        ∷ (("a", pos 75) ∷ ("b", pos 25) ∷ [])
        ∷ [])
unfolding strict_share_configurations assignments ◌+ℤ◌
shares_run = refl

strict_share_configurations-exact_example :
    IsAmong {A = List (String × ℤ)} (("a", pos 50) ∷ ("b", pos 50) ∷ []) (
      (("a", pos 25) ∷ ("b", pos 75) ∷ [])
      ∷ (("a", pos 50) ∷ ("b", pos 50) ∷ [])
      ∷ (("a", pos 75) ∷ ("b", pos 25) ∷ [])
      ∷ [])
    ↔ (IsAssignment
          ("a" ∷ "b" ∷ [])
          (pos 75 ∷ pos 50 ∷ pos 25 ∷ [])
          (("a", pos 50) ∷ ("b", pos 50) ∷ [])
        × (total_share (("a", pos 50) ∷ ("b", pos 50) ∷ []) ≡ pos 100))
strict_share_configurations-exact_example =
    strict_share_configurations-exact ("a" ∷ "b" ∷ []) (pos 75 ∷ pos 50 ∷ pos 25 ∷ [])
      ((("a", pos 25) ∷ ("b", pos 75) ∷ [])
        ∷ (("a", pos 50) ∷ ("b", pos 50) ∷ [])
        ∷ (("a", pos 75) ∷ ("b", pos 25) ∷ [])
        ∷ [])
      (("a", pos 50) ∷ ("b", pos 50) ∷ []) shares_run

workload_run : workload_equivalence_duration_us both ("a" ∷ "b" ∷ []) ≡ ok (us 25)
unfolding workload_equivalence_duration_us add_native breadth_first at_depth ◌+ℤ◌
workload_run = refl

workload_equivalence-reorders_example :
    (order : List (ScheduledKernel Micro)) × IsSum nought order (us 25)
    × ((id : String) → kernels_of id order ≡ kernels_of id both)
workload_equivalence-reorders_example =
    workload_equivalence-reorders both ("a" ∷ "b" ∷ []) (us 25) refl workload_run

choice_run :
    choose_configuration both (pos 50 ∷ []) ≡ ok (record { shares = none; predicted_us = us 25 })
unfolding choose_configuration first_seen strict_share_configurations assignments predict_all
    interference_free_duration_us stack_all add_stack profiled_duration max_from choose_among
    best_of workload_equivalence_duration_us add_native breadth_first at_depth ◌+ℤ◌
choice_run = refl

choose_configuration-IsBestChoice_example :
    IsBestChoice both (pos 50 ∷ []) (record { shares = none; predicted_us = us 25 })
choose_configuration-IsBestChoice_example =
    choose_configuration-IsBestChoice Micro-IsIeee both (pos 50 ∷ [])
      (record { shares = none; predicted_us = us 25 })
      ((refl, (refl, tt)), ((refl, (refl, tt)), ((refl, (refl, tt)), tt))) choice_run

-- ===== src/Bless/Shares.antt =====
-- The configurations of a squad: strict partitions, the two estimates and the choice.
use jetson_dlagreen.Dag.{is_in}
use jetson_dlagreen.Common.Dict.{keep, find}
use jetson_dlagreen.Common.{
  ℕ, ◌∷◌, [], none, some, zero, suc, max, if◌then◌else◌, ◌++◌, get_elem?, ◌>>=◌, ◌>>◌, ◌&&◌,
}
use jetson_dlagreen.Common.Int.{ℤ, pos, ◌+ℤ◌}
use jetson_dlagreen.Common.Float.{Float, max_from, eq_ℤ}
use jetson_dlagreen.Bless.{
  ScheduledKernel, String, Option, KernelProfile, Bool, List, true, false, Result, nought, lt_ℤ,
  length, ok, str_eq, err, has_key, value_error, map, value_at, require, not, is_nil, has_duplicate,
}

-- sorted(set(shares)): each is put behind those below it, once.
abbrev pub insert_share : ℤ → List ℤ → List ℤ
insert_share s [] = s ∷ []
insert_share s (t ∷ ts) =
    if eq_ℤ s t then t ∷ ts else if lt_ℤ s t then s ∷ t ∷ ts else t ∷ insert_share s ts

abbrev pub sorted_set : List ℤ → List ℤ
sorted_set [] = []
sorted_set (s ∷ shares) = insert_share s (sorted_set shares)

abbrev pub all_strict : List ℤ → Bool
all_strict [] = true
all_strict (s ∷ shares) = (lt_ℤ (pos 0) s && lt_ℤ s (pos 100)) && all_strict shares

-- [(id, s) : c for s in shares for c in candidates], with s outermost.
abbrev pub prefix_all : {A : Type 0} → A → List (List A) → List (List A)
prefix_all a [] = []
prefix_all a (c ∷ candidates) = (a ∷ c) ∷ prefix_all a candidates

abbrev pub each_share : String → List ℤ → List (List (String × ℤ)) → List (List (String × ℤ))
each_share id [] candidates = []
each_share id (s ∷ shares) candidates =
    prefix_all (id, s) candidates ++ each_share id shares candidates

-- The dictionaries of product(shares, repeat=len(request_ids)), in its order.
unfoldable pub assignments : List String → List ℤ → List (List (String × ℤ))
assignments [] shares = [] ∷ []
assignments (id ∷ ids) shares = each_share id shares (assignments ids shares)

abbrev pub total_share : List (String × ℤ) → ℤ
total_share [] = pos 0
total_share ((id, s) ∷ shares) = s +ℤ total_share shares

unfoldable pub strict_share_configurations :
    List String → List ℤ → Result (List (List (String × ℤ)))
unfolding assignments
strict_share_configurations ids allowed = do
  require (not (is_nil ids) && not (has_duplicate ids))
      (value_error "request ids must be nonempty and unique")
  require (all_strict (sorted_set allowed)) (value_error "strict shares must be in (0, 100)")
  ok (keep (λ c. eq_ℤ (total_share c) (pos 100)) (assignments ids (sorted_set allowed)))

abbrev pub share_of : Option ℤ → Result ℤ
share_of none = err (value_error "configuration omits an active request")
share_of (some share) = ok share

abbrev pub option_list : {A : Type 0} → Option A → List A
option_list none = []
option_list (some a) = a ∷ []

module _ {W : Type 0} ⦃d : Float W⦄ where
  -- `stacks.get(id, 0.0) + own` at `id`, in the dictionary's order.
  unfoldable pub add_stack : String → W → List (String × W) → List (String × W)
  add_stack id own [] = (id, d.add nought own) ∷ []
  add_stack id own ((j, w) ∷ stacks) =
      if str_eq j id then (j, d.add w own) ∷ stacks else (j, w) ∷ add_stack id own stacks

  -- duration_us[share], with its own error.
  unfoldable pub profiled_duration : KernelProfile W → ℤ → Result W
  profiled_duration profile share =
      if has_key share profile.duration_us
      then value_at share profile.duration_us
      else err (value_error "configuration uses an unprofiled share")

  unfoldable pub stack_all :
      List (String × W) → List (ScheduledKernel W) → List (String × ℤ) → Result (List (String × W))
  stack_all stacks [] shares = ok stacks
  stack_all stacks (item ∷ squad) shares = do
    share ← share_of (find item.request_id shares)
    own ← profiled_duration item.profile share
    stack_all (add_stack item.request_id own stacks) squad shares

  -- max(stacks.values(), default=0.0)
  abbrev pub largest_stack : List (String × W) → W
  largest_stack [] = nought
  largest_stack ((id, w) ∷ stacks) = max_from w (map (λ e. e.1) stacks)

  unfoldable pub interference_free_duration_us :
      List (ScheduledKernel W) → List (String × ℤ) → Result W
  interference_free_duration_us squad shares =
      stack_all [] squad shares >>= λ stacks. ok (largest_stack stacks)

  abbrev pub queue_of : List (ScheduledKernel W) → String → List (ScheduledKernel W)
  queue_of squad id = keep (λ item. str_eq item.request_id id) squad

  abbrev pub longest : List (ScheduledKernel W) → List String → ℕ
  longest squad [] = 0
  longest squad (id ∷ ids) = max (length (queue_of squad id)) (longest squad ids)

  -- The kernels that one depth visits, and those of all depths from `depth` on.
  unfoldable pub at_depth : List (ScheduledKernel W) → ℕ → List String → List (ScheduledKernel W)
  at_depth squad depth [] = []
  at_depth squad depth (id ∷ ids) =
      option_list (get_elem? (queue_of squad id) depth) ++ at_depth squad depth ids

  unfoldable pub breadth_first :
      List (ScheduledKernel W) → List String → ℕ → ℕ → List (ScheduledKernel W)
  breadth_first squad ids depth zero = []
  breadth_first squad ids depth (suc n) =
      at_depth squad depth ids ++ breadth_first squad ids (suc depth) n

  unfoldable pub add_native : W → List (ScheduledKernel W) → Result W
  add_native duration [] = ok duration
  add_native duration (item ∷ items) = do
    own ← value_at item.profile.native_share item.profile.duration_us
    add_native (d.add duration own) items

  abbrev pub all_ordered : List (ScheduledKernel W) → List String → Bool
  all_ordered [] ids = true
  all_ordered (item ∷ squad) ids = is_in item.request_id ids && all_ordered squad ids

  unfoldable pub workload_equivalence_duration_us :
      List (ScheduledKernel W) → List String → Result W
  workload_equivalence_duration_us squad ids = do
    require (all_ordered squad ids) (value_error "request order omits an active request")
    add_native nought (breadth_first squad ids 0 (longest squad ids))

  -- list(dict.fromkeys(…)): the requests of the squad, in the order of their first kernels.
  unfoldable pub first_seen : List String → List (ScheduledKernel W) → List String
  first_seen seen [] = seen
  first_seen seen (item ∷ squad) =
      first_seen (if is_in item.request_id seen then seen else seen ++ item.request_id ∷ []) squad

-- `none` is the unrestricted configuration, whose estimator is "workload-equivalence".
pub record SquadConfiguration (W : Type 0) : Type 0 where
  pub shares : Option (List (String × ℤ))
  pub predicted_us : W

-- (a, …) < (b, …) for tuples of integers.
abbrev pub shares_lt : List (String × ℤ) → List (String × ℤ) → Bool
shares_lt [] [] = false
shares_lt [] (t ∷ ts) = true
shares_lt (s ∷ ss) [] = false
shares_lt (s ∷ ss) (t ∷ ts) = if eq_ℤ s.1 t.1 then shares_lt ss ts else lt_ℤ s.1 t.1

-- The rest of the key: a partition before none, and then by its shares.
abbrev pub rest_lt : Option (List (String × ℤ)) → Option (List (String × ℤ)) → Bool
rest_lt (some s) (some t) = shares_lt s t
rest_lt (some s) none = true
rest_lt none (some t) = false
rest_lt none none = false

module _ {W : Type 0} ⦃d : Float W⦄ where
  abbrev pub configuration_lt : SquadConfiguration W → SquadConfiguration W → Bool
  configuration_lt x y =
      if d.eq x.predicted_us y.predicted_us
      then rest_lt x.shares y.shares
      else d.lt x.predicted_us y.predicted_us

  -- min(…, key=…) from a first candidate.
  unfoldable pub best_of : SquadConfiguration W → List (SquadConfiguration W) → SquadConfiguration W
  best_of best [] = best
  best_of best (c ∷ candidates) = best_of (if configuration_lt c best then c else best) candidates

  unfoldable pub predict_all :
      List (ScheduledKernel W) → List (List (String × ℤ)) → Result (List (SquadConfiguration W))
  predict_all squad [] = ok []
  predict_all squad (shares ∷ configurations) = do
    predicted ← interference_free_duration_us squad shares
    rest ← predict_all squad configurations
    ok (record { shares = some shares; predicted_us = predicted } ∷ rest)

  -- min over the partitions and, behind them, the unrestricted configuration.
  unfoldable pub choose_among :
      List (SquadConfiguration W) → SquadConfiguration W → SquadConfiguration W
  choose_among [] unrestricted = unrestricted
  choose_among (c ∷ candidates) unrestricted = best_of c (candidates ++ unrestricted ∷ [])

  unfoldable pub choose_configuration :
      List (ScheduledKernel W) → List ℤ → Result (SquadConfiguration W)
  choose_configuration [] allowed = err (value_error "cannot configure an empty squad")
  choose_configuration (item ∷ squad) allowed = do
    let ids = first_seen [] (item ∷ squad)
    configurations ← strict_share_configurations ids allowed
    candidates ← predict_all (item ∷ squad) configurations
    predicted ← workload_equivalence_duration_us (item ∷ squad) ids
    ok (choose_among candidates (record { shares = none; predicted_us = predicted }))

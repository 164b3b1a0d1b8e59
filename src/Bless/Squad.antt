-- ===== src/Bless/Squad.antt =====
-- form_kernel_squad forms a squad by the paper's rule, and what follows from the rule.
use jetson_dlagreen.Dag.Counts.{str_eq_refl}
use jetson_dlagreen.Dag.{is_in}
use jetson_dlagreen.Common.Dict.{IsAmong, keep, All_among, item_at_lt}
use jetson_dlagreen.Common.{
  ℕ, ◌∷◌, [], zero, suc, inl, inr, ◌<◌, ◌≡◌, arith, All, ap, Bool-cases, ◌∙◌, sym, refl, subst, ◌≤◌,
  str_eq_iff, if◌then◌else◌, ◌==◌, count_up, ok_injective,
}
use jetson_dlagreen.Common.Int.{pos}
use jetson_dlagreen.Common.Float.{Float, IsIeee}
use jetson_dlagreen.Bless.{
  ScheduledKernel, List, RequestState, length, String, has_duplicate, map, false, ok, true,
  initial_cursors, advance, str_eq, squad_from, schedule, form_kernel_squad,
}
use jetson_dlagreen.Bless.Greedy.{
  full, ends, goes_on, IsProfiled, IsGreedy, most_urgent-IsSelected, scheduled,
}

module _ {W : Type 0} ⦃d : Float W⦄ where
  abbrev pub ids_of : List (RequestState W) → List String
  ids_of requests = map (λ q. q.request_id) requests

  is_in-ids_of :
      (requests : List (RequestState W)) (q : RequestState W)
      → IsAmong q requests
      → is_in q.request_id (ids_of requests) ≡ true
  is_in-ids_of [] q h = absurd h
  is_in-ids_of (r ∷ requests) q (inl same) =
      rw (ap (λ z. str_eq z.request_id q.request_id) (sym same), str_eq_refl q.request_id) refl
  is_in-ids_of (r ∷ requests) q (inr h) = ground (arith, is_in-ids_of requests q h)

  conflict_of :
      (x q : RequestState W) (requests : List (RequestState W)) {A : Type 0}
      → has_duplicate (ids_of (x ∷ requests)) ≡ false
      → IsAmong q requests
      → x.request_id ≡ q.request_id
      → A
  conflict_of x q requests u k e =
      let twice : is_in x.request_id (ids_of requests) ≡ true =
        subst (λ n. is_in n (ids_of requests) ≡ true) (sym e) (is_in-ids_of requests q k) in
      absurd (ground arith)

  -- Requests without a common id are one if their ids agree.
  same_request :
      (requests : List (RequestState W)) (r q : RequestState W)
      → has_duplicate (ids_of requests) ≡ false
      → IsAmong r requests
      → IsAmong q requests
      → str_eq r.request_id q.request_id ≡ true
      → r ≡ q
  same_request [] r q u h k e = absurd h
  same_request (x ∷ requests) r q u (inl h) (inl k) e = h ∙ sym k
  same_request (x ∷ requests) r q u (inr h) (inr k) e =
      same_request requests r q (ground arith) h k e
  same_request (x ∷ requests) r q u (inl h) (inr k) e =
      conflict_of x q requests u k (sym (ap (λ z. z.request_id) h) ∙ (str_eq_iff _ _).0 e)
  same_request (x ∷ requests) r q u (inr h) (inl k) e =
      conflict_of x r requests u h (sym (ap (λ z. z.request_id) k) ∙ sym ((str_eq_iff _ _).0 e))

  initial_cursors_at :
      (requests : List (RequestState W)) (q : RequestState W)
      → has_duplicate (ids_of requests) ≡ false
      → IsAmong q requests
      → initial_cursors requests q.request_id ≡ q.next_kernel
  initial_cursors_at [] q u h = absurd h
  initial_cursors_at (x ∷ requests) q u (inl same) =
      subst
        (λ z.
          (if str_eq x.request_id z.request_id
            then x.next_kernel
            else initial_cursors requests z.request_id)
          ≡ z.next_kernel)
        (sym same) (rw (str_eq_refl x.request_id) refl)
  initial_cursors_at (x ∷ requests) q u (inr h) =
      elim (Bool-cases (str_eq x.request_id q.request_id)) [
        | inl e ↦ conflict_of x q requests u h ((str_eq_iff _ _).0 e)
        | inr e ↦ rw e (initial_cursors_at requests q (ground arith) h)
      ]

  -- Each request's next kernel is one of its kernels.
  abbrev pub IsReady : List (RequestState W) → (String → ℕ) → Type 0
  IsReady requests cursors =
      (q : RequestState W) → IsAmong q requests → cursors q.request_id < length q.kernels

  advance-IsReady :
      (requests : List (RequestState W)) (cursors : String → ℕ) (r : RequestState W)
      → has_duplicate (ids_of requests) ≡ false
      → IsAmong r requests
      → suc (cursors r.request_id) < length r.kernels
      → IsReady requests cursors
      → IsReady requests (advance cursors r.request_id)
  advance-IsReady requests cursors r u m lt h q k =
      elim (Bool-cases (str_eq r.request_id q.request_id)) [
        | inl same ↦ rw same (
            subst (λ z. suc (cursors z.request_id) < length z.kernels)
              (same_request requests r q u m k same) lt)
        | inr apart ↦ rw apart (h q k)
      ]

form_kernel_squad-from :
    {W : Type 0} ⦃d : Float W⦄ (requests : List (RequestState W)) (q : RequestState W)
    → IsAmong q requests
    → has_duplicate (ids_of requests) ≡ false
    → (n : ℕ)
    → form_kernel_squad requests (pos (suc n))
      ≡ squad_from requests (suc n) (initial_cursors requests)
unfolding form_kernel_squad
form_kernel_squad-from [] q m u n = absurd m
form_kernel_squad-from (r ∷ requests) q m u n = rw u refl

module _ {W : Type 0} ⦃d : Float W⦄ (laws : IsIeee W) (requests : List (RequestState W))
    (unique : has_duplicate (ids_of requests) ≡ false) (profiled : All IsProfiled requests) where
  squad_from-IsGreedy :
      (room : ℕ) (cursors : String → ℕ) (q : RequestState W)
      → IsAmong q requests
      → IsReady requests cursors
      → (squad : List (ScheduledKernel W)) × (squad_from requests room cursors ≡ ok squad)
        × IsGreedy requests room cursors squad
  unfolding squad_from schedule
  squad_from-IsGreedy zero cursors q m ready = ([], refl, full cursors)
  squad_from-IsGreedy (suc room) cursors q m ready =
      let (r, u, found, selected) =
        most_urgent-IsSelected laws requests cursors profiled q m (ready q m) in
      let (kernel, k) = item_at_lt r.kernels (cursors r.request_id) (ready r selected.requested) in
      elim (Bool-cases (suc (cursors r.request_id) == length r.kernels)) [
        | inl last ↦ (
          scheduled cursors r kernel ∷ [],
          rw (found, k, last) refl,
          ends room cursors r kernel u selected k (ground arith),
        )
        | inr more ↦
            let lt : suc (cursors r.request_id) < length r.kernels =
              ground (arith, ready r selected.requested) in
            let (squad, s, g) =
              squad_from-IsGreedy room (advance cursors r.request_id) q m
                (advance-IsReady requests cursors r unique selected.requested lt ready) in
            (
              scheduled cursors r kernel ∷ squad,
              rw (found, k, more, s) refl,
              goes_on room cursors r kernel u squad selected k lt g,
            )
      ]

  -- Under the float laws, for at least one request, all distinct, profiled and not at their end, a
  -- squad is formed, and by the greedy rule.
  pub form_kernel_squad-IsGreedy :
      (n : ℕ) (q : RequestState W)
      → IsAmong q requests
      → All (λ r. r.next_kernel < length r.kernels) requests
      → (squad : List (ScheduledKernel W)) × (form_kernel_squad requests (pos (suc n)) ≡ ok squad)
        × IsGreedy requests (suc n) (initial_cursors requests) squad
  form_kernel_squad-IsGreedy n q m ready =
      let (squad, s, g) = squad_from-IsGreedy (suc n) (initial_cursors requests) q m (λ r k.
        rw (initial_cursors_at requests r unique k)
          (All_among (λ z. z.next_kernel < length z.kernels) requests r ready k)) in
      (squad, form_kernel_squad-from requests q m unique n ∙ s, g)

goes_on_same :
    {a b : ℕ} {xs : List ℕ} (n : ℕ) → a ≡ b → xs ≡ count_up (suc b) n → a ∷ xs ≡ count_up b (suc n)
goes_on_same n e h = cc

-- The kernels of one request are scheduled one behind the other, from its cursor on.
pub IsGreedy-in_order :
    {W : Type 0} ⦃d : Float W⦄ {requests : List (RequestState W)} {room : ℕ} {cursors : String → ℕ}
    {squad : List (ScheduledKernel W)} (id : String)
    → IsGreedy requests room cursors squad
    → map (λ item. item.kernel_index) (keep (λ item. str_eq item.request_id id) squad)
      ≡ count_up (cursors id) (length (keep (λ item. str_eq item.request_id id) squad))
IsGreedy-in_order id (full cursors) = refl
IsGreedy-in_order id (ends room cursors r kernel u s k e) =
    elim (Bool-cases (str_eq r.request_id id)) [
      | inl same ↦ rw same (ap (λ n. n ∷ []) (ap cursors ((str_eq_iff _ _).0 same)))
      | inr apart ↦ rw apart refl
    ]
IsGreedy-in_order id (goes_on room cursors r kernel u squad s k e g) =
    elim (Bool-cases (str_eq r.request_id id)) [
      | inl same ↦ rw same (
          goes_on_same _ (ap cursors ((str_eq_iff _ _).0 same))
            (rw same at (IsGreedy-in_order id g)))
      | inr apart ↦ rw apart (rw apart at (IsGreedy-in_order id g))
    ]

-- A squad fills its place, unless its last kernel is the last of its request.
pub IsGreedy-length :
    {W : Type 0} ⦃d : Float W⦄ {requests : List (RequestState W)} {room : ℕ} {cursors : String → ℕ}
    {squad : List (ScheduledKernel W)}
    → IsGreedy requests room cursors squad
    → length squad ≤ room
IsGreedy-length (full cursors) = omega arith
IsGreedy-length (ends room cursors r kernel u s k e) = omega arith
IsGreedy-length (goes_on room cursors r kernel u squad s k e g) = omega (arith, IsGreedy-length g)

module _ {W : Type 0} ⦃d : Float W⦄ (laws : IsIeee W) (requests : List (RequestState W))
    (unique : has_duplicate (ids_of requests) ≡ false) (profiled : All IsProfiled requests) where
  -- Under the float laws, for distinct requests that are profiled and not at their end, a squad is no
  -- larger than asked for, and has the kernels of each request from its next one on, in order and
  -- without a gap.
  pub form_kernel_squad-in_order :
      (n : ℕ) (squad : List (ScheduledKernel W)) (q : RequestState W)
      → IsAmong q requests
      → All (λ r. r.next_kernel < length r.kernels) requests
      → form_kernel_squad requests (pos (suc n)) ≡ ok squad
      → (length squad ≤ suc n)
        × (map
              (λ item. item.kernel_index)
              (keep (λ item. str_eq item.request_id q.request_id) squad)
            ≡ count_up q.next_kernel
                (length (keep (λ item. str_eq item.request_id q.request_id) squad)))
  form_kernel_squad-in_order n squad q m ready h =
      let (formed, f, g) = form_kernel_squad-IsGreedy laws requests unique profiled n q m ready in
      subst
        (λ z.
          (length z ≤ suc n)
          × (map (λ item. item.kernel_index) (keep (λ item. str_eq item.request_id q.request_id) z)
              ≡ count_up q.next_kernel
                  (length (keep (λ item. str_eq item.request_id q.request_id) z))))
        (ok_injective (sym f ∙ h))
        (
          IsGreedy-length g,
          rw (initial_cursors_at requests q unique m) at (IsGreedy-in_order q.request_id g),
        )

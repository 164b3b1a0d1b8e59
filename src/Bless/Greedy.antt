-- ===== src/Bless/Greedy.antt =====
-- What a squad is: each kernel belongs to a request of least relative progress.
use jetson_dlagreen.Common.Dict.{
  IsAmong, IsAmong-if, IsAmong-if_head, if-All, IsAmong-if_tail, All_among,
}
use jetson_dlagreen.Common.{
  ℕ, ◌∷◌, [], some, zero, suc, inl, inr, ◌≡◌, ◌⊎◌, All, ◌<◌, arith, refl, Bool-cases, subst,
  ok_injective, sym, ◌∙◌, ap, ltb→lt, lt→ltb,
}
use jetson_dlagreen.Common.Int.{pos}
use jetson_dlagreen.Common.Float.{Float, IsIeee, IsNumber, ◌≼◌}
use jetson_dlagreen.Bless.{
  ScheduledKernel, List, RequestState, String, is_positive, progress_at, KernelProfile, ok, true,
  item_at, urgency_lt, value_at, nought, length, false, advance, least_from, active_requests,
  most_urgent, ltb,
}

module _ {W : Type 0} ⦃d : Float W⦄ where
  -- `r` is the request that `cursors` selects, at progress `u`.
  pub record IsSelected (requests : List (RequestState W)) (cursors : String → ℕ)
      (r : RequestState W) (u : W) : Type 0 where
    pub requested : IsAmong r requests
    pub progress : progress_at r (cursors r.request_id) ≡ ok u
    pub least :
        (q : RequestState W) (v : W)
        → IsAmong q requests
        → cursors q.request_id < length q.kernels
        → progress_at q (cursors q.request_id) ≡ ok v
        → u ≼ v

  abbrev pub scheduled : (String → ℕ) → RequestState W → KernelProfile W → ScheduledKernel W
  scheduled cursors r kernel = record {
    request_id = r.request_id;
    kernel_index = cursors r.request_id;
    profile = kernel;
  }

  -- The squads of the paper's rule: next is the kernel of a selected request, until there is no
  -- place or a request is at its end.
  pub data IsGreedy (requests : List (RequestState W))
      : ℕ → (String → ℕ) → List (ScheduledKernel W) → Type 0 where
    full : (cursors : String → ℕ) → IsGreedy requests zero cursors []
    ends :
        (room : ℕ) (cursors : String → ℕ) (r : RequestState W) (kernel : KernelProfile W) (u : W)
        → IsSelected requests cursors r u
        → item_at r.kernels (cursors r.request_id) ≡ ok kernel
        → suc (cursors r.request_id) ≡ length r.kernels
        → IsGreedy requests (suc room) cursors (scheduled cursors r kernel ∷ [])
    goes_on :
        (room : ℕ) (cursors : String → ℕ) (r : RequestState W) (kernel : KernelProfile W) (u : W)
        (squad : List (ScheduledKernel W))
        → IsSelected requests cursors r u
        → item_at r.kernels (cursors r.request_id) ≡ ok kernel
        → suc (cursors r.request_id) < length r.kernels
        → IsGreedy requests room (advance cursors r.request_id) squad
        → IsGreedy requests (suc room) cursors (scheduled cursors r kernel ∷ squad)

  -- The kernels' times at the whole device are known and positive, and the elapsed time is finite.
  abbrev pub IsProfiled : RequestState W → Type 0
  IsProfiled r =
      (d.is_finite r.elapsed_us ≡ true)
      × All (λ k. (w : W) × (value_at (pos 100) k.cumulative_us ≡ ok w) × (is_positive w ≡ true))
          r.kernels

module _ {W : Type 0} ⦃d : Float W⦄ (laws : IsIeee W) where
  abbrev HasProgress : (String → ℕ) → RequestState W → Type 0
  HasProgress cursors q = (u : W) × (progress_at q (cursors q.request_id) ≡ ok u) × IsNumber u

  item_at-All {ℓ} :
      {P : KernelProfile W → Type ℓ} (xs : List (KernelProfile W)) (i : ℕ)
      → All P xs
      → i < length xs
      → (x : KernelProfile W) × (item_at xs i ≡ ok x) × P x
  item_at-All [] i h lt = absurd (omega arith)
  item_at-All (x ∷ xs) zero (h, hs) lt = (x, refl, h)
  item_at-All (x ∷ xs) (suc i) (h, hs) lt = item_at-All xs i hs (omega arith)

  positive_parts : (w : W) → is_positive w ≡ true → (d.is_finite w ≡ true) × (d.le w nought ≡ false)
  positive_parts w h = ground arith

  progress_of :
      (cursors : String → ℕ) (q : RequestState W)
      → IsProfiled q
      → cursors q.request_id < length q.kernels
      → HasProgress cursors q
  unfolding progress_at
  progress_of cursors q (e, ks) lt =
      let (k, i, (w, found, p)) = item_at-All q.kernels (cursors q.request_id) ks lt in
      let (f, g) = positive_parts w p in
      (d.div q.elapsed_us w, rw (i, found) refl, laws.div_number q.elapsed_us w e f g)

  urgency_lt-le :
      (u v : W) (i j : ℕ)
      → IsNumber u
      → IsNumber v
      → (urgency_lt v j u i ≡ true → v ≼ u) × (urgency_lt v j u i ≡ false → u ≼ v)
  urgency_lt-le u v i j hu hv =
      ground (arith, laws.eq_le v u, laws.lt-eq-not-le v u hv hu, laws.le_of_lt v u)

  -- The request that `least_from` returns.
  record IsLeast (cursors : String → ℕ) (best : RequestState W) (u : W)
      (active : List (ℕ × RequestState W)) (r : RequestState W) : Type 0 where
    v : W
    one_of : (r ≡ best) ⊎ ((j : ℕ) × IsAmong (j, r) active)
    progress : progress_at r (cursors r.request_id) ≡ ok v
    number : IsNumber v
    below_best : v ≼ u
    below : All (λ e. (w : W) → progress_at e.1 (cursors e.1.request_id) ≡ ok w → v ≼ w) active

  least_from-IsLeast :
      (cursors : String → ℕ) (best : RequestState W) (u : W) (i : ℕ)
      (active : List (ℕ × RequestState W))
      → progress_at best (cursors best.request_id) ≡ ok u
      → IsNumber u
      → All (λ e. HasProgress cursors e.1) active
      → (r : RequestState W) × (least_from cursors best u i active ≡ ok r)
        × IsLeast cursors best u active r
  unfolding least_from
  least_from-IsLeast cursors best u i [] p n h = (
    best,
    refl,
    record { v = u; one_of = inl refl; progress = p; number = n; below_best = n; below = tt },
  )
  least_from-IsLeast cursors best u i ((j, q) ∷ active) p n ((v, e, m), hs) =
      elim (Bool-cases (urgency_lt v j u i)) [
        | inl lower ↦
            let (r, found, l) = least_from-IsLeast cursors q v j active e m hs in
            (
              r,
              rw (e, lower) found,
              record {
                v = l.v;
                one_of = moved r (l.one_of);
                progress = l.progress;
                number = l.number;
                below_best = laws.le_trans _ _ _ l.below_best ((urgency_lt-le u v i j n m).0 lower);
                below = (at_head l.v l.below_best, l.below);
              },
            )
        | inr higher ↦
            let (r, found, l) = least_from-IsLeast cursors best u i active p n hs in
            (
              r,
              rw (e, higher) found,
              record {
                v = l.v;
                one_of = kept r (l.one_of);
                progress = l.progress;
                number = l.number;
                below_best = l.below_best;
                below = (
                  at_head l.v
                      (laws.le_trans _ _ _ l.below_best ((urgency_lt-le u v i j n m).1 higher)),
                  l.below,
                );
              },
            )
      ]
    where
      at_head : (z : W) → z ≼ v → (w : W) → progress_at q (cursors q.request_id) ≡ ok w → z ≼ w
      at_head z h w f = subst (λ x. z ≼ x) (ok_injective (sym e ∙ f)) h

      moved :
          (r : RequestState W)
          → (r ≡ q) ⊎ ((k : ℕ) × IsAmong (k, r) active)
          → (r ≡ best) ⊎ ((k : ℕ) × IsAmong (k, r) ((j, q) ∷ active))
      moved r (inl same) = inr (j, inl (ap (λ z. (j, z)) same))
      moved r (inr (k, h)) = inr (k, inr h)

      kept :
          (r : RequestState W)
          → (r ≡ best) ⊎ ((k : ℕ) × IsAmong (k, r) active)
          → (r ≡ best) ⊎ ((k : ℕ) × IsAmong (k, r) ((j, q) ∷ active))
      kept r (inl same) = inl same
      kept r (inr (k, h)) = inr (k, inr h)

  -- The active requests are those with a kernel left.
  active-IsAmong :
      (cursors : String → ℕ) (i j : ℕ) (requests : List (RequestState W)) (q : RequestState W)
      → IsAmong (j, q) (active_requests cursors i requests)
      → IsAmong q requests
  unfolding active_requests
  active-IsAmong cursors i j [] q h = h
  active-IsAmong cursors i j (r ∷ requests) q h =
      elim (IsAmong-if {A = ℕ × RequestState W} (ltb (cursors r.request_id) (length r.kernels))
        (j, q) (i, r) (active_requests cursors (suc i) requests) h) [
          | inl (left, same) ↦ inl (ap (λ z. z.1) same)
          | inr rest ↦ inr (active-IsAmong cursors (suc i) j requests q rest)
        ]

  active-whole :
      (cursors : String → ℕ) (i : ℕ) (requests : List (RequestState W)) (q : RequestState W)
      → IsAmong q requests
      → cursors q.request_id < length q.kernels
      → (j : ℕ) × IsAmong (j, q) (active_requests cursors i requests)
  unfolding active_requests
  active-whole cursors i [] q h lt = absurd h
  active-whole cursors i (r ∷ requests) q (inl same) lt = (
    i,
    IsAmong-if_head _ (i, q) (i, r) _
        (subst (λ z. ltb (cursors z.request_id) (length z.kernels) ≡ true) same (lt→ltb _ _ lt))
        (ap (λ z. (i, z)) same),
  )
  active-whole cursors i (r ∷ requests) q (inr h) lt =
      let (j, m) = active-whole cursors (suc i) requests q h lt in
      (j, IsAmong-if_tail _ (j, q) (i, r) _ m)

  active-HasProgress :
      (cursors : String → ℕ) (i : ℕ) (requests : List (RequestState W))
      → All IsProfiled requests
      → All (λ e. HasProgress cursors e.1) (active_requests cursors i requests)
  unfolding active_requests
  active-HasProgress cursors i [] h = tt
  active-HasProgress cursors i (r ∷ requests) (h, hs) =
      if-All (λ e. HasProgress cursors e.1) _ (i, r) _
        (λ left. progress_of cursors r h (ltb→lt _ _ left))
        (active-HasProgress cursors (suc i) requests hs)

  -- With an active request one is selected.
  pub most_urgent-IsSelected :
      (requests : List (RequestState W)) (cursors : String → ℕ)
      → All IsProfiled requests
      → (q : RequestState W) → IsAmong q requests
      → cursors q.request_id < length q.kernels
      → (r : RequestState W) × (u : W) × (most_urgent cursors (active_requests cursors 0 requests)
          ≡ ok (some r))
        × IsSelected requests cursors r u
  unfolding most_urgent
  most_urgent-IsSelected requests cursors h q m lt =
      let (j, a) = active-whole cursors 0 requests q m lt in
      go (active_requests cursors 0 requests) refl (active-HasProgress cursors 0 requests h) (j, q)
        a
    where
      among_active :
          (i : ℕ) (b : RequestState W) (active : List (ℕ × RequestState W))
          → active_requests cursors 0 requests ≡ (i, b) ∷ active
          → (r : RequestState W) → (r ≡ b) ⊎ ((k : ℕ) × IsAmong (k, r) active)
          → IsAmong r requests
      among_active i b active same r (inl e) =
          active-IsAmong cursors 0 i requests r
            (subst (λ xs. IsAmong (i, r) xs) (sym same) (inl (ap (λ z. (i, z)) e)))
      among_active i b active same r (inr (k, m)) =
          active-IsAmong cursors 0 k requests r (subst (λ xs. IsAmong (k, r) xs) (sym same) (inr m))

      go :
          (active : List (ℕ × RequestState W))
          → active_requests cursors 0 requests ≡ active
          → All (λ e. HasProgress cursors e.1) active
          → (e : ℕ × RequestState W) → IsAmong e active
          → (r : RequestState W) × (u : W) × (most_urgent cursors active ≡ ok (some r))
            × IsSelected requests cursors r u
      go [] same hs e a = absurd a
      go ((i, b) ∷ active) same ((u, p, n), hs) e a =
          let (r, found, l) = least_from-IsLeast cursors b u i active p n hs in
          (
            r,
            l.v,
            rw (p, found) refl,
            record {
              requested = among_active i b active same r l.one_of;
              progress = l.progress;
              least = λ z w m' lt' f.
                  let (k, a') = active-whole cursors 0 requests z m' lt' in
                  All_among
                    (λ y. (w : W) → progress_at y.1 (cursors y.1.request_id) ≡ ok w → l.v ≼ w)
                    ((i, b) ∷ active) (k, z)
                    (λ w f. subst (λ x. l.v ≼ x) (ok_injective (sym p ∙ f)) l.below_best, l.below)
                    (subst (λ xs. IsAmong (k, z) xs) same a') w f;
            },
          )

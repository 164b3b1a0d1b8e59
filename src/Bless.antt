-- ===== src/Bless.antt =====
-- The BLESS scheduler, baselines/bless/scheduler.py: profiles, requests and their squads.
pub mod Shares
pub mod Greedy
pub mod Squad
pub mod Partitions
pub mod Estimates
pub mod Times
pub mod Choice
pub mod Tests
use jetson_dlagreen.Dag.{has_duplicate}
use jetson_dlagreen.Common.Dict.{has_key, item_at, value_at}
use jetson_dlagreen.Common.{
  ℕ, ◌∷◌, [], none, some, zero, suc, Bool, List, Result, String, ok, if◌then◌else◌, ◌>>◌, ◌>>=◌,
  ◌&&◌, Option, true, not, err, str_eq, ltb, false, require, ◌==◌, length, value_error, map,
}
use jetson_dlagreen.Common.Int.{ℤ, pos, negsuc}
use jetson_dlagreen.Common.Float.{Float, nought, lt_ℤ, le_ℤ}

pub record KernelProfile (W : Type 0) : Type 0 where
  pub name : String
  pub cumulative_us : List (ℤ × W)
  pub duration_us : List (ℤ × W)
  pub native_share : ℤ

pub record RequestState (W : Type 0) : Type 0 where
  pub request_id : String
  pub target_us : W
  pub elapsed_us : W
  pub kernels : List (KernelProfile W)
  pub next_kernel : ℕ

pub record ScheduledKernel (W : Type 0) : Type 0 where
  pub request_id : String
  pub kernel_index : ℕ
  pub profile : KernelProfile W

abbrev pub keys_within : {W : Type 0} → List (ℤ × W) → List (ℤ × W) → Bool
keys_within [] other = true
keys_within ((k, v) ∷ d) other = has_key k other && keys_within d other

-- 0 <= index < n, as a number.
abbrev pub index_below : ℤ → ℕ → Result ℕ
index_below (pos i) n =
    if ltb i n then ok i else err (value_error "next kernel is outside the request")
index_below (negsuc i) n = err (value_error "next kernel is outside the request")

abbrev pub is_nil : {A : Type 0} → List A → Bool
is_nil [] = true
is_nil (x ∷ xs) = false

abbrev pub advance : (String → ℕ) → String → String → ℕ
advance cursors id other = if str_eq id other then suc (cursors other) else cursors other

-- int > 0, as a number.
abbrev pub checked_maximum : ℤ → Result ℕ
checked_maximum (pos (suc n)) = ok (suc n)
checked_maximum _ = err (value_error "maximum_kernels must be positive")

module _ {W : Type 0} ⦃d : Float W⦄ where
  -- Finite and above zero.
  abbrev pub is_positive : W → Bool
  is_positive x = d.is_finite x && not (d.le x nought)

  -- One round of the loop over the shares.
  unfoldable pub check_share : List (ℤ × W) → List (ℤ × W) → ℤ → Result (Unit {0})
  check_share cumulative duration share = do
    require (lt_ℤ (pos 0) share && le_ℤ share (pos 100))
        (value_error "profile shares must be in (0, 100]")
    total ← value_at share cumulative
    own ← value_at share duration
    require (is_positive total && is_positive own)
        (value_error "profile times must be finite and positive")

  unfoldable pub check_shares : List (ℤ × W) → List (ℤ × W) → List (ℤ × W) → Result (Unit {0})
  check_shares cumulative duration [] = ok tt
  check_shares cumulative duration ((share, v) ∷ shares) = do
    check_share cumulative duration share
    check_shares cumulative duration shares

  -- KernelProfile(…) with its __post_init__; a set of shares is visited in the dictionary's order.
  unfoldable pub kernel_profile :
      String → List (ℤ × W) → List (ℤ × W) → ℤ → Result (KernelProfile W)
  kernel_profile name cumulative duration native = do
    require
        (not (str_eq name "")
          && (keys_within cumulative duration && keys_within duration cumulative))
        (value_error "kernel profile shares must match")
    require (has_key native cumulative) (value_error "native share must be profiled")
    check_shares cumulative duration cumulative
    ok (record {
      name = name;
      cumulative_us = cumulative;
      duration_us = duration;
      native_share = native;
    })

  -- RequestState(…) with its __post_init__.
  unfoldable pub request_state :
      String → W → W → List (KernelProfile W) → ℤ → Result (RequestState W)
  request_state request_id target elapsed kernels next = do
    require (not (str_eq request_id "") && not (is_nil kernels))
        (value_error "request id and kernels are required")
    require (is_positive target) (value_error "target must be finite and positive")
    require (d.is_finite elapsed && not (d.lt elapsed nought))
        (value_error "elapsed time must be finite and nonnegative")
    index ← index_below next (length kernels)
    ok (record {
      request_id = request_id;
      target_us = target;
      elapsed_us = elapsed;
      kernels = kernels;
      next_kernel = index;
    })

  -- elapsed over the cumulative time at the whole device, of the kernel at `cursor`.
  unfoldable pub progress_at : RequestState W → ℕ → Result W
  progress_at r cursor = do
    kernel ← item_at r.kernels cursor
    expected ← value_at (pos 100) kernel.cumulative_us
    ok (d.div r.elapsed_us expected)

  unfoldable pub relative_progress : RequestState W → Result W
  relative_progress r = progress_at r r.next_kernel

  -- cursors, as a total function: it is only read at the requests' ids.
  abbrev pub initial_cursors : List (RequestState W) → String → ℕ
  initial_cursors [] id = 0
  initial_cursors (r ∷ requests) id =
      if str_eq r.request_id id then r.next_kernel else initial_cursors requests id

  -- The requests with a kernel left, each with its index.
  unfoldable pub active_requests :
      (String → ℕ) → ℕ → List (RequestState W) → List (ℕ × RequestState W)
  active_requests cursors i [] = []
  active_requests cursors i (r ∷ requests) =
      if ltb (cursors r.request_id) (length r.kernels)
      then (i, r) ∷ active_requests cursors (suc i) requests
      else active_requests cursors (suc i) requests

  -- (u, i) < (v, j), as tuples compare.
  abbrev pub urgency_lt : W → ℕ → W → ℕ → Bool
  urgency_lt u i v j = if d.eq u v then ltb i j else d.lt u v

  -- min(active, key=urgency), from a first request and its key.
  unfoldable pub least_from :
      (String → ℕ) → RequestState W → W → ℕ → List (ℕ × RequestState W) → Result (RequestState W)
  least_from cursors best u i [] = ok best
  least_from cursors best u i ((j, r) ∷ active) = do
    v ← progress_at r (cursors r.request_id)
    least_from cursors (if urgency_lt v j u i then r else best)
        (if urgency_lt v j u i then v else u) (if urgency_lt v j u i then j else i) active

  unfoldable pub most_urgent :
      (String → ℕ) → List (ℕ × RequestState W) → Result (Option (RequestState W))
  most_urgent cursors [] = ok none
  most_urgent cursors ((i, r) ∷ active) = do
    u ← progress_at r (cursors r.request_id)
    selected ← least_from cursors r u i active
    ok (some selected)

  -- The rest of a round: nothing is active, or the selected request's kernel is scheduled, and the
  -- loop goes on unless that was its last.
  unfoldable pub schedule :
      ((String → ℕ) → Result (List (ScheduledKernel W)))
      → (String → ℕ)
      → Option (RequestState W)
      → Result (List (ScheduledKernel W))
  schedule loop cursors none = ok []
  schedule loop cursors (some r) = do
    kernel ← item_at r.kernels (cursors r.request_id)
    rest ←
        if suc (cursors r.request_id) == length r.kernels
        then ok []
        else loop (advance cursors r.request_id)
    ok (
        record { request_id = r.request_id; kernel_index = cursors r.request_id; profile = kernel }
        ∷ rest)

  -- The kernels that the loop appends while there is place for so many.
  unfoldable pub squad_from :
      List (RequestState W) → ℕ → (String → ℕ) → Result (List (ScheduledKernel W))
  squad_from requests zero cursors = ok []
  squad_from requests (suc room) cursors = do
    selected ← most_urgent cursors (active_requests cursors 0 requests)
    schedule (λ c. squad_from requests room c) cursors selected

  unfoldable pub form_kernel_squad : List (RequestState W) → ℤ → Result (List (ScheduledKernel W))
  form_kernel_squad [] maximum = checked_maximum maximum >>= λ n. ok []
  form_kernel_squad (r ∷ requests) maximum = do
    n ← checked_maximum maximum
    require (not (has_duplicate (map (λ q. q.request_id) (r ∷ requests))))
        (value_error "request ids must be unique")
    squad_from (r ∷ requests) n (initial_cursors (r ∷ requests))

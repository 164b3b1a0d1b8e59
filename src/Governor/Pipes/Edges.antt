-- ===== src/Governor/Pipes/Edges.antt =====
-- Which tenants the pipes join, and what becomes of the descriptors when a pipe cannot be made.
use jetson_dlagreen.Governor.Placement.Partition.{IsPartition}
use jetson_dlagreen.Governor.Results.{same_modality}
use jetson_dlagreen.Governor.Placement.{WorkerAction}
use jetson_dlagreen.Governor.Pipes.{
  DependencyPipe, by_tenant, upstream_of, open_pipes, dependency_pipes_for_plan, fds_of,
  PlacementPlan,
}
use jetson_dlagreen.Governor.Workload.{Modality, audio, language}
use jetson_dlagreen.Common.{
  ℕ, List, ◌∷◌, suc, ◌≡◌, [], ◌<◌, ◌++◌, none, some, arith, if◌then◌else◌, refl, ◌&&◌, ◌-◌, Result,
  ok, map, Bool, append-nil, append_assoc, Bool-cases, inr, inl, length, ◌∙◌, count_up, Error, err,
  zero, take, ap, String, Option-cases, Result-cases, str_eq, length-append,
}

-- Each language request right behind an audio request waits for it.
abbrev pub handoffs : ℕ → Modality → List Modality → List (ℕ × ℕ)
handoffs i m [] = []
handoffs i audio (language ∷ ms) = (i, suc i) ∷ handoffs (suc i) language ms
handoffs i m (m' ∷ ms) = handoffs (suc i) m' ms

abbrev pub all_handoffs : List Modality → List (ℕ × ℕ)
all_handoffs [] = []
all_handoffs (m ∷ ms) = handoffs 0 m ms

abbrev pub edge : DependencyPipe → ℕ × ℕ
edge p = (p.upstream_tenant_id, p.downstream_tenant_id)

-- The tenants of consecutive actions.
abbrev pub NumberedFrom : ℕ → List WorkerAction → Type 0
NumberedFrom i [] = Unit {0}
NumberedFrom i (a ∷ actions) = (a.tenant_id ≡ i) × NumberedFrom (suc i) actions

by_tenant-none :
    (i t : ℕ) (actions : List WorkerAction)
    → NumberedFrom i actions
    → t < i
    → by_tenant actions t ≡ none
unfolding by_tenant
by_tenant-none i t [] h lt = refl
by_tenant-none i t (a ∷ actions) (h, hs) lt =
    rw (by_tenant-none (suc i) t actions hs (omega arith), h) (ground arith)

by_tenant-here :
    (i : ℕ) (pre rest : List WorkerAction) (a : WorkerAction)
    → a.tenant_id ≡ i
    → NumberedFrom (suc i) rest
    → by_tenant (pre ++ a ∷ rest) i ≡ some a
unfolding by_tenant
by_tenant-here i [] rest a h hs =
    rw (by_tenant-none (suc i) i rest hs (omega arith), h) (ground arith)
by_tenant-here i (b ∷ pre) rest a h hs = rw (by_tenant-here i pre rest a h hs)

-- The upstream of the action behind `a`.
upstream_next :
    (i : ℕ) (pre rest : List WorkerAction) (a b : WorkerAction)
    → a.tenant_id ≡ i
    → NumberedFrom (suc i) (b ∷ rest)
    → upstream_of (pre ++ a ∷ b ∷ rest) b ≡ (
        if same_modality b.modality language && same_modality a.modality audio
        then some a
        else none)
unfolding upstream_of
upstream_next i pre rest a b h (k, ks) =
    let before : b.tenant_id - 1 ≡ i = omega arith in
    let found : by_tenant (pre ++ a ∷ b ∷ rest) (b.tenant_id - 1) ≡ some a =
      rw before (by_tenant-here i pre (b ∷ rest) a h (k, ks)) in
    rw found (ground arith)

-- Whether `m'` right behind `m` is joined to it.
abbrev joins : Modality → Modality → Bool
joins m m' = same_modality m' language && same_modality m audio

handoffs_step :
    (i : ℕ) (m m' : Modality) (ms : List Modality)
    → handoffs i m (m' ∷ ms)
      ≡ (if joins m m' then (i, suc i) ∷ handoffs (suc i) m' ms else handoffs (suc i) m' ms)
handoffs_step i audio language ms = refl
handoffs_step i audio audio ms = refl
handoffs_step i language language ms = refl
handoffs_step i language audio ms = refl

numbered_up :
    (i n : ℕ) (actions : List WorkerAction)
    → map (λ a. a.tenant_id) actions ≡ count_up i n
    → NumberedFrom i actions
numbered_up i n [] h = tt
numbered_up i zero (a ∷ actions) h = cc h
numbered_up i (suc n) (a ∷ actions) h = (cc h, numbered_up (suc i) n actions (cc h))

first_alone :
    (a : WorkerAction) (rest : List WorkerAction)
    → a.tenant_id ≡ 0
    → upstream_of (a ∷ rest) a ≡ none
unfolding upstream_of
first_alone a rest h = ground arith

fds_of-append : (xs ys : List DependencyPipe) → fds_of (xs ++ ys) ≡ fds_of xs ++ fds_of ys
fds_of-append [] ys = refl
fds_of-append (x ∷ xs) ys = rw (fds_of-append xs ys)

module _ (pipe : ℕ → Result (ℕ × ℕ)) where
  -- The pipes that the rest of the loop makes, behind those made before.
  abbrev Makes : List WorkerAction → List WorkerAction → List DependencyPipe → List (ℕ × ℕ) → Type 0
  Makes actions rest pipes edges =
      (new : List DependencyPipe) × (open_pipes pipe actions rest pipes ≡ (ok (pipes ++ new), []))
      × (map edge new ≡ edges)

  loop_edges :
      (h : (k : ℕ) → (fds : ℕ × ℕ) × (pipe k ≡ ok fds)) (i : ℕ) (pre : List WorkerAction)
      (a : WorkerAction) (rest : List WorkerAction) (pipes : List DependencyPipe)
      → a.tenant_id ≡ i
      → NumberedFrom (suc i) rest
      → Makes (pre ++ a ∷ rest) rest pipes (handoffs i a.modality (map (λ b. b.modality) rest))
  unfolding open_pipes
  loop_edges h i pre a [] pipes e n = ([], rw (append-nil pipes), refl)
  loop_edges h i pre a (b ∷ rest) pipes e (k, ks) =
      let further : (made : List DependencyPipe)
          → Makes (pre ++ a ∷ b ∷ rest) rest made
              (handoffs (suc i) b.modality (map (λ c. c.modality) rest)) =
        λ made. rw append_assoc at (loop_edges h (suc i) (pre ++ a ∷ []) b rest made k ks) in
      elim (Bool-cases (joins a.modality b.modality)) [
        | inr apart ↦
            let (new, made, edges) = further pipes in
            (
              new,
              rw (up, apart, open_pipes) made,
              rw (handoffs_step i a.modality b.modality, apart) edges,
            )
        | inl joined ↦
            let ((r, w), opened) = h (length pipes) in
            let (new, made, edges) = further (pipes ++ joint r w ∷ []) in
            (
              joint r w ∷ new,
              rw (up, joined, opened, open_pipes)
                  (made ∙ cc (append_assoc pipes (joint r w ∷ []) new)),
              rw (handoffs_step i a.modality b.modality, joined) (cc (edges, e, k)),
            )
      ]
    where
      up :
          upstream_of (pre ++ a ∷ b ∷ rest) b
          ≡ (if joins a.modality b.modality then some a else none)
      up = upstream_next i pre rest a b e (k, ks)

      joint : ℕ → ℕ → DependencyPipe
      joint r w = record {
        upstream_tenant_id = a.tenant_id;
        downstream_tenant_id = b.tenant_id;
        read_fd = r;
        write_fd = w;
      }

  all_edges :
      (h : (k : ℕ) → (fds : ℕ × ℕ) × (pipe k ≡ ok fds)) (actions : List WorkerAction)
      → NumberedFrom 0 actions
      → Makes actions actions [] (all_handoffs (map (λ a. a.modality) actions))
  unfolding open_pipes
  all_edges h [] n = ([], refl, refl)
  all_edges h (a ∷ rest) (e, n) =
      let (new, made, edges) = loop_edges h 0 [] a rest [] e n in
      let alone : upstream_of (a ∷ rest) a ≡ none = first_alone a rest e in
      (new, rw (alone, open_pipes) made, edges)

  -- Where os.pipe never fails, the pipes of a partition's plan in the dependent scenario join each
  -- admitted language tenant that stands right behind an audio tenant to that tenant, and no others;
  -- nothing is closed.
  pub dependency-handoffs :
      (h : (k : ℕ) → (fds : ℕ × ℕ) × (pipe k ≡ ok fds)) (offered : List Modality)
      (limit quota borrower_quota : ℕ) (p : PlacementPlan)
      → IsPartition offered limit quota borrower_quota p
      → (pipes : List DependencyPipe) × (dependency_pipes_for_plan pipe p "dependent"
          ≡ (ok pipes, []))
        × (map edge pipes ≡ all_handoffs (take limit offered))
  unfolding dependency_pipes_for_plan
  dependency-handoffs h offered limit quota borrower_quota p part =
      let (new, made, edges) =
        all_edges h (p.residents ++ p.borrowers) (numbered_up 0 _ _ part.numbers) in
      (new, made, edges ∙ ap all_handoffs part.admits)

  -- What the first `k` calls of os.pipe opened.
  abbrev pub opened : ℕ → List ℕ
  opened zero = []
  opened (suc k) = opened k ++ elim (pipe k) [ ok (r, w) ↦ r ∷ w ∷ [] | err e ↦ [] ]

  opened_grow :
      (pipes : List DependencyPipe) (joint : DependencyPipe)
      → pipe (length pipes) ≡ ok (joint.read_fd, joint.write_fd)
      → fds_of pipes ≡ opened (length pipes)
      → fds_of (pipes ++ joint ∷ []) ≡ opened (length (pipes ++ joint ∷ []))
  opened_grow pipes joint made o =
      let one : length (pipes ++ joint ∷ []) ≡ suc (length pipes) =
        omega (arith, length-append pipes (joint ∷ [])) in
      rw (one, fds_of-append pipes (joint ∷ []), made, o) refl

  loop_failure :
      (actions rest : List WorkerAction) (pipes : List DependencyPipe) (e : Error) (closed : List ℕ)
      → fds_of pipes ≡ opened (length pipes)
      → open_pipes pipe actions rest pipes ≡ (err e, closed)
      → (k : ℕ) × (pipe k ≡ err e) × (closed ≡ opened k)
  unfolding open_pipes
  loop_failure actions [] pipes e closed o h = cc h
  loop_failure actions (a ∷ rest) pipes e closed o h = elim (Option-cases (upstream_of actions a)) [
    | inl alone ↦ loop_failure actions rest pipes e closed o (rw (alone, open_pipes) at h)
    | inr (up, joined) ↦ elim (Result-cases (pipe (length pipes))) [
      | inr (e', failed) ↦
          let stopped : (err e', fds_of pipes) ≡ (err e, closed) =
            rw (joined, failed, open_pipes) at h in
          (length pipes, cc (failed, stopped), cc (o, stopped))
      | inl ((r, w), made) ↦
          let joint : DependencyPipe = record {
            upstream_tenant_id = up.tenant_id;
            downstream_tenant_id = a.tenant_id;
            read_fd = r;
            write_fd = w;
          } in
          loop_failure actions rest (pipes ++ joint ∷ []) e closed (opened_grow pipes joint made o)
            (rw (joined, made, open_pipes) at h)
    ]
  ]

  -- Where dependency_pipes_for_plan raises, it raises the error of the call of os.pipe that failed,
  -- and closes exactly the descriptors that the calls before it opened, in order.
  pub dependency-failure_closes :
      (plan : PlacementPlan) (scenario : String) (e : Error) (closed : List ℕ)
      → dependency_pipes_for_plan pipe plan scenario ≡ (err e, closed)
      → (k : ℕ) × (pipe k ≡ err e) × (closed ≡ opened k)
  unfolding dependency_pipes_for_plan
  dependency-failure_closes plan scenario e closed h =
      elim (Bool-cases (str_eq scenario "dependent")) [
        | inr other ↦ cc (rw (other, dependency_pipes_for_plan) at h)
        | inl dependent ↦
            loop_failure (plan.residents ++ plan.borrowers) (plan.residents ++ plan.borrowers) [] e
              closed refl (rw (dependent, dependency_pipes_for_plan) at h)
      ]

-- ===== src/Bless/Partitions.antt =====
-- The strict partitions: which dictionaries strict_share_configurations lists.
use jetson_dlagreen.Bless.{is_nil, has_duplicate, value_error}
use jetson_dlagreen.Bless.Shares.{
  insert_share, sorted_set, prefix_all, each_share, strict_share_configurations, assignments,
  total_share, all_strict,
}
use jetson_dlagreen.Common.Dict.{IsAmong, keep}
use jetson_dlagreen.Common.Float.{eq_ℤ, lt_ℤ}
use jetson_dlagreen.Common.Int.{ℤ, eq_of_parts, pos}
use jetson_dlagreen.Common.{
  ◌∷◌, [], inl, inr, Bool, List, ◌≡◌, ◌++◌, ◌↔◌, true, ◌⊎◌, ==_iff, ap, ◌∙◌, Bool-cases, subst,
  String, arith, false, refl, sym, All, map, ok, >>=-eq-ok, require, not, ◌&&◌, ok_injective,
}

cons_head : {A : Type 0} {x y : A} {xs ys : List A} → x ∷ xs ≡ y ∷ ys → x ≡ y
cons_head h = cc

cons_tail : {A : Type 0} {x y : A} {xs ys : List A} → x ∷ xs ≡ y ∷ ys → xs ≡ ys
cons_tail h = cc

clash : ¬ (false ≡ true)
clash h = cc

eq_ℤ_refl : (a : ℤ) → eq_ℤ a a ≡ true
eq_ℤ_refl a = ground arith

pub eq_ℤ_iff : (a b : ℤ) → (eq_ℤ a b ≡ true) ↔ (a ≡ b)
eq_ℤ_iff a b =
    (λ h. eq_of_parts a b ((==_iff _ _).0 h), λ h. subst (λ z. eq_ℤ a z ≡ true) h (eq_ℤ_refl a))

insert_share-IsAmong :
    (s t : ℤ) (xs : List ℤ) → IsAmong t (insert_share s xs) ↔ ((t ≡ s) ⊎ IsAmong t xs)
insert_share-IsAmong s t [] = ((λ h. h), λ h. h)
insert_share-IsAmong s t (x ∷ xs) = elim (Bool-cases (eq_ℤ s x)) [
  | inl same ↦
      rw same (λ h. inr h, λ h. elim h [ inl e ↦ inl (e ∙ (eq_ℤ_iff s x).0 same) | inr m ↦ m ])
  | inr apart ↦ elim (Bool-cases (lt_ℤ s x)) [
    | inl lower ↦ rw (apart, lower) (λ h. h, λ h. h)
    | inr higher ↦ rw (apart, higher) (ground (arith, insert_share-IsAmong s t xs))
  ]
]

pub sorted_set-IsAmong : (t : ℤ) (xs : List ℤ) → IsAmong t (sorted_set xs) ↔ IsAmong t xs
sorted_set-IsAmong t [] = ((λ h. h), λ h. h)
sorted_set-IsAmong t (x ∷ xs) =
    ground (arith, insert_share-IsAmong x t (sorted_set xs), sorted_set-IsAmong t xs)

keep-IsAmong :
    {A : Type 0} (test : A → Bool) (x : A) (xs : List A)
    → IsAmong x (keep test xs) ↔ (IsAmong x xs × (test x ≡ true))
keep-IsAmong test x [] = ((λ h. absurd h), λ h. absurd h.0)
keep-IsAmong test x (y ∷ ys) = elim (Bool-cases (test y)) [
  | inl holds ↦ rw holds (
    λ h. elim h [
      | inl e ↦ (inl e, ap test e ∙ holds)
      | inr m ↦ (inr ((keep-IsAmong test x ys).0 m).0, ((keep-IsAmong test x ys).0 m).1)
    ],
    λ h. elim h.0 [ inl e ↦ inl e | inr m ↦ inr ((keep-IsAmong test x ys).1 (m, h.1)) ],
  )
  | inr fails ↦ rw fails (
    λ h. (inr ((keep-IsAmong test x ys).0 h).0, ((keep-IsAmong test x ys).0 h).1),
    λ h. elim h.0 [
      | inl e ↦ absurd (clash (sym fails ∙ sym (ap test e) ∙ h.1))
      | inr m ↦ (keep-IsAmong test x ys).1 (m, h.1)
    ],
  )
]

IsAmong-append :
    {A : Type 0} (x : A) (xs ys : List A) → IsAmong x (xs ++ ys) ↔ (IsAmong x xs ⊎ IsAmong x ys)
IsAmong-append x [] ys = (λ h. inr h, λ h. elim h [ inl e ↦ absurd e | inr e ↦ e ])
IsAmong-append x (y ∷ xs) ys = ground (arith, IsAmong-append x xs ys)

-- The assignments are those of the requests, in order, to shares among the shares.
prefix_all-IsAmong :
    {A : Type 0} (a : A) (x : List A) (candidates : List (List A))
    → IsAmong x (prefix_all a candidates) ↔ ((c : List A) × (x ≡ a ∷ c) × IsAmong c candidates)
prefix_all-IsAmong a x [] = (λ h. absurd h, λ h. absurd h.2)
prefix_all-IsAmong a x (c ∷ candidates) = (
  λ h. elim h [
    | inl e ↦ (c, e, inl refl)
    | inr m ↦ let (b, e, k) = (prefix_all-IsAmong a x candidates).0 m in (b, e, inr k)
  ],
  λ h.
      let (b, e, m) = h in
      elim m [
        | inl same ↦ inl (e ∙ ap (◌∷◌ a) same)
        | inr k ↦ inr ((prefix_all-IsAmong a x candidates).1 (b, e, k))
      ],
)

each_share-IsAmong :
    (id : String) (shares : List ℤ) (x : List (String × ℤ)) (candidates : List (List (String × ℤ)))
    → IsAmong x (each_share id shares candidates) ↔ (
        (s : ℤ) × (c : List (String × ℤ)) × (x ≡ (id, s) ∷ c)
        × IsAmong s shares
        × IsAmong c candidates)
each_share-IsAmong id [] x candidates = (λ h. absurd h, λ h. absurd h.3)
each_share-IsAmong id (s ∷ shares) x candidates = (
  λ h.
      elim ((IsAmong-append x (prefix_all (id, s) candidates) (each_share id shares candidates)).0
        h) [
          | inl m ↦
              let (c, e, k) = (prefix_all-IsAmong (id, s) x candidates).0 m in
              (s, c, e, inl refl, k)
          | inr m ↦
              let (t, c, e, k, l) = (each_share-IsAmong id shares x candidates).0 m in
              (t, c, e, inr k, l)
        ],
  λ h.
      let (t, c, e, k, l) = h in
      (IsAmong-append x (prefix_all (id, s) candidates) (each_share id shares candidates)).1
        (elim k [
          | inl same ↦
              inl
                ((prefix_all-IsAmong (id, s) x candidates).1 (c, e ∙ ap (λ z. (id, z) ∷ c) same, l))
          | inr m ↦ inr ((each_share-IsAmong id shares x candidates).1 (t, c, e, m, l))
        ]),
)

-- A dictionary with the requests for its keys, in order, and shares among the allowed.
abbrev pub IsAssignment : List String → List ℤ → List (String × ℤ) → Type 0
IsAssignment ids shares x = (map (λ e. e.0) x ≡ ids) × All (λ e. IsAmong e.1 shares) x

assignments_complete :
    (ids : List String) (shares : List ℤ) (x : List (String × ℤ))
    → IsAssignment ids shares x
    → IsAmong x (assignments ids shares)
unfolding assignments
assignments_complete [] shares [] h = inl refl
assignments_complete [] shares (e ∷ x) (h, k) = cc
assignments_complete (id ∷ ids) shares [] (h, k) = cc
assignments_complete (id ∷ ids) shares ((j, s) ∷ x) (h, (k, ks)) =
    (each_share-IsAmong id shares _ (assignments ids shares)).1 (
      s,
      x,
      ap (λ z. (z, s) ∷ x) (cons_head h),
      k,
      assignments_complete ids shares x (cons_tail h, ks),
    )

assignments-IsAssignment :
    (ids : List String) (shares : List ℤ) (x : List (String × ℤ))
    → IsAmong x (assignments ids shares)
    → IsAssignment ids shares x
unfolding assignments
assignments-IsAssignment [] shares x (inl e) =
    subst (λ z. IsAssignment [] shares z) (sym e) (refl, tt)
assignments-IsAssignment [] shares x (inr m) = absurd m
assignments-IsAssignment (id ∷ ids) shares x m =
    let (s, c, e, k, l) = (each_share-IsAmong id shares x (assignments ids shares)).0 m in
    let (h, a) = assignments-IsAssignment ids shares c l in
    subst (λ z. IsAssignment (id ∷ ids) shares z) (sym e) (ap (◌∷◌ id) h, (k, a))

-- The shares of a set, seen from the list that it was made of.
All-set :
    (allowed : List ℤ) (x : List (String × ℤ))
    → All (λ e. IsAmong e.1 (sorted_set allowed)) x ↔ All (λ e. IsAmong e.1 allowed) x
All-set allowed [] = (λ h. tt, λ h. tt)
All-set allowed (e ∷ x) = (
  λ h. ((sorted_set-IsAmong e.1 allowed).0 h.0, (All-set allowed x).0 h.1),
  λ h. ((sorted_set-IsAmong e.1 allowed).1 h.0, (All-set allowed x).1 h.1),
)

-- The configurations are the assignments of allowed shares that sum to the whole device.
pub strict_share_configurations-exact :
    (ids : List String) (allowed : List ℤ) (configurations : List (List (String × ℤ)))
    (x : List (String × ℤ))
    → strict_share_configurations ids allowed ≡ ok configurations
    → IsAmong x configurations ↔ (IsAssignment ids allowed x × (total_share x ≡ pos 100))
unfolding strict_share_configurations
strict_share_configurations-exact ids allowed configurations x h =
    let (u, p, h1) =
      >>=-eq-ok
        (require (not (is_nil ids) && not (has_duplicate ids))
          (value_error "request ids must be nonempty and unique"))
        _ h in
    let (v, q, h2) =
      >>=-eq-ok
        (require (all_strict (sorted_set allowed))
          (value_error "strict shares must be in (0, 100)"))
        _ h1 in
    subst (λ cs. IsAmong x cs ↔ (IsAssignment ids allowed x × (total_share x ≡ pos 100)))
      (ok_injective h2)
      (
        λ m.
            let (l, e) = (keep-IsAmong _ x _).0 m in
            let (k, a) = assignments-IsAssignment ids (sorted_set allowed) x l in
            ((k, (All-set allowed x).0 a), (eq_ℤ_iff _ _).0 e),
        λ a. (keep-IsAmong _ x _).1 (
          assignments_complete ids (sorted_set allowed) x (a.0.0, (All-set allowed x).1 a.0.1),
          (eq_ℤ_iff _ _).1 a.1,
        ),
      )

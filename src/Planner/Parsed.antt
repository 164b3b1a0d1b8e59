-- ===== src/Planner/Parsed.antt =====
-- What parse_candidate accepts, and what it makes of it.
use jetson_dlagreen.Dag.{nonempty_text}
use jetson_dlagreen.Common.Json.{keys}
use jetson_dlagreen.Planner.Described.{
  IsParsed, IsTextOr, All-all_in, get_item-found, IsTextOr-default, IsScope-in,
  IsAmount-finite_nonnegative, IsScope, get_default-cases, text_injective, scope-text, split_and,
  nonempty_text-value, read_placement-value, read_scope-value, read_path-value, all_in-All,
  get_item-value, text-IsTextOr, HasAmount-read,
}
use jetson_dlagreen.Common.{
  ◌≡◌, ok, ◌↔◌, str_eq, false, inl, subst, sym, inr, refl, ◌∙◌, ap, some, >>=-eq-ok, require-true,
  ok_injective, ◌++◌,
}
use jetson_dlagreen.Planner.Candidates.{
  parse_candidate, check_keys, read_placement, read_scope, read_path, get_item, all_in,
  required_keys, all_text, placement_keys, optional_keys, metadata,
}
use jetson_dlagreen.Planner.{
  Builtins, String, Result, Fields, Candidate, get_default, str, finite_nonnegative,
}
use jetson_dlagreen.Common.Float.{Float, IsIeee}

module _ {W : Type 0} ⦃d : Float W⦄ (laws : IsIeee W) (b : Builtins W)
    (resolve : String → Result String) where
  parse_candidate-reads :
      (raw : Fields W) (c : Candidate W)
      → parse_candidate b resolve raw ≡ ok c
      → IsParsed b resolve raw c
  unfolding parse_candidate check_keys
  parse_candidate-reads raw c h =
      let (u, k, h1) = >>=-eq-ok (check_keys (keys raw)) _ h in
      let (id, i, h2) = >>=-eq-ok (get_item "candidate_id" raw) _ h1 in
      let (name, n, h3) =
        >>=-eq-ok (nonempty_text id "candidate_id must be a nonempty internal identifier") _ h2 in
      let (placed, p, h4) = >>=-eq-ok (get_item "placement" raw) _ h3 in
      let (placement, q, h5) = >>=-eq-ok (read_placement placed) _ h4 in
      let (variant, v, h6) =
        >>=-eq-ok
          (nonempty_text (get_default "placement_variant" (str "fixed-1g-producer-2g-consumer") raw)
            "placement_variant must be a nonempty string")
          _ h5 in
      let (scope, s, h7) =
        >>=-eq-ok (read_scope (get_default "protection_scope" (str "producer") raw)) _ h6 in
      let (path, r, h8) = >>=-eq-ok (get_item "profile_path" raw) _ h7 in
      let (profile_path, t, h9) = >>=-eq-ok (read_path resolve path) _ h8 in
      let (gv, g1, h10) = >>=-eq-ok (get_item "background_goodput_rps" raw) _ h9 in
      let (goodput, g2, h11) = >>=-eq-ok (finite_nonnegative b gv) _ h10 in
      let (uv, u1, h12) = >>=-eq-ok (get_item "pre_release_guard_p99_us" raw) _ h11 in
      let (guard, u2, h13) = >>=-eq-ok (finite_nonnegative b uv) _ h12 in
      let (mv, m1, h14) = >>=-eq-ok (get_item "reservation_margin_us" raw) _ h13 in
      let (margin, m2, h15) = >>=-eq-ok (finite_nonnegative b mv) _ h14 in
      let (known, complete) = split_and _ (all_in required_keys (keys raw)) (require-true _ _ k) in
      let (id_text, id_some) = nonempty_text-value id _ name n in
      let (placed_obj, placed_test) = read_placement-value placed placement q in
      let (placed_keys, placed_text) = split_and _ (all_text placement) placed_test in
      let (placed_known, placed_complete) =
        split_and _ (all_in placement_keys (keys placement)) placed_keys in
      let (scope_text, scope_known) = read_scope-value _ scope s in
      let (path_name, path_text, resolved) = read_path-value resolve path profile_path t in
      subst (IsParsed b resolve raw) (ok_injective h15) (record {
        known = all_in-All (keys raw) (required_keys ++ optional_keys ++ metadata) known;
        complete = all_in-All required_keys (keys raw) complete;
        candidate_id = (get_item-value "candidate_id" raw id i ∙ ap some id_text, id_some);
        placement = get_item-value "placement" raw placed p ∙ ap some placed_obj;
        placement_known = all_in-All (keys placement) placement_keys placed_known;
        placement_complete = all_in-All placement_keys (keys placement) placed_complete;
        placement_text = placed_text;
        variant = text-IsTextOr "placement_variant" "fixed-1g-producer-2g-consumer" _ variant raw v;
        scope = scope-IsTextOr raw scope scope_text scope_known;
        scope_known = scope_known;
        path = (path_name, get_item-value "profile_path" raw path r ∙ ap some path_text, resolved);
        goodput = HasAmount-read laws b "background_goodput_rps" raw gv goodput g1 g2;
        guard = HasAmount-read laws b "pre_release_guard_p99_us" raw uv guard u1 u2;
        margin = HasAmount-read laws b "reservation_margin_us" raw mv margin m1 m2;
      })
    where
      scope-IsTextOr :
          (raw : Fields W) (scope : String)
          → get_default "protection_scope" (str "producer") raw ≡ str scope
          → IsScope scope
          → IsTextOr "protection_scope" "producer" raw scope
      scope-IsTextOr raw scope e k =
          elim (get_default-cases "protection_scope" (str "producer") raw) [
            | inl (f, g) ↦ inl (f, text_injective (sym e ∙ g))
            | inr f ↦ inr (f ∙ ap some e, scope-text scope k)
          ]

  IsParsed-parse_candidate :
      (raw : Fields W) (c : Candidate W)
      → IsParsed b resolve raw c
      → parse_candidate b resolve raw ≡ ok c
  unfolding parse_candidate check_keys read_placement read_scope read_path
  IsParsed-parse_candidate raw c p =
      let (id, id_some) = p.candidate_id in
      let (path, path_found, resolved) = p.path in
      let (gv, g1, g2) = p.goodput in
      let (uv, u1, u2) = p.guard in
      let (mv, m1, m2) = p.margin in
      let variant_some = IsTextOr-some raw c.placement_variant p.variant in
      rw
        (
          All-all_in _ _ p.known,
          All-all_in _ _ p.complete,
          get_item-found "candidate_id" raw _ id,
          id_some,
          get_item-found "placement" raw _ p.placement,
          All-all_in _ _ p.placement_known,
          All-all_in _ _ p.placement_complete,
          p.placement_text,
          IsTextOr-default "placement_variant" "fixed-1g-producer-2g-consumer" _ raw p.variant,
          variant_some,
          IsTextOr-default "protection_scope" "producer" _ raw p.scope,
          IsScope-in c.protection_scope p.scope_known,
          get_item-found "profile_path" raw _ path_found,
          resolved,
          get_item-found "background_goodput_rps" raw _ g1,
          IsAmount-finite_nonnegative laws b gv c.background_goodput_rps g2,
          get_item-found "pre_release_guard_p99_us" raw _ u1,
          IsAmount-finite_nonnegative laws b uv c.pre_release_guard_p99_us u2,
          get_item-found "reservation_margin_us" raw _ m1,
          IsAmount-finite_nonnegative laws b mv c.reservation_margin_us m2,
        )
        refl
    where
      IsTextOr-some :
          (raw : Fields W) (s : String)
          → IsTextOr "placement_variant" "fixed-1g-producer-2g-consumer" raw s
          → str_eq s "" ≡ false
      IsTextOr-some raw s (inl (e, same)) = subst (λ z. str_eq z "" ≡ false) (sym same) refl
      IsTextOr-some raw s (inr (e, k)) = k

  -- Under the float laws parse_candidate accepts exactly the objects that describe a candidate, and
  -- returns that candidate: their keys are known and complete, and the candidate's identifier,
  -- placement, placement variant, protection scope, resolved profile path, goodput, guard and margin
  -- are what the object has at the key of each, or where two keys may be left out their defaults; the
  -- texts are not empty, the scope is one of the three, the numbers are finite and not negative.
  pub parse_candidate-IsParsed :
      (raw : Fields W) (c : Candidate W)
      → (parse_candidate b resolve raw ≡ ok c) ↔ IsParsed b resolve raw c
  parse_candidate-IsParsed raw c = (parse_candidate-reads raw c, IsParsed-parse_candidate raw c)

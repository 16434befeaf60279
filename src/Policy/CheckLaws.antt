-- ===== src/Policy/CheckLaws.antt =====
-- What each check of Validate in internal/groundwork/policy/policy.go lets pass.
use verdi_go.Prelude.{
  ℕ, ◌≡◌, refl, ◌↔◌, Bool, true, false, Option, none, some, List, [], arith, All, bool_Eq, eq_iff,
  nat_Eq, contains, list_Eq, Str, codes, Str_Eq, pair_Eq, refuse_if, check_each, check_each-none,
}
use verdi_go.Policy.Types.{
  Policy, Broker, Layer, Layering, ReachRule, PassRule, ConcurrentRule, IoBudget,
  BlindSpotException, BlindSpotRatchet, EffectException, EffectRatchet, blank,
}
use verdi_go.Policy.Validate.{
  PolicyError, no_selector, no_empty_pattern, names_no_side, check_layer, check_layering_config,
  check_reach_rule, check_concurrent_rule, check_pass_rule, check_budget, check_blind_spot_ratchet,
  must_not_reach_kind, no_concurrent_reach_kind, must_pass_through_kind, from_field, to_field,
  through_field, pass_allow_empty, layering_allow_empty, ratchet_site_required,
  effect_target_required, check_effect_ratchet, check_broker,
}
use verdi_go.Policy.WellFormed.{
  IsLayer, IsReachRule, IsConcurrentRule, IsPassRule, IsBroker, IsLayering, IsBudget, NamesSites,
  NamesEffects,
}

pub refuse_if-none {ℓ} : {E : Type ℓ} (b : Bool) (e : E) → (refuse_if b e ≡ none) ↔ (b ≡ false)
refuse_if-none true e = (λ h. cc, λ h. cc)
refuse_if-none false e = (λ h. refl, λ h. refl)

pub refuse_each :
    {A : Type 0} (p : A → Bool) (e : ℕ → A → PolicyError) (i : ℕ) (xs : List A)
    → (check_each (λ j x. refuse_if (p x) (e j x)) i xs ≡ none) ↔ All (λ x. p x ≡ false) xs
refuse_each p e = check_each-none _ _ (λ i x. refuse_if-none (p x) (e i x))

pub no_empty_pattern-none :
    (kind rule field : Str) (patterns : List Str)
    → (no_empty_pattern kind rule field patterns ≡ none) ↔ All (λ p. blank p ≡ false) patterns
unfolding no_empty_pattern
no_empty_pattern-none kind rule field patterns = refuse_each blank _ 0 patterns

pub check_layer_iff :
    (i : ℕ) (seen : List Str) (l : Layer)
    → (check_layer i seen l ≡ none) ↔ ((contains l.name seen ≡ false) × IsLayer l)
unfolding check_layer
check_layer_iff i seen l =
    let e = no_empty_pattern-none (codes "layer") l.name (codes "packages") l.packages in
    (
      λ h. (
        ground arith,
        record {
          named = ground arith;
          packages = record { given = ground arith; named = e.0 (ground arith) };
        },
      ),
      λ (n, v). ground (arith, n, v.named, v.packages.given, e.1 v.packages.named),
    )

pub check_reach_rule_iff :
    (i : ℕ) (seen : List Str) (r : ReachRule)
    → (check_reach_rule i seen r ≡ none) ↔ ((contains r.name seen ≡ false) × IsReachRule r)
unfolding check_reach_rule no_selector
check_reach_rule_iff i seen r =
    let f = no_empty_pattern-none must_not_reach_kind r.name from_field r.from in
    let t = no_empty_pattern-none must_not_reach_kind r.name to_field r.to in
    (
      λ h. (
        ground arith,
        record {
          named = ground arith;
          from = record { given = ground arith; named = f.0 (ground arith) };
          to = record { given = ground arith; named = t.0 (ground arith) };
          plain = ground arith;
        },
      ),
      λ (n, v).
          ground (
            arith,
            n,
            v.named,
            v.from.given,
            v.to.given,
            v.plain,
            f.1 v.from.named,
            t.1 v.to.named,
          ),
    )

pub check_concurrent_rule_iff :
    (i : ℕ) (seen : List Str) (r : ConcurrentRule)
    → (check_concurrent_rule i seen r ≡ none)
      ↔ ((contains r.name seen ≡ false) × IsConcurrentRule r)
unfolding check_concurrent_rule no_selector
check_concurrent_rule_iff i seen r =
    let t = no_empty_pattern-none no_concurrent_reach_kind r.name to_field r.to in
    (
      λ h. (
        ground arith,
        record {
          named = ground arith;
          to = record { given = ground arith; named = t.0 (ground arith) };
          plain = ground arith;
        },
      ),
      λ (n, v). ground (arith, n, v.named, v.to.given, v.plain, t.1 v.to.named),
    )

pub check_pass_rule_iff :
    (i : ℕ) (seen : List Str) (r : PassRule)
    → (check_pass_rule i seen r ≡ none) ↔ ((contains r.name seen ≡ false) × IsPassRule r)
unfolding check_pass_rule no_selector
check_pass_rule_iff i seen r =
    let f = no_empty_pattern-none must_pass_through_kind r.name from_field r.from in
    let t = no_empty_pattern-none must_pass_through_kind r.name to_field r.to in
    let u = no_empty_pattern-none must_pass_through_kind r.name through_field r.through in
    let s = refuse_each names_no_side (λ j a. pass_allow_empty i r.name j) 0 r.allow in
    (
      λ h. (
        ground arith,
        record {
          named = ground arith;
          from = record { given = ground arith; named = f.0 (ground arith) };
          to = record { given = ground arith; named = t.0 (ground arith) };
          through = record { given = ground arith; named = u.0 (ground arith) };
          plain_to = ground arith;
          plain_through = ground arith;
          sides = s.0 (ground arith);
        },
      ),
      λ (n, v). ground (
        arith,
        n,
        v.named,
        v.from.given,
        v.to.given,
        v.through.given,
        v.plain_to,
        v.plain_through,
        f.1 v.from.named,
        t.1 v.to.named,
        u.1 v.through.named,
        s.1 v.sides,
      ),
    )

pub check_broker_iff : (i : ℕ) (b : Str × Broker) → (check_broker i b ≡ none) ↔ IsBroker b
unfolding check_broker
check_broker_iff i (name, b) = (
  λ h. record {
    named = ground arith;
    delivery = ground (arith, eq_iff b.delivery []);
    ordered = ground arith;
    consumers = ground (arith, eq_iff b.consumers []);
  },
  λ v. ground (
    arith,
    v.named,
    v.ordered,
    v.delivery,
    v.consumers,
    eq_iff b.delivery [],
    eq_iff b.consumers [],
  ),
)

pub check_layering_config_iff :
    (p : Policy) → (check_layering_config p ≡ none) ↔ IsLayering p.layers p.layering
unfolding check_layering_config
check_layering_config_iff p = by_layering p.layering refl
  where
    by_layering :
        (o : Option Layering)
        → p.layering ≡ o
        → (check_layering_config p ≡ none) ↔ IsLayering p.layers p.layering
    by_layering none e = rw e (λ h. tt, λ h. refl)
    by_layering (some l) e =
        let s = refuse_each names_no_side (λ i a. layering_allow_empty i) 0 l.allow in
        rw e (λ h. (ground arith, s.0 (ground arith)), λ (n, v). ground (arith, n, s.1 v))

pub check_budget_iff : (b : Option IoBudget) → (check_budget b ≡ none) ↔ IsBudget b
unfolding check_budget
check_budget_iff none = (λ h. tt, λ h. refl)
check_budget_iff (some b) = refuse_if-none _ _

pub check_blind_spot_ratchet_iff :
    (r : Option BlindSpotRatchet) → (check_blind_spot_ratchet r ≡ none) ↔ NamesSites r
unfolding check_blind_spot_ratchet
check_blind_spot_ratchet_iff none = (λ h. tt, λ h. refl)
check_blind_spot_ratchet_iff (some r) =
    refuse_each (λ (a : BlindSpotException). blank a.site) (λ i a. ratchet_site_required i) 0
      r.allow

pub check_effect_ratchet_iff :
    (r : Option EffectRatchet) → (check_effect_ratchet r ≡ none) ↔ NamesEffects r
unfolding check_effect_ratchet
check_effect_ratchet_iff none = (λ h. tt, λ h. refl)
check_effect_ratchet_iff (some r) =
    refuse_each (λ (a : EffectException). blank a.target) (λ i a. effect_target_required i) 0
      r.allow

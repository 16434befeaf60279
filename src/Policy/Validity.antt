-- ===== src/Policy/Validity.antt =====
-- The policies that Validate of internal/groundwork/policy/policy.go accepts.
use verdi_go.Prelude.{
  ◌≡◌, ◌↔◌, none, [], bool_Eq, nat_Eq, list_Eq, Str_Eq, pair_Eq, first_error-none, check_each-none,
  check_named-none,
}
use verdi_go.Policy.Types.{Policy}
use verdi_go.Policy.Validate.{validate, checks}
use verdi_go.Policy.WellFormed.{
  IsLayer, IsReachRule, IsConcurrentRule, IsPassRule, IsBroker, IsWellFormed,
}
use verdi_go.Policy.CheckLaws.{
  refuse_if-none, check_layer_iff, check_reach_rule_iff, check_concurrent_rule_iff,
  check_pass_rule_iff, check_broker_iff, check_layering_config_iff, check_budget_iff,
  check_blind_spot_ratchet_iff, check_effect_ratchet_iff,
}

-- A policy is accepted exactly when it is well formed: it names a service and a version; layers, and the rules
-- of each kind, have names that are not blank and are new among those before them; every pattern list is given
-- and has no blank pattern; `entrypoint:*` stands in no to-list and no through-list of a rule; layering has layers
-- to judge; every exception names a side, a site or a target; the budget is not negative; and every broker is named and keeps to
-- the words for delivery, order and consumers.
pub validate-IsWellFormed : (p : Policy) → (validate p ≡ none) ↔ IsWellFormed p
unfolding validate checks
validate-IsWellFormed p =
    let l = check_named-none _ _ IsLayer check_layer_iff 0 [] p.layers in
    let r = check_named-none _ _ IsReachRule check_reach_rule_iff 0 [] p.must_not_reach in
    let c =
      check_named-none _ _ IsConcurrentRule check_concurrent_rule_iff 0 [] p.no_concurrent_reach in
    let t = check_named-none _ _ IsPassRule check_pass_rule_iff 0 [] p.must_pass_through in
    let b = check_each-none _ IsBroker check_broker_iff 0 p.brokers in
    let y = check_layering_config_iff p in
    let i = check_budget_iff p.io_budget in
    let s = check_blind_spot_ratchet_iff p.blind_spot_ratchet in
    let e = check_effect_ratchet_iff p.effect_ratchet in
    (
      λ h.
          let (h0, (h1, (h2, (h3, (h4, (h5, (h6, (h7, (h8, (h9, (h10, end))))))))))) =
            (first_error-none (checks p)).0 h in
          record {
            service = (refuse_if-none _ _).0 h0;
            version = (refuse_if-none _ _).0 h1;
            new_layer_names = (l.0 h2).0;
            layers = (l.0 h2).1;
            layering = y.0 h3;
            new_reach_names = (r.0 h4).0;
            reach_rules = (r.0 h4).1;
            new_concurrent_names = (c.0 h5).0;
            concurrent_rules = (c.0 h5).1;
            new_pass_names = (t.0 h6).0;
            pass_rules = (t.0 h6).1;
            budget = i.0 h7;
            sites = s.0 h8;
            effects = e.0 h9;
            brokers = b.0 h10;
          },
      λ v. (first_error-none (checks p)).1 (
        (refuse_if-none _ _).1 v.service,
        (
          (refuse_if-none _ _).1 v.version,
          (
            l.1 (v.new_layer_names, v.layers),
            (
              y.1 v.layering,
              (
                r.1 (v.new_reach_names, v.reach_rules),
                (
                  c.1 (v.new_concurrent_names, v.concurrent_rules),
                  (
                    t.1 (v.new_pass_names, v.pass_rules),
                    (i.1 v.budget, (s.1 v.sites, (e.1 v.effects, (b.1 v.brokers, tt)))),
                  ),
                ),
              ),
            ),
          ),
        ),
      ),
    )

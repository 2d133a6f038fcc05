-- ===== src/Policy/Git/Safety.antt =====
-- The Factory safety invariant on Git, and that each layer only narrows.
use agentic_software_factory.Prelude.{
  ◌≡◌, false, true, not, Option, none, some, List, arith, inl, inr, filter, filter_map, any-filter,
  is_empty, Bool-cases,
}
use agentic_software_factory.Policy.Model.{GitOperation, read, PolicyScope, GitPolicy}
use agentic_software_factory.Policy.Model.Names.{git_parse, is_dangerous}
use agentic_software_factory.Policy.Git.{
  same, has, factory_git_baseline_allowed, git_of, narrow_by, resolve, restrict, allows,
}

has-narrow_by :
    (allowed : List GitOperation) (git : Option GitPolicy) (op : GitOperation)
    → has (narrow_by allowed git) op ≡ true
    → has allowed op ≡ true
has-narrow_by allowed none op h = h
has-narrow_by allowed (some git) op h = elim (Bool-cases (is_empty git.allow)) [
  | inl e ↦ rw e at h
  | inr e ↦
      let declared = filter_map git_parse git.allow in
      any-filter (same op) (has declared) allowed (
        any-filter (same op) (λ o. not (is_dangerous o)) (filter (has declared) allowed)
          (rw e at h))
]

baseline-safe :
    (op : GitOperation) → has factory_git_baseline_allowed op ≡ true → is_dangerous op ≡ false
unfolding is_dangerous
baseline-safe read h = ground arith
baseline-safe _ h = ground arith

-- Whatever the role, the agent and the recipe declare: no dangerous operation is allowed, the recipe
-- allows nothing that the role and the agent do not, and the agent nothing that the role does not.
pub git_narrow :
    (role agent restriction : Option PolicyScope) (op : GitOperation)
    → (allows (restrict (resolve role agent) restriction) op ≡ true → is_dangerous op ≡ false)
      × (allows (restrict (resolve role agent) restriction) op ≡ true
          → allows (resolve role agent) op ≡ true)
      × (allows (resolve role agent) op ≡ true → allows (resolve role none) op ≡ true)
unfolding resolve restrict allows
git_narrow role agent restriction op =
    let base = factory_git_baseline_allowed in
    let by_role = narrow_by base (git_of role) in
    let by_agent = narrow_by by_role (git_of agent) in
    (
      λ h. baseline-safe op (
          has-narrow_by base (git_of role) op (
            has-narrow_by by_role (git_of agent) op
              (has-narrow_by by_agent (git_of restriction) op h))),
      has-narrow_by by_agent (git_of restriction) op,
      has-narrow_by by_role (git_of agent) op,
    )

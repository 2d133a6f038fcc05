-- ===== src/Policy/Effective/Presets.antt =====
-- The read-only presets, and tools without a declaration.
use agentic_software_factory.Prelude.{
  ◌≡◌, refl, inl, true, false, Option, none, some, [], ◌∷◌, arith, is_ok, ◌∙◌, Str, str, subst, sym,
}
use agentic_software_factory.Policy.Platform.{Platform}
use agentic_software_factory.Policy.Model.{
  PolicyPreset, read_only, review, FilesystemPolicy, PolicyScope, PoliciesConfig, defaults,
  merged_scope, role, agent,
}
use agentic_software_factory.Policy.Filesystem.{
  EffectiveFilesystem, filesystem_of, with_layer, with_role, default_filesystem, resolve, restrict,
  write_allowed, read_only as read_only_fs,
}
use agentic_software_factory.Policy.Filesystem.Writes.{read_only_refuses}
use agentic_software_factory.Policy.Effective.{
  EffectivePolicy, effective_restricted, operation_is_mutating, validate_executable,
}

write_scopes-with_layer :
    (label : Str) (fs : EffectiveFilesystem) (layer : Option FilesystemPolicy)
    → (with_layer label fs layer).write_scopes ≡ fs.write_scopes
write_scopes-with_layer label fs none = refl
write_scopes-with_layer label fs (some layer) = refl

-- A preset whose role may not write.
pub data IsReadOnly : PolicyPreset → Type 0 where
  of_read_only : IsReadOnly read_only
  of_review : IsReadOnly review

merged_filesystem :
    {preset : PolicyPreset} (scope : PolicyScope)
    → IsReadOnly preset
    → scope.preset ≡ some preset
    → scope.filesystem ≡ none
    → (f : FilesystemPolicy) × (filesystem_of (merged_scope (some scope)) ≡ some f) × (f.write ≡ [])
unfolding merged_scope defaults
merged_filesystem scope of_read_only p f =
    (record { read = str "**" ∷ []; write = []; deny_write = [] }, ground arith, refl)
merged_filesystem scope of_review p f =
    (record { read = str "**" ∷ []; write = []; deny_write = [] }, ground arith, refl)

no_write_scopes :
    (r a x : Option PolicyScope) (label : Str) (f : FilesystemPolicy)
    → filesystem_of r ≡ some f
    → f.write ≡ []
    → (restrict (resolve r a) label x).write_scopes ≡ []
unfolding restrict resolve
no_write_scopes r a x label f e w =
    write_scopes-with_layer label (resolve r a) (filesystem_of x)
    ∙ write_scopes-with_layer (str "agent") (with_role default_filesystem (filesystem_of r))
        (filesystem_of a)
    ∙ subst (λ o. (with_role default_filesystem o).write_scopes ≡ []) (sym e) w

refused_operation :
    (policy : EffectivePolicy) (operation : Str)
    → read_only_fs policy.filesystem ≡ true
    → operation_is_mutating operation ≡ true
    → is_ok (validate_executable policy operation) ≡ false
unfolding validate_executable
refused_operation policy operation ro m = rw (m, ro)

-- A role with the preset `read_only` or `review` and no filesystem table of its own may write nothing,
-- whatever the agent and the recipe declare, and is refused every mutating operation before it starts.
pub read_only_preset :
    (pl : Platform) (config : PoliciesConfig) (role_id agent_name : Str)
    (restriction : Option PolicyScope) {preset : PolicyPreset} (scope : PolicyScope)
    (path operation : Str)
    → role config role_id ≡ some scope
    → scope.preset ≡ some preset
    → scope.filesystem ≡ none
    → IsReadOnly preset
    → operation_is_mutating operation ≡ true
    → (write_allowed pl (effective_restricted config role_id agent_name restriction).filesystem path
        ≡ false)
      × (is_ok (
            validate_executable
              (effective_restricted config role_id agent_name restriction)
              operation)
          ≡ false)
unfolding effective_restricted
read_only_preset pl config role_id agent_name restriction scope path operation e p f ro m =
    let (declared, found, nothing) = merged_filesystem scope ro p f in
    let policy = effective_restricted config role_id agent_name restriction in
    let empty =
      no_write_scopes (merged_scope (role config role_id)) (merged_scope (agent config agent_name))
        (merged_scope restriction) (str "recipe") declared (rw e found) nothing in
    let (gate, refused) = read_only_refuses pl policy.filesystem path (inl (rw empty)) in
    (refused, refused_operation policy operation gate m)

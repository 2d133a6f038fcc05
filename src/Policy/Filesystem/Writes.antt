-- ===== src/Policy/Filesystem/Writes.antt =====
-- The check of an attempt's changed files, and the gate before a start.
use agentic_software_factory.Prelude.{
  ◌≡◌, refl, ◌↔◌, ◌⊎◌, inl, inr, true, false, some, List, [], ◌∷◌, arith, any, All, is_empty,
  Result, ok, err, Str, Option-cases,
}
use agentic_software_factory.Policy.Platform.{Platform}
use agentic_software_factory.Policy.Path.{normalize_repo_relative}
use agentic_software_factory.Policy.Path.Normal.{IsRepoRelative, normalize-IsRepoRelative}
use agentic_software_factory.Policy.Filesystem.{
  Layer, EffectiveFilesystem, in_allowed, in_layers, write_allowed, check_write, write_violations,
  read_only,
}

-- The file is one that the policy lets an attempt write.
pub record IsWritable (pl : Platform) (fs : EffectiveFilesystem) (file : Str) : Type 0 where
  pub normal : Str
  pub normalized : normalize_repo_relative file ≡ some normal
  pub inside : IsRepoRelative normal
  pub permitted : write_allowed pl fs normal ≡ true

module _ (pl : Platform) (fs : EffectiveFilesystem) where
  check_write-ok : (file q : Str) → check_write pl fs file ≡ ok q → IsWritable pl fs file
  unfolding check_write
  check_write-ok file q h = elim (Option-cases (normalize_repo_relative file)) [
    | inl gone ↦ ground arith
    | inr (n, found) ↦ record {
      normal = n;
      normalized = found;
      inside = normalize-IsRepoRelative file n found;
      permitted = ground arith;
    }
  ]

  IsWritable-check_write :
      (file : Str) (w : IsWritable pl fs file) → check_write pl fs file ≡ ok w.normal
  unfolding check_write
  IsWritable-check_write file w = rw (w.normalized, w.permitted)

  no_violation :
      (files : List Str) → write_violations pl fs files ≡ [] → All (IsWritable pl fs) files
  unfolding write_violations
  no_violation [] h = tt
  no_violation (file ∷ files) h = go (check_write pl fs file) refl (no_violation files)
    where
      go :
          (r : Result Str Str)
          → check_write pl fs file ≡ r
          → (write_violations pl fs files ≡ [] → All (IsWritable pl fs) files)
          → All (IsWritable pl fs) (file ∷ files)
      go (ok q) e ih = (check_write-ok file q e, ih (ground arith))
      go (err reason) e ih = absurd (ground arith)

  All-writable :
      (files : List Str) → All (IsWritable pl fs) files → write_violations pl fs files ≡ []
  unfolding write_violations
  All-writable [] h = refl
  All-writable (file ∷ files) h =
      ground (arith, IsWritable-check_write file h.0, All-writable files h.1)

-- An attempt has no write violation exactly when each file that it changed normalizes to a proper
-- repository-relative path at which the policy permits writing.
pub write_violations-IsWritable :
    (pl : Platform) (fs : EffectiveFilesystem) (files : List Str)
    → (write_violations pl fs files ≡ []) ↔ All (IsWritable pl fs) files
write_violations-IsWritable pl fs files = (no_violation pl fs files, All-writable pl fs files)

any_empty_layer :
    (pl : Platform) (path : Str) (layers : List Layer)
    → any (λ (l : Layer). is_empty l.1) layers ≡ true
    → in_layers pl path layers ≡ false
unfolding in_allowed
any_empty_layer pl path [] h = cc
any_empty_layer pl path (l ∷ layers) h = ground (arith, any_empty_layer pl path layers)

-- Where the base list or some layer is empty, the gate says `read_only`, and no path may be written.
pub read_only_refuses :
    (pl : Platform) (fs : EffectiveFilesystem) (path : Str)
    → (is_empty fs.write_scopes ≡ true) ⊎ (any (λ (l : Layer). is_empty l.1) fs.write_layers ≡ true)
    → (read_only fs ≡ true) × (write_allowed pl fs path ≡ false)
unfolding read_only write_allowed in_allowed
read_only_refuses pl fs path h = ground (arith, any_empty_layer pl path fs.write_layers)

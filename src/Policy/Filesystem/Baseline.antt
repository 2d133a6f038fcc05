-- ===== src/Policy/Filesystem/Baseline.antt =====
-- Factory state and Git metadata stay out of reach of every configuration.
use agentic_software_factory.Prelude.{
  ◌≡◌, true, false, not, Option, none, some, ◌∷◌, ◌++◌, arith, any-append, or-eq_true_left,
  or-eq_true_right, Str, str,
}
use agentic_software_factory.Policy.Platform.{Platform}
use agentic_software_factory.Policy.Glob.{matches_glob}
use agentic_software_factory.Policy.Glob.Subtree.{subtree_matches}
use agentic_software_factory.Policy.Model.{FilesystemPolicy, PolicyScope, baseline_deny_write}
use agentic_software_factory.Policy.Filesystem.{
  EffectiveFilesystem, filesystem_of, with_role, with_layer, default_filesystem, resolve, restrict,
  in_scopes, in_denied, read_allowed, write_allowed,
}

module _ (pl : Platform) (path : Str) where
  denied_with_layer :
      (label : Str) (fs : EffectiveFilesystem) (layer : Option FilesystemPolicy)
      → in_denied pl fs path ≡ true
      → in_denied pl (with_layer label fs layer) path ≡ true
  unfolding in_denied
  denied_with_layer label fs none h = h
  denied_with_layer label fs (some layer) h =
      rw any-append (or-eq_true_left (in_scopes pl path fs.deny_scopes) _ h)

  denied_with_role :
      (fs : EffectiveFilesystem) (role_fs : Option FilesystemPolicy)
      → in_denied pl fs path ≡ true
      → in_denied pl (with_role fs role_fs) path ≡ true
  unfolding in_denied
  denied_with_role fs none h = h
  denied_with_role fs (some role_fs) h =
      rw any-append (or-eq_true_left (in_scopes pl path fs.deny_scopes) _ h)

  denied_everywhere :
      (role agent restriction : Option PolicyScope) (label : Str)
      → in_denied pl default_filesystem path ≡ true
      → in_denied pl (restrict (resolve role agent) label restriction) path ≡ true
  unfolding resolve restrict
  denied_everywhere role agent restriction label h =
      denied_with_layer label (resolve role agent) (filesystem_of restriction) (
        denied_with_layer (str "agent") (with_role default_filesystem (filesystem_of role))
          (filesystem_of agent) (denied_with_role default_filesystem (filesystem_of role) h))

  refused :
      (fs : EffectiveFilesystem)
      → in_denied pl fs path ≡ true
      → (write_allowed pl fs path ≡ false) × (read_allowed pl fs path ≡ false)
  unfolding write_allowed read_allowed
  refused fs h = ground arith

-- The directories that belong to Factory and to Git.
pub data IsProtected : Str → Type 0 where
  factory_state : IsProtected (str ".factory")
  git_metadata : IsProtected (str ".git")

protected_by_default :
    (pl : Platform) {dir : Str} (sub : Str)
    → IsProtected dir
    → (in_denied pl default_filesystem dir ≡ true)
      × (in_denied pl default_filesystem (dir ++ b'/' ∷ sub) ≡ true)
unfolding in_denied baseline_deny_write str
protected_by_default pl sub factory_state =
    let (itself, below) = subtree_matches pl (not pl.windows) (str ".factory") sub in
    (or-eq_true_left _ _ itself, or-eq_true_left _ _ below)
protected_by_default pl sub git_metadata =
    let (itself, below) = subtree_matches pl (not pl.windows) (str ".git") sub in
    let first = λ (path : Str). matches_glob pl (str ".factory/**") path (not pl.windows) in
    let git = λ (path : Str). matches_glob pl (str ".git/**") path (not pl.windows) in
    (
      or-eq_true_right (first (str ".git")) _ (or-eq_true_left _ _ itself),
      or-eq_true_right (first (str ".git" ++ b'/' ∷ sub)) _ (or-eq_true_left _ _ below),
    )

-- Whatever the role, the agent and the recipe declare, neither `.factory` and `.git` nor any path below
-- them may be written or read, on every platform.
pub protected_refused :
    (pl : Platform) (role agent restriction : Option PolicyScope) (label : Str) {dir : Str}
    (sub : Str)
    → IsProtected dir
    → (write_allowed pl (restrict (resolve role agent) label restriction) dir ≡ false)
      × (read_allowed pl (restrict (resolve role agent) label restriction) dir ≡ false)
      × (write_allowed pl (restrict (resolve role agent) label restriction) (dir ++ b'/' ∷ sub)
          ≡ false)
      × (read_allowed pl (restrict (resolve role agent) label restriction) (dir ++ b'/' ∷ sub)
          ≡ false)
protected_refused pl role agent restriction label {dir} sub p =
    let fs = restrict (resolve role agent) label restriction in
    let (itself, below) = protected_by_default pl sub p in
    let at_dir = refused pl dir fs (denied_everywhere pl dir role agent restriction label itself) in
    let path = dir ++ b'/' ∷ sub in
    let at_sub =
      refused pl path fs (denied_everywhere pl path role agent restriction label below) in
    (at_dir.0, at_dir.1, at_sub.0, at_sub.1)

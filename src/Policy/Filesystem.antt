-- ===== src/Policy/Filesystem.antt =====
-- crates/factory-policy/src/policy.rs: the filesystem rules after role, agent and recipe composition.
pub mod Narrowing
pub mod Baseline
pub mod Writes
use agentic_software_factory.Prelude.{
  ◌≡◌, Bool, true, false, ◌&&◌, ◌||◌, not, Option, none, some, and_then, unwrap_or, List, [], ◌∷◌,
  ◌++◌, Result, ok, err, err_of, if◌then◌else◌, is_empty, any, all, map, filter_map, flat_map, Str,
  str, str_eq, starts_with, strip_suffix,
}
use agentic_software_factory.Policy.Platform.{Platform}
use agentic_software_factory.Policy.Path.{normalize_repo_relative}
use agentic_software_factory.Policy.Glob.{matches_glob}
use agentic_software_factory.Policy.Model.{
  FilesystemPolicy, PolicyScope, baseline_deny_write, strings,
}

-- A layer is a label and the scopes of one restricting declaration.
abbrev pub Layer : Type 0
Layer = Str × List Str

pub record EffectiveFilesystem : Type 0 where
  pub read_scopes : List Str
  pub read_layers : List Layer
  pub write_scopes : List Str
  pub write_layers : List Layer
  pub deny_scopes : List Str

unfoldable pub scopes_overlap : Str → Str → Bool
scopes_overlap a b =
    if str_eq a (str "**") || str_eq b (str "**") || str_eq a b
    then true
    else let a_dir = unwrap_or (strip_suffix (str "**") a) a in
      let b_dir = unwrap_or (strip_suffix (str "**") b) b in
      starts_with b_dir a_dir || starts_with a_dir b_dir

-- `EffectiveFilesystem::default`
abbrev pub default_filesystem : EffectiveFilesystem
default_filesystem = record {
  read_scopes = strings ("**" ∷ []);
  read_layers = [];
  write_scopes = strings ("**" ∷ []);
  write_layers = [];
  deny_scopes = baseline_deny_write;
}

abbrev pub filesystem_of : Option PolicyScope → Option FilesystemPolicy
filesystem_of scope = and_then scope (λ s. s.filesystem)

abbrev pub with_role : EffectiveFilesystem → Option FilesystemPolicy → EffectiveFilesystem
with_role fs none = fs
with_role fs (some role_fs) = record fs {
  read_scopes = if is_empty role_fs.read then fs.read_scopes else role_fs.read;
  write_scopes = role_fs.write;
  deny_scopes = fs.deny_scopes ++ role_fs.deny_write;
}

abbrev pub with_layer : Str → EffectiveFilesystem → Option FilesystemPolicy → EffectiveFilesystem
with_layer label fs none = fs
with_layer label fs (some layer) = record fs {
  read_layers =
      if is_empty layer.read then fs.read_layers else fs.read_layers ++ (label, layer.read) ∷ [];
  write_layers = fs.write_layers ++ (label, layer.write) ∷ [];
  deny_scopes = fs.deny_scopes ++ layer.deny_write;
}

-- `EffectiveFilesystem::resolve`
unfoldable pub resolve : Option PolicyScope → Option PolicyScope → EffectiveFilesystem
resolve role agent =
    with_layer (str "agent") (with_role default_filesystem (filesystem_of role))
      (filesystem_of agent)

-- `EffectiveFilesystem::restrict`
unfoldable pub restrict : EffectiveFilesystem → Str → Option PolicyScope → EffectiveFilesystem
restrict fs label restriction = with_layer label fs (filesystem_of restriction)

module _ (pl : Platform) where
  unfoldable pub in_scopes : Str → List Str → Bool
  in_scopes path scopes = any (λ scope. matches_glob pl scope path (not pl.windows)) scopes

  -- `in_allowed`
  unfoldable pub in_allowed : Str → List Str → Bool
  unfolding in_scopes
  in_allowed path scopes = if is_empty scopes then false else in_scopes path scopes

  abbrev pub in_layers : Str → List Layer → Bool
  in_layers path layers = all (λ (l : Layer). in_allowed path l.1) layers

  unfoldable pub in_denied : EffectiveFilesystem → Str → Bool
  unfolding in_scopes
  in_denied fs path = in_scopes path fs.deny_scopes

  unfoldable pub read_allowed : EffectiveFilesystem → Str → Bool
  read_allowed fs path =
      in_allowed path fs.read_scopes && in_layers path fs.read_layers && not (in_denied fs path)

  unfoldable pub write_allowed : EffectiveFilesystem → Str → Bool
  write_allowed fs path =
      in_allowed path fs.write_scopes && in_layers path fs.write_layers && not (in_denied fs path)

  abbrev checked : EffectiveFilesystem → Str → Option Str → Result Str Str
  checked fs path none = err (str "'" ++ path ++ str "' is outside the repository")
  checked fs path (some normalized) =
      if not (write_allowed fs normalized)
      then err (str "'" ++ normalized ++ str "' is not inside an allowed write scope")
      else ok normalized

  unfoldable pub check_write : EffectiveFilesystem → Str → Result Str Str
  check_write fs path = checked fs path (normalize_repo_relative path)

  unfoldable pub write_violations : EffectiveFilesystem → List Str → List Str
  write_violations fs changed_files =
      filter_map (λ file. err_of (check_write fs file)) changed_files

unfoldable pub read_only : EffectiveFilesystem → Bool
read_only fs =
    if is_empty fs.write_scopes
    then true
    else if any (λ (l : Layer). is_empty l.1) fs.write_layers
    then true
    else not (
        any
          (λ base.
            all (λ (l : Layer). any (λ scope. scopes_overlap base scope) l.1) fs.write_layers)
          fs.write_scopes)

pub mode_name : EffectiveFilesystem → Str
mode_name fs =
    if read_only fs
    then str "read_only"
    else if any (λ scope. not (str_eq scope (str "**"))) fs.write_scopes
    then str "restricted"
    else str "open"

abbrev labelled : Layer → List Str
labelled (label, scopes) = map (λ scope. str "(" ++ label ++ str ") " ++ scope) scopes

pub effective_write_scopes : EffectiveFilesystem → List Str
effective_write_scopes fs = fs.write_scopes ++ flat_map labelled fs.write_layers

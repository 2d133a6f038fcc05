-- ===== src/Policy/Filesystem/Narrowing.antt =====
-- A restricting layer takes access away, and nothing else.
use agentic_software_factory.Prelude.{
  ◌≡◌, true, ◌&&◌, ◌||◌, not, Option, none, some, List, [], ◌∷◌, ◌++◌, arith, any-append,
  all-append, is_empty, Str, str,
}
use agentic_software_factory.Policy.Platform.{Platform}
use agentic_software_factory.Policy.Model.{FilesystemPolicy, PolicyScope}
use agentic_software_factory.Policy.Filesystem.{
  Layer, EffectiveFilesystem, filesystem_of, with_layer, resolve, restrict, in_scopes, in_allowed,
  in_layers, in_denied, read_allowed, write_allowed,
}

module _ (pl : Platform) (path : Str) where
  in_scopes-append :
      (xs ys : List Str)
      → in_scopes pl path (xs ++ ys) ≡ (in_scopes pl path xs || in_scopes pl path ys)
  unfolding in_scopes
  in_scopes-append xs ys = any-append _ xs ys

  in_layers-append :
      (xs ys : List Layer)
      → in_layers pl path (xs ++ ys) ≡ (in_layers pl path xs && in_layers pl path ys)
  in_layers-append xs ys = all-append _ xs ys

  module _ (fs : EffectiveFilesystem) (label : Str) (layer : FilesystemPolicy) where
    denied_by_layer :
        in_denied pl (with_layer label fs (some layer)) path
        ≡ (in_denied pl fs path || in_scopes pl path layer.deny_write)
    unfolding in_denied
    denied_by_layer = in_scopes-append fs.deny_scopes layer.deny_write

    write_by_layer : write_allowed pl (with_layer label fs (some layer)) path ≡ (
        write_allowed pl fs path
        && (in_allowed pl path layer.write && not (in_scopes pl path layer.deny_write)))
    unfolding write_allowed
    write_by_layer =
        ground
          (arith, denied_by_layer, in_layers-append fs.write_layers ((label, layer.write) ∷ []))

    read_by_layer : read_allowed pl (with_layer label fs (some layer)) path ≡ (
        read_allowed pl fs path
        && ((is_empty layer.read || in_allowed pl path layer.read)
            && not (in_scopes pl path layer.deny_write)))
    unfolding read_allowed
    read_by_layer =
        ground (arith, denied_by_layer, in_layers-append fs.read_layers ((label, layer.read) ∷ []))

-- With a restriction that declares a filesystem policy, a path may be written exactly when it could be
-- written before, lies in a write scope of the restriction and in no `deny_write` scope of it; and it
-- may be read exactly when it could be read before, lies in a read scope of the restriction if that
-- lists any (an empty read list leaves reading as it was), and in no `deny_write` scope of it.
pub restrict_exact :
    (pl : Platform) (fs : EffectiveFilesystem) (label : Str) (scope : PolicyScope)
    (layer : FilesystemPolicy) (path : Str)
    → scope.filesystem ≡ some layer
    → (write_allowed pl (restrict fs label (some scope)) path ≡ (
        write_allowed pl fs path
        && (in_allowed pl path layer.write && not (in_scopes pl path layer.deny_write))))
      × (read_allowed pl (restrict fs label (some scope)) path ≡ (
          read_allowed pl fs path
          && ((is_empty layer.read || in_allowed pl path layer.read)
              && not (in_scopes pl path layer.deny_write))))
unfolding restrict
restrict_exact pl fs label scope layer path e =
    (rw e (write_by_layer pl path fs label layer), rw e (read_by_layer pl path fs label layer))

module _ (pl : Platform) (path : Str) (fs : EffectiveFilesystem) (label : Str) where
  with_layer_narrows :
      (layer : Option FilesystemPolicy)
      → (write_allowed pl (with_layer label fs layer) path ≡ true → write_allowed pl fs path ≡ true)
        × (read_allowed pl (with_layer label fs layer) path ≡ true → read_allowed pl fs path ≡ true)
  with_layer_narrows none = (λ h. h, λ h. h)
  with_layer_narrows (some layer) = (
    λ h. ground (arith, write_by_layer pl path fs label layer),
    λ h. ground (arith, read_by_layer pl path fs label layer),
  )

-- No restriction and no agent scope widens what may be written or read.
pub restrict_narrows :
    (pl : Platform) (role agent restriction : Option PolicyScope) (label path : Str)
    → (write_allowed pl (restrict (resolve role agent) label restriction) path ≡ true
        → write_allowed pl (resolve role agent) path ≡ true)
      × (write_allowed pl (resolve role agent) path ≡ true
          → write_allowed pl (resolve role none) path ≡ true)
      × (read_allowed pl (restrict (resolve role agent) label restriction) path ≡ true
          → read_allowed pl (resolve role agent) path ≡ true)
      × (read_allowed pl (resolve role agent) path ≡ true
          → read_allowed pl (resolve role none) path ≡ true)
unfolding resolve restrict
restrict_narrows pl role agent restriction label path =
    let recipe =
      with_layer_narrows pl path (resolve role agent) label (filesystem_of restriction) in
    let own = with_layer_narrows pl path (resolve role none) (str "agent") (filesystem_of agent) in
    (recipe.0, own.0, recipe.1, own.1)

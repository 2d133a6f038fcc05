-- ===== src/Policy/Tools.antt =====
-- crates/factory-policy/src/policy.rs: external tools. They are denied unless the role allows them.
pub mod Narrowing
use agentic_software_factory.Prelude.{
  ◌≡◌, Bool, true, false, ◌&&◌, ◌||◌, not, Option, none, some, and_then, List, [], ◌∷◌, ◌++◌, ◌==◌,
  if◌then◌else◌, any, all, map, flat_map, Str, str, str_eq, replace_char, split_by, contains,
}
use agentic_software_factory.Policy.Platform.{Platform}
use agentic_software_factory.Policy.Glob.{matches_glob}
use agentic_software_factory.Policy.Model.{ToolPolicy, PolicyScope}
use agentic_software_factory.Policy.Filesystem.{Layer}

pub record EffectiveTools : Type 0 where
  pub allow_layers : List Layer
  pub deny : List Str

abbrev pub tools_of : Option PolicyScope → Option ToolPolicy
tools_of scope = and_then scope (λ s. s.tools)

-- The role's layer is there also when the role declares nothing: it is empty then.
abbrev pub role_tools : Option ToolPolicy → EffectiveTools
role_tools none = record { allow_layers = (str "role", []) ∷ []; deny = [] }
role_tools (some tools) = record {
  allow_layers = (str "role", tools.allow) ∷ [];
  deny = tools.deny;
}

abbrev add_tools : Str → EffectiveTools → Option ToolPolicy → EffectiveTools
add_tools label t none = t
add_tools label t (some tools) = record {
  allow_layers = t.allow_layers ++ (label, tools.allow) ∷ [];
  deny = t.deny ++ tools.deny;
}

-- `EffectiveTools::resolve`
unfoldable pub resolve : Option PolicyScope → Option PolicyScope → EffectiveTools
resolve role agent = add_tools (str "agent") (role_tools (tools_of role)) (tools_of agent)

-- `EffectiveTools::restrict`
unfoldable pub restrict : EffectiveTools → Option PolicyScope → EffectiveTools
restrict t restriction = add_tools (str "recipe") t (tools_of restriction)

abbrev first_layer_has : List Layer → Str → Bool
first_layer_has [] name = false
first_layer_has ((label, patterns) ∷ _) name = contains patterns name

-- `pattern.split_once('.')`: what stands before the first dot, if there is one.
abbrev before_dot : List Str → Option Str
before_dot [] = none
before_dot (w ∷ []) = none
before_dot (w ∷ v ∷ ws) = some w

module _ (pl : Platform) where
  unfoldable pub tool_pattern_matches : Str → Str → Bool
  tool_pattern_matches pattern qualified_name =
      matches_glob pl (replace_char b'.' b'/' pattern) (replace_char b'.' b'/' qualified_name) true

  abbrev pub any_matches : List Str → Str → Bool
  any_matches patterns name = any (λ pattern. tool_pattern_matches pattern name) patterns

  -- `EffectiveTools::allowed`
  unfoldable pub allowed : EffectiveTools → Str → Bool → Bool
  allowed t qualified_name require_exact_role_allow =
      if any_matches t.deny qualified_name
      then false
      else if require_exact_role_allow && not (first_layer_has t.allow_layers qualified_name)
      then false
      else all (λ (l : Layer). any_matches l.1 qualified_name) t.allow_layers

  abbrev selects : Str → Option Str → Bool
  selects server none = false
  selects server (some server_pattern) = tool_pattern_matches server_pattern server

  -- `EffectiveTools::may_allow_server`
  unfoldable pub may_allow_server : EffectiveTools → Str → Bool
  may_allow_server t server =
      all
        (λ (l : Layer).
          any
            (λ pattern.
              str_eq pattern (str "*")
              || selects server (before_dot (split_by (λ c. c == b'.') pattern)))
            l.1)
        t.allow_layers

abbrev tool_label : Str → Str → Str
tool_label label pattern =
    if str_eq label (str "role") then pattern else str "(" ++ label ++ str ") " ++ pattern

-- `EffectiveTools::allow_patterns`
pub allow_patterns : EffectiveTools → List Str
allow_patterns t = flat_map (λ (l : Layer). map (tool_label l.0) l.1) t.allow_layers

-- ===== src/Policy/Tools/Narrowing.antt =====
-- Tools are denied by default, and each layer only narrows.
use agentic_software_factory.Prelude.{
  ◌≡◌, refl, Bool, true, false, Option, none, some, List, [], ◌∷◌, arith, any-append, all-append,
  contains, Str, str, str_eq, replace_char, is_empty, split_by,
}
use agentic_software_factory.Policy.Platform.{Platform}
use agentic_software_factory.Policy.Glob.Subtree.{star_star_matches}
use agentic_software_factory.Policy.Model.{ToolPolicy, PolicyScope}
use agentic_software_factory.Policy.Filesystem.{Layer}
use agentic_software_factory.Policy.Tools.{
  EffectiveTools, tools_of, role_tools, add_tools, resolve, restrict, any_matches, allowed,
  may_allow_server, tool_pattern_matches,
}

module _ (pl : Platform) (name : Str) (exact : Bool) where
  narrows_from :
      (label : Str) (layers : List Layer) (deny : List Str) (tools : Option ToolPolicy)
      → is_empty layers ≡ false
      → allowed pl
          (add_tools label (record { allow_layers = layers; deny = deny }) tools)
          name
          exact
        ≡ true
      → allowed pl (record { allow_layers = layers; deny = deny }) name exact ≡ true
  unfolding allowed
  narrows_from label [] deny tools e h = cc
  narrows_from label (l ∷ ls) deny none e h = h
  narrows_from label (l ∷ ls) deny (some tools) e h = ground (
    arith,
    any-append (λ pattern. tool_pattern_matches pl pattern name) deny tools.deny,
    all-append (λ (k : Layer). any_matches pl k.1 name) ls ((label, tools.allow) ∷ []),
  )

  add_tools_narrows :
      (label : Str) (t : EffectiveTools) (tools : Option ToolPolicy)
      → is_empty t.allow_layers ≡ false
      → allowed pl (add_tools label t tools) name exact ≡ true
      → allowed pl t name exact ≡ true
  add_tools_narrows label t tools = narrows_from label t.allow_layers t.deny tools

role_layer : (tools : Option ToolPolicy) → is_empty (role_tools tools).allow_layers ≡ false
role_layer none = refl
role_layer (some tools) = refl

some_layer :
    (label : Str) (t : EffectiveTools) (tools : Option ToolPolicy)
    → is_empty t.allow_layers ≡ false
    → is_empty (add_tools label t tools).allow_layers ≡ false
some_layer label t none h = h
some_layer label t (some tools) h = ground arith

-- A recipe allows no tool that the role and the agent do not, and an agent none that the role does not.
pub tools_narrow :
    (pl : Platform) (role agent restriction : Option PolicyScope) (name : Str) (exact : Bool)
    → (allowed pl (restrict (resolve role agent) restriction) name exact ≡ true
        → allowed pl (resolve role agent) name exact ≡ true)
      × (allowed pl (resolve role agent) name exact ≡ true
          → allowed pl (resolve role none) name exact ≡ true)
unfolding resolve restrict
tools_narrow pl role agent restriction name exact =
    let base = role_tools (tools_of role) in
    let has_role = role_layer (tools_of role) in
    (
      add_tools_narrows pl name exact (str "recipe") (resolve role agent) (tools_of restriction)
          (some_layer (str "agent") base (tools_of agent) has_role),
      add_tools_narrows pl name exact (str "agent") base (tools_of agent) has_role,
    )

role_only :
    (pl : Platform) (tools : Option ToolPolicy) (name : Str)
    → allowed pl (role_tools tools) name true ≡ true
    → (t : ToolPolicy) × (tools ≡ some t) × (contains t.allow name ≡ true)
unfolding allowed
role_only pl none name h = absurd (ground arith)
role_only pl (some t) name h = (t, refl, ground arith)

-- A caller that asks for an exact grant gets a tool only if the role's own allow list names it,
-- whatever the agent and the recipe declare.
pub exact_grant :
    (pl : Platform) (role agent restriction : Option PolicyScope) (name : Str)
    → allowed pl (restrict (resolve role agent) restriction) name true ≡ true
    → (t : ToolPolicy) × (tools_of role ≡ some t) × (contains t.allow name ≡ true)
exact_grant pl role agent restriction name h =
    let (recipe, own) = tools_narrow pl role agent restriction name true in
    role_only pl (tools_of role) name (unfold resolve in own (recipe h))

any_tool : (pl : Platform) (name : Str) → tool_pattern_matches pl (str "**") name ≡ true
unfolding tool_pattern_matches replace_char str
any_tool pl name = star_star_matches pl true (replace_char b'.' b'/' name)

-- A role that allows `**` is allowed every tool that needs no exact grant, and yet no server is taken
-- to be able to contribute one.
star_star_server :
    (pl : Platform) (name server : Str)
    → (allowed pl (role_tools (some (record { allow = str "**" ∷ []; deny = [] }))) name false
        ≡ true)
      × (may_allow_server pl
            (role_tools (some (record { allow = str "**" ∷ []; deny = [] })))
            server
          ≡ false)
unfolding allowed may_allow_server str str_eq split_by
star_star_server pl name server = (ground (arith, any_tool pl name), refl)

-- ===== src/Registry/Examples.antt =====
-- Runs of the registry of agents, and its theorems at concrete registries.
use rann_agent.Prelude.{
  String, ◌≡◌, ◌≢◌, refl, Bool, true, false, none, some, List, [], ◌∷◌, In, str_eq, arith,
}
use rann_agent.Dict.{lookup, has_key, insert}
use rann_agent.Json.{end}
use rann_agent.Registry.Types.{AgentInfo, Registry, new_registry}
use rann_agent.Registry.Methods.{change, returned, waiting, deregister, register_with_id, new_info}
use rann_agent.Registry.Queries.{get, get_children, get_parent}
use rann_agent.Registry.Family.{child_ids_of, IsFamily}
use rann_agent.Registry.Removal.{delisted, deregister_answer}
use rann_agent.Registry.Reach.{
  Method, register, run, Reaches, start, next, reach-IsFamily, Listed, get_parent-children,
}
use rann_agent.Registry.Stuck.{run_all, deregister-stuck}

abbrev dies : String → Bool
dies k = false

abbrev lead : Method
lead = register "lead" "Lead" none "generalist" [] end 0

abbrev coder : Method
coder = register "coder" "Coder" (some "lead") "backend" [] end 1

abbrev one : Registry
one = run lead (new_registry 60)

abbrev two : Registry
two = run coder one

one_agent : one.agents ≡ (("lead", new_info "lead" "Lead" none "generalist" [] end 0) ∷ [])
unfolding run register_with_id new_registry insert
one_agent = refl

coder_free : lookup "coder" one.agents ≡ none
unfolding lookup run register_with_id new_registry insert
coder_free = refl

lead_free : lookup "lead" (new_registry 60).agents ≡ none
unfolding lookup new_registry
lead_free = refl

two_reached : Reaches 60 two
two_reached = next coder one (next lead (new_registry 60) start lead_free) coder_free

abbrev lead_info : AgentInfo
lead_info = record (new_info "lead" "Lead" none "generalist" [] end 0) { child_ids = "coder" ∷ [] }

abbrev coder_info : AgentInfo
coder_info = new_info "coder" "Coder" (some "lead") "backend" [] end 1

lead_here : lookup "lead" two.agents ≡ some lead_info
unfolding lookup run register_with_id new_registry insert change has_key
lead_here = refl

coder_here : lookup "coder" two.agents ≡ some coder_info
unfolding lookup run register_with_id new_registry insert change has_key
coder_here = refl

two_free : two.locked ≡ false
unfolding run register_with_id new_registry
two_free = refl

reach-IsFamily_example : IsFamily two.agents
reach-IsFamily_example = reach-IsFamily 60 two two_reached

get_lead : get "lead" two ≡ some lead_info
unfolding get
get_lead = lead_here

get_parent-children_example :
    Listed two ("coder" ∷ []) (get_children "lead" two)
    × ((c : String) → In c ("coder" ∷ []) → get_parent c two ≡ some lead_info)
get_parent-children_example = get_parent-children 60 two two_reached "lead" lead_info get_lead

no_children : coder_info.child_ids ≡ []
no_children = refl

deregister_answer_example :
    ((deregister dies 2 "coder" two).0 ≡ returned true)
    × ((deregister dies 2 "coder" two).1.locked ≡ false)
    × (lookup "coder" (deregister dies 2 "coder" two).1.agents ≡ none)
    × ((p : String) → ¬ In "coder" (child_ids_of p (deregister dies 2 "coder" two).1.agents))
    × ((j : String)
        → str_eq "coder" j ≡ false
        → lookup j (deregister dies 2 "coder" two).1.agents
          ≡ delisted "coder" (lookup j two.agents))
deregister_answer_example =
    deregister_answer dies 0 "coder" two coder_info two_free (reach-IsFamily 60 two two_reached)
      coder_here no_children

has_children : lead_info.child_ids ≢ []
has_children h = absurd (ground (arith, h))

no_parent : lead_info.parent_id ≢ some "lead"
no_parent h = absurd (ground (arith, h))

deregister-stuck_example :
    ((deregister dies 2 "lead" two).0 ≡ waiting)
    × (child_ids_of "lead" (deregister dies 2 "lead" two).1.agents ≡ lead_info.child_ids)
    × ((ms : List Method)
        → run_all ms (deregister dies 2 "lead" two).1 ≡ (deregister dies 2 "lead" two).1)
deregister-stuck_example =
    deregister-stuck dies 0 "lead" two lead_info two_free lead_here has_children no_parent

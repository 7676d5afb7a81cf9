-- ===== src/Rbac/Permissions.antt =====
-- What a policy rule permits, said without the code: the specification of `GenerateRoles`. How one
-- entry of a rule matches one name is the API server's business, and a parameter here.
use controller_tools.Prelude.{◌≡◌, Bool, true, false, not, ◌&&◌, ◌||◌, List, any, is_empty, ◌==◌}
use controller_tools.Text.{Text}
use controller_tools.Rbac.Rule.{Rule, PolicyRule, to_rule}
use controller_tools.Rbac.Normalize.{asterisk}

-- A verb on a resource, which has a group, a kind and a name, or on a path.
pub data Request : Type 0 where
  on_resource : Text → Text → Text → Text → Request
  on_url : Text → Text → Request

-- How the entries of a rule match a request; the verb "*" is documented to match every verb.
pub record Authorizer : Type 0 where
  pub group_matches : Text → Text → Bool
  pub resource_matches : Text → Text → Bool
  pub name_matches : Text → Text → Bool
  pub url_matches : Text → Text → Bool
  pub verb_matches : Text → Text → Bool
  pub all_verbs : (verb : Text) → verb_matches asterisk verb ≡ true

abbrev pub one_of : (Text → Text → Bool) → List Text → Text → Bool
one_of matches entries name = any (λ entry. matches entry name) entries

module _ (a : Authorizer) where
  -- A rule without resource names is about all names.
  abbrev pub allows : Request → PolicyRule → Bool
  allows (on_resource group resource name verb) r =
      one_of a.group_matches r.api_groups group
      && one_of a.resource_matches r.resources resource
      && (is_empty r.resource_names || one_of a.name_matches r.resource_names name)
      && one_of a.verb_matches r.verbs verb
  allows (on_url url verb) r =
      one_of a.url_matches r.non_resource_urls url && one_of a.verb_matches r.verbs verb

  abbrev pub grants : Request → Rule → Bool
  unfolding to_rule
  grants q r = allows q (to_rule r)

-- The bytes that the keys of the merges use as separators.
abbrev pub unclean : Text → Bool
unclean t = any (λ b. b == b'&') t || any (λ b. b == b' ') t

abbrev pub bad_name : Text → Bool
bad_name t = is_empty t || unclean t

-- Rules as Kubernetes accepts them: about resources of some groups, or about paths, and with names
-- that are not empty and hold none of the separators. (The empty group is the core group.)
pub record IsWellFormed (r : Rule) : Type 0 where
  pub groups_clean : any unclean r.groups ≡ false
  pub resources_clean : any bad_name r.resources ≡ false
  pub names_clean : any bad_name r.resource_names ≡ false
  pub verbs_clean : any bad_name r.verbs ≡ false
  pub urls_clean : any bad_name r.urls ≡ false
  pub groups_of_resources : is_empty r.groups ≡ is_empty r.resources
  pub groups_or_urls : is_empty r.urls ≡ not (is_empty r.groups)

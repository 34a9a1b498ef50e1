-- ===== src/Associations.antt =====
-- afk_outcomes/associations.py: the associations of resources with sessions, from explicit
-- references. A dict is the list of its values in the order of insertion.
pub mod Sort
pub mod Laws
use Prim.Native.Nat.{Ordering}
use Prim.Native.String.{compare}
use opencode_gateway.Prelude.{
  Bool, true, false, ◌&&◌, String, Option, none, some, List, [], ◌∷◌, ◌++◌, Eq, string_eq, ◌==◌,
  if◌then◌else◌, any, coalesce, string_discrete,
}
use opencode_gateway.Domain.{
  Provider, EntityType, provider_value, entity_value, provider_eq, entity_eq, provider_discrete,
  entity_discrete,
}
use opencode_gateway.Associations.Sort.{sort_by}

-- `SessionResourceReference`
pub record Reference : Type 0 where
  pub session_id : Option String
  pub external_session_id : String
  pub source_field : String
  pub provider : Provider
  pub repository : String
  pub resource_type : EntityType
  pub resource_number : String

-- `ReferenceSource`
pub record Source : Type 0 where
  pub field : String
  pub detail : Option String

-- `ResourceSessionAssociation`
pub record Association : Type 0 where
  pub session_id : Option String
  pub external_session_id : String
  pub provider : Provider
  pub repository : String
  pub resource_type : EntityType
  pub resource_number : String
  pub source_reference : List Source
  pub resolver_version : String

-- The key of `grouped`.
pub record ResourceLink : Type 0 where
  pub provider : Provider
  pub repository : String
  pub resource_type : EntityType
  pub resource_number : String
  pub external_session_id : String

unfoldable pub resource_link_discrete : Discrete ResourceLink
unfolding provider_discrete entity_discrete string_discrete
resource_link_discrete = hlevel (provider_discrete, entity_discrete, string_discrete)

instance abbrev pub resource_link_eq : Eq ResourceLink
resource_link_eq = record { dec = resource_link_discrete }

abbrev pub link_of : Reference → ResourceLink
link_of r = record {
  provider = r.provider;
  repository = r.repository;
  resource_type = r.resource_type;
  resource_number = r.resource_number;
  external_session_id = r.external_session_id;
}

abbrev pub linked : Association → ResourceLink
linked a = record {
  provider = a.provider;
  repository = a.repository;
  resource_type = a.resource_type;
  resource_number = a.resource_number;
  external_session_id = a.external_session_id;
}

-- Python's `<=` on texts, and on tuples of them.
abbrev pub text_leb : String → String → Bool
text_leb s t = elim (compare s t) [ Ordering.gt ↦ false | _ ↦ true ]

abbrev pub tuple_leb : List String → List String → Bool
tuple_leb [] ts = true
tuple_leb (s ∷ ss) [] = false
tuple_leb (s ∷ ss) (t ∷ ts) = elim (compare s t) [
  | Ordering.lt ↦ true
  | Ordering.eq ↦ tuple_leb ss ts
  | Ordering.gt ↦ false
]

-- `merged[source_field] = …`
unfoldable pub put_source : Source → List Source → List Source
put_source s [] = s ∷ []
put_source s (t ∷ ts) =
    let rest = put_source s ts in if t.field == s.field then s ∷ ts else t ∷ rest

-- `_merge_source_reference`
unfoldable pub merge_source_reference : List Source → String → String → List Source
merge_source_reference existing field number =
    sort_by (λ (s t : Source). text_leb s.field t.field)
      (put_source (record { field = field; detail = some number }) existing)

-- The association that a first reference opens, before its source is merged.
abbrev pub opened : String → Reference → Association
opened version r = record {
  session_id = r.session_id;
  external_session_id = r.external_session_id;
  provider = r.provider;
  repository = r.repository;
  resource_type = r.resource_type;
  resource_number = r.resource_number;
  source_reference = [];
  resolver_version = version;
}

-- What a reference adds to its association: the session id where there is none, and its source.
unfoldable pub absorb : Reference → Association → Association
absorb r a = record a {
  session_id = coalesce a.session_id r.session_id;
  source_reference = merge_source_reference a.source_reference r.source_field r.resource_number;
}

-- One turn of the loop.
unfoldable pub group_one : String → Reference → List Association → List Association
group_one version r [] = absorb r (opened version r) ∷ []
group_one version r (a ∷ grouped) =
    let rest = group_one version r grouped in
    if linked a == link_of r then absorb r a ∷ grouped else a ∷ rest

unfoldable pub group_all : String → List Reference → List Association → List Association
group_all version [] grouped = grouped
group_all version (r ∷ rs) grouped = group_all version rs (group_one version r grouped)

-- The key of the final sort.
abbrev pub sort_key : Association → List String
sort_key a =
    provider_value a.provider
    ∷ a.repository
    ∷ entity_value a.resource_type
    ∷ a.resource_number
    ∷ a.external_session_id
    ∷ (elim a.session_id [ none ↦ "" | some s ↦ s ])
    ∷ []

-- `derive_exact_associations`
unfoldable pub derive_exact_associations : String → List Reference → List Association
derive_exact_associations version rs =
    sort_by (λ (a b : Association). tuple_leb (sort_key a) (sort_key b)) (group_all version rs [])

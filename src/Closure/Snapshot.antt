-- ===== src/Closure/Snapshot.antt =====
-- afk_outcomes/closure_episodes.py: the facts, the canonical snapshot, and the snapshots of one
-- time resolved to one view. A frozenset is a list without duplicates, compared by its elements.
use opencode_gateway.Prelude.{
  ℕ, String, Bool, true, false, ◌&&◌, not, Option, none, some, List, [], ◌∷◌, ◌++◌, map, Eq,
  string_eq, ◌==◌, if◌then◌else◌, any, contains, dedupe, string_discrete,
}
use opencode_gateway.Domain.{Provider, EntityType, provider_discrete}
use opencode_gateway.Associations.{tuple_leb}
use opencode_gateway.Associations.Sort.{sort_by}

-- `ClosureLinkKind`
pub data LinkKind : Type 0 where
  references declares_closure : LinkKind

unfoldable pub kind_value : LinkKind → String
kind_value LinkKind.references = "references"
kind_value LinkKind.declares_closure = "declares_closure"

-- `ClosureLinkState`
pub data LinkState : Type 0 where
  active revoked parked : LinkState

unfoldable pub kind_discrete : Discrete LinkKind
kind_discrete = hlevel

unfoldable pub state_discrete : Discrete LinkState
state_discrete = hlevel

instance abbrev pub kind_eq : Eq LinkKind
kind_eq = record { dec = kind_discrete }

instance abbrev pub state_eq : Eq LinkState
state_eq = record { dec = state_discrete }

-- `_CRKey` and `_IssueKey`
pub record EndpointKey : Type 0 where
  pub provider : Provider
  pub repository : String
  pub external_id : String

-- `_LinkKey`
pub record LinkKey : Type 0 where
  pub kind : LinkKind
  pub repository : String
  pub number : String

unfoldable pub endpoint_discrete : Discrete EndpointKey
unfolding provider_discrete string_discrete
endpoint_discrete = hlevel (provider_discrete, string_discrete)

unfoldable pub link_key_discrete : Discrete LinkKey
unfolding kind_discrete string_discrete
link_key_discrete = hlevel (kind_discrete, string_discrete)

instance abbrev pub endpoint_eq : Eq EndpointKey
endpoint_eq = record { dec = endpoint_discrete }

instance abbrev pub link_key_eq : Eq LinkKey
link_key_eq = record { dec = link_key_discrete }

-- `IssueLinkTarget` and `IssueLinksSnapshot`
pub record Target : Type 0 where
  pub repository : String
  pub number : String

pub record LinksSnapshot : Type 0 where
  pub references : List Target
  pub declares_closure : List Target

-- `ClosureFact`
pub record Fact : Type 0 where
  pub provider : Provider
  pub repository : String
  pub entity_type : EntityType
  pub external_id : String
  pub event_type : String
  pub occurred_at : ℕ
  pub observed_via : String
  pub issue_links : Option LinksSnapshot

abbrev pub fact_key : Fact → EndpointKey
fact_key f = record {
  provider = f.provider;
  repository = f.repository;
  external_id = f.external_id;
}

abbrev pub link_to : LinkKind → Target → LinkKey
link_to k t = record { kind = k; repository = t.repository; number = t.number }

-- `_snapshot_key`
unfoldable pub snapshot_key : LinksSnapshot → List LinkKey
snapshot_key s = dedupe (
    map (link_to LinkKind.declares_closure) s.declares_closure
    ++ map (link_to LinkKind.references) s.references)

-- `==` of two frozensets
unfoldable pub is_subset : List LinkKey → List LinkKey → Bool
is_subset [] s = true
is_subset (k ∷ ks) s = contains k s && is_subset ks s

unfoldable pub same_set : List LinkKey → List LinkKey → Bool
same_set s t = is_subset s t && is_subset t s

-- A set of frozensets: the union of two of them, the second one given as a list.
unfoldable pub distinct_from : List (List LinkKey) → List (List LinkKey) → List (List LinkKey)
distinct_from seen [] = []
distinct_from seen (s ∷ ss) =
    let rest = distinct_from seen ss in
    let fresh = distinct_from (s ∷ seen) ss in if any (same_set s) seen then rest else s ∷ fresh

abbrev pub distinct_sets : List (List LinkKey) → List (List LinkKey)
distinct_sets ss = distinct_from [] ss

-- The keys of the facts that carry a snapshot and satisfy a test.
unfoldable pub keys_where : (Fact → Bool) → List Fact → List (List LinkKey)
keys_where p [] = []
keys_where p (f ∷ fs) =
    let rest = keys_where p fs in
    elim f.issue_links [ none ↦ rest | some s ↦ if p f then snapshot_key s ∷ rest else rest ]

pub data Resolution : Type 0 where
  ok : List LinkKey → Resolution
  park : List (List LinkKey) → Resolution

abbrev pub link_texts : LinkKey → List String
link_texts k = kind_value k.kind ∷ k.repository ∷ k.number ∷ []

abbrev pub link_leb : LinkKey → LinkKey → Bool
link_leb j k = tuple_leb (link_texts j) (link_texts k)

-- Python's `<=` on lists of links.
unfoldable pub links_leb : List LinkKey → List LinkKey → Bool
links_leb [] ts = true
links_leb (s ∷ ss) [] = false
links_leb (s ∷ ss) (t ∷ ts) = let rest = links_leb ss ts in if s == t then rest else link_leb s t

-- The order of the conflicting snapshots.
abbrev pub snapshot_leb : List LinkKey → List LinkKey → Bool
snapshot_leb s t = links_leb (sort_by link_leb s) (sort_by link_leb t)

-- One effective snapshot, where there is one, from those of the webhook and those of all sources.
unfoldable pub resolve_sets : List (List LinkKey) → List (List LinkKey) → Resolution
resolve_sets webhook (s ∷ []) = Resolution.ok s
resolve_sets (w ∷ []) every = Resolution.ok w
resolve_sets webhook every = Resolution.park (sort_by snapshot_leb every)

abbrev pub from_webhook : Fact → Bool
from_webhook f = f.observed_via == "webhook"

-- `_resolve_timestamp_group`
unfoldable pub resolve_timestamp_group : List Fact → Resolution
resolve_timestamp_group facts =
    let webhook = distinct_sets (keys_where from_webhook facts) in
    let backfill = distinct_sets (keys_where (λ (f : Fact). not (from_webhook f)) facts) in
    resolve_sets webhook (distinct_sets (webhook ++ backfill))

-- ===== src/Correlation/OneLink.antt =====
-- The links of a run with entities: an entity has at most one.
use opencode_gateway.Prelude.{
  ℕ, ◌+◌, ◌≤◌, String, ◌≡◌, subst, sym, ◌∙◌, inl, inr, true, false, not, Option, List, [], ◌∷◌,
  ◌++◌, map, arith, string_eq, option_eq, ◌==◌, filter, contains, length, length-filter-append,
  length-filter_none, Bool-cases,
}
use opencode_gateway.Domain.{EntityType, entity_eq}
use opencode_gateway.Associations.Sort.{sort_by, length-filter-sort_by}
use opencode_gateway.Correlation.{
  EngineeringEvent, AfkRun, owning_change_request, EngineeringEntity, TextReader, Correlation,
  of_type,
}
use opencode_gateway.Correlation.Rules.{by_entity_id}
use opencode_gateway.Correlation.Engine.{binds, Resolver, apply_results, no_locks}
use opencode_gateway.Correlation.Copies.{is_copy, one_copy_kept}
use opencode_gateway.Correlation.Locks.{decided_at_most_once}
use opencode_gateway.Correlation.Rules.{default_results}
use opencode_gateway.Correlation.Resolve.{resolve}
use opencode_gateway.Correlation.Links.{
  direct_link, noise_link, lineage_links, is_noise, known_numbers, run_entity_links,
  dedupe_entities,
}
use opencode_gateway.Correlation.Outcome.{SessionDescriptor}
use opencode_gateway.Correlation.LinkCounts.{
  links_to, bound_ids, count-direct_link, contains-bound_ids, copy_of, is_lineage, count-noise_link,
  no_noise_link, count_lineage, lineage_links_counts, no_lineage_links,
}

-- The copies of an entity, by their type.
copies_by_type :
    (k : String) (es : List EngineeringEntity)
    → (length (filter (copy_of k is_lineage) es)
          + length (filter (copy_of k (λ e. e.entity_type == EntityType.change_request)) es)
        ≤ length (filter (is_copy k) es))
      × (length (filter (copy_of k (λ e. e.entity_type == EntityType.commit)) es)
          ≤ length (filter (copy_of k is_lineage) es))
unfolding filter copy_of is_lineage
copies_by_type k [] = (omega arith, omega arith)
copies_by_type k (e ∷ es) =
    let rest = copies_by_type k es in (ground (arith, rest.0), ground (arith, rest.1))

left_out :
    (k : String) (reader : TextReader) (known : List ℕ) (linked : List String)
    → contains k linked ≡ true
    → (e : EngineeringEntity) → e.entity_id ≡ k
    → is_noise reader known linked e ≡ false
unfolding is_noise
left_out k reader known linked h e same =
    let here : contains e.entity_id linked ≡ true =
      subst (λ i. contains i linked ≡ true) (sym same) h in
    ground (arith, here)

bound_out :
    (k : String) (bound : List String)
    → contains k bound ≡ true
    → (e : EngineeringEntity) → e.entity_id ≡ k
    → not (contains e.entity_id bound) ≡ false
bound_out k bound h e same =
    subst (λ i. not (contains i bound) ≡ false) (sym same) (ground (arith, h))

-- An entity that is bound at most once and has one copy gets at most one link.
one_link :
    (reader : TextReader) (cs : List Correlation) (es : List EngineeringEntity)
    (owning : Option EngineeringEntity) (k : String)
    → length (filter (binds k) cs) ≤ 1
    → length (filter (is_copy k) es) ≤ 1
    → length (filter (links_to k) (run_entity_links reader cs es owning)) ≤ 1
unfolding run_entity_links count_lineage bound_ids
one_link reader cs es owning k once single =
    let sorted = sort_by by_entity_id es in
    let bound = bound_ids cs in
    let inherited = lineage_links reader owning cs sorted bound in
    let known = known_numbers reader owning in
    let is_open = λ (cr : EngineeringEntity). not (contains cr.entity_id bound) in
    let requests = map noise_link (filter is_open (of_type EntityType.change_request sorted)) in
    let noisy = is_noise reader known inherited.1 in
    let commits = map noise_link (filter noisy (of_type EntityType.commit sorted)) in
    let direct = map direct_link cs in
    let same_count = length-filter-sort_by by_entity_id (is_copy k) es in
    let by_type = copies_by_type k sorted in
    let total : length (filter (links_to k) (((direct ++ inherited.0) ++ requests) ++ commits))
        ≡ length (filter (binds k) cs)
          + (count_lineage k inherited
              + (length (filter (links_to k) requests) + length (filter (links_to k) commits))) =
      omega (
        arith,
        count-direct_link k cs,
        length-filter-append (links_to k) ((direct ++ inherited.0) ++ requests) commits,
        length-filter-append (links_to k) (direct ++ inherited.0) requests,
        length-filter-append (links_to k) direct inherited.0,
      ) in
    let known_bound = contains-bound_ids k cs in
    let few_requests = count-noise_link k EntityType.change_request is_open sorted in
    let few_commits = count-noise_link k EntityType.commit noisy sorted in
    let few_inherited = lineage_links_counts k reader owning cs sorted bound in
    elim (Bool-cases (contains k bound)) [
      | inl is_bound ↦
          let none_inherited = no_lineage_links k reader owning cs sorted bound is_bound in
          omega (
            arith,
            once,
            total,
            none_inherited.0,
            no_noise_link k EntityType.change_request is_open sorted (bound_out k bound is_bound),
            no_noise_link k EntityType.commit noisy sorted
                (left_out k reader known inherited.1 none_inherited.1),
          )
      | inr unbound ↦
          let no_direct : length (filter (binds k) cs) ≡ 0 =
            length-filter_none (binds k) cs (sym known_bound ∙ unbound) in
          elim (Bool-cases (contains k inherited.1)) [
            | inl is_linked ↦
                let no_commits =
                  no_noise_link k EntityType.commit noisy sorted
                    (left_out k reader known inherited.1 is_linked) in
                omega (
                  arith, single, same_count, by_type.0, total, no_direct, no_commits, few_requests,
                  few_inherited.0,
                )
            | inr unlinked ↦
                let none_inherited : count_lineage k inherited ≤ 0 =
                  ground (arith, few_inherited.1, unlinked) in
                omega (
                  arith, single, same_count, by_type.0, by_type.1, total, no_direct, none_inherited,
                  few_requests, few_commits,
                )
          ]
    ]

-- Whatever the entities, the events and the sessions are, the run that the engine reconstructs has
-- at most one link with an entity: resolved, referenced, inherited from the owning change request,
-- or noise.
pub one_link_per_entity :
    (ulid : ℕ → String) (version : String) (reader : TextReader) (run : AfkRun)
    (entities : List EngineeringEntity) (events : List EngineeringEvent)
    (sessions : List SessionDescriptor) (client : Option String) (entity_id : String)
    → length (
        filter
          (links_to entity_id)
          (resolve ulid version reader run entities events sessions client).entity_links)
      ≤ 1
unfolding resolve
one_link_per_entity ulid version reader run entities events sessions client entity_id =
    let r : Resolver = record { ulid = ulid; afk_run_id = ulid 0; resolver_version = version } in
    let seed : AfkRun = record run { afk_run_id = ulid 0 } in
    let results = default_results reader seed entities events in
    let owning = owning_change_request seed entities in
    let cs = (apply_results r results no_locks).correlations in
    one_link reader cs (dedupe_entities reader entities owning) owning entity_id
      (omega (arith, decided_at_most_once r results entity_id))
      (ground (arith, one_copy_kept reader entities owning entity_id))

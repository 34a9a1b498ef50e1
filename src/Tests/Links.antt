-- ===== src/Tests/Links.antt =====
-- The associations and the session links at concrete inputs.
use opencode_gateway.Prelude.{
  ◌≡◌, refl, true, String, Option, none, some, List, [], ◌∷◌, map, string_eq, any, filter, length,
  string_discrete, contains,
}
use opencode_gateway.Domain.{Provider, EntityType, provider_discrete, entity_discrete}
use opencode_gateway.Store.{Link, Session}
use opencode_gateway.Executions.{is_link, link_sessions}
use opencode_gateway.Executions.SessionLinks.{sessions_are_linked}
use opencode_gateway.Associations.{
  Reference, ResourceLink, Association, resource_link_discrete, put_source, merge_source_reference,
  absorb, group_one, group_all, derive_exact_associations,
}
use opencode_gateway.Associations.Sort.{insert_by, sort_by}
use opencode_gateway.Associations.Laws.{
  names, refers, carries, one_association, provenance_is_exact,
}

abbrev by_title : Reference
by_title = record {
  session_id = some "u1";
  external_session_id = "ses-1";
  source_field = "title";
  provider = Provider.github;
  repository = "o/r";
  resource_type = EntityType.issue;
  resource_number = "5";
}

abbrev by_refs : Reference
by_refs = record by_title { source_field = "resource_refs"; session_id = some "u2" }

abbrev link : ResourceLink
link = record {
  provider = Provider.github;
  repository = "o/r";
  resource_type = EntityType.issue;
  resource_number = "5";
  external_session_id = "ses-1";
}

abbrev ids : List Association → List (Option String)
ids xs = map (λ (a : Association). a.session_id) xs

-- The first internal session id wins, so the result depends on the order of the references.
title_first : ids (derive_exact_associations "1" (by_title ∷ by_refs ∷ [])) ≡ some "u1" ∷ []
unfolding derive_exact_associations group_all group_one absorb merge_source_reference put_source
    sort_by insert_by resource_link_discrete provider_discrete entity_discrete string_discrete
title_first = refl

refs_first : ids (derive_exact_associations "1" (by_refs ∷ by_title ∷ [])) ≡ some "u2" ∷ []
unfolding derive_exact_associations group_all group_one absorb merge_source_reference put_source
    sort_by insert_by resource_link_discrete provider_discrete entity_discrete string_discrete
refs_first = refl

one_association_example :
    length (filter (names link) (derive_exact_associations "1" (by_title ∷ by_refs ∷ []))) ≡ 1
unfolding any refers resource_link_discrete provider_discrete entity_discrete string_discrete
one_association_example = one_association "1" link (by_title ∷ by_refs ∷ [])

provenance_is_exact_example :
    any (carries link "title") (derive_exact_associations "1" (by_title ∷ by_refs ∷ [])) ≡ true
unfolding any refers resource_link_discrete provider_discrete entity_discrete string_discrete
provenance_is_exact_example = provenance_is_exact "1" link "title" (by_title ∷ by_refs ∷ [])

abbrev sessions : List Session
sessions = record { id = "u1"; external_session_id = "ses-1" } ∷ []

abbrev stored_links : List Link
stored_links =
    record {
      afk_run_id = "RUN1";
      session_id = some "u0";
      external_session_id = "ses-0";
      started_at = none;
      finished_at = none;
    }
    ∷ []

sessions_are_linked_example :
    length (
      filter
        (is_link "RUN1" "ses-1")
        (link_sessions "RUN1" none (some 9) sessions ("ses-1" ∷ "ses-0" ∷ []) stored_links))
    ≡ 1
unfolding any filter contains string_discrete
sessions_are_linked_example =
    sessions_are_linked "RUN1" "ses-1" none (some 9) sessions ("ses-1" ∷ "ses-0" ∷ []) stored_links
      refl

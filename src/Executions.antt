-- ===== src/Executions.antt =====
-- afk_outcomes/repository/executions.py and the session links of crud.py: what the two write paths
-- of an execution binding share.
pub mod SessionLinks
use opencode_gateway.Prelude.{
  String, Bool, ◌&&◌, Option, none, some, List, [], ◌∷◌, map, nat_eq, string_eq, option_eq, list_eq,
  ◌==◌, if◌then◌else◌, coalesce, filter, dedupe,
}
use opencode_gateway.Domain.{Time, provider_eq, trigger_eq, change_request_eq, outcome_eq}
use opencode_gateway.Store.{Link, Session, SessionsColumn, null, malformed, items}

-- The texts of a decoded list: `isinstance(s, str) and s`
abbrev pub texts : List (Option String) → List String
texts [] = []
texts (none ∷ xs) = texts xs
texts (some s ∷ xs) = let rest = texts xs in if s == "" then rest else s ∷ rest

-- `_decode_session_ids`
unfoldable pub decode_session_ids : SessionsColumn → List String
decode_session_ids null = []
decode_session_ids malformed = []
decode_session_ids (items xs) = dedupe (texts xs)

-- `json.dumps(session_ids) if session_ids else None`
unfoldable pub encode_session_ids : List String → SessionsColumn
encode_session_ids [] = null
encode_session_ids (s ∷ ss) = items (map some (s ∷ ss))

-- `_resolve_internal_session_id`: `LIMIT 2`, and only a single row counts.
unfoldable pub single : List Session → Option String
single [] = none
single (s ∷ []) = some s.id
single (s ∷ t ∷ rest) = none

unfoldable pub resolve_internal_session_id : String → List Session → Option String
unfolding single
resolve_internal_session_id external sessions =
    single (filter (λ (s : Session). s.external_session_id == external) sessions)

-- `ON CONFLICT (afk_run_id, external_session_id)`
abbrev pub is_link : String → String → Link → Bool
is_link run external l = l.afk_run_id == run && l.external_session_id == external

-- The DO UPDATE of `_upsert_session_link`: enrich only, never erasing.
abbrev pub enrich : Link → Link → Link
enrich stored new = record stored {
  session_id = coalesce new.session_id stored.session_id;
  started_at = coalesce stored.started_at new.started_at;
  finished_at = coalesce new.finished_at stored.finished_at;
}

-- `_upsert_session_link`
unfoldable pub upsert_session_link : Link → List Link → List Link
upsert_session_link new [] = new ∷ []
upsert_session_link new (l ∷ ls) =
    let rest = upsert_session_link new ls in
    if is_link new.afk_run_id new.external_session_id l then enrich l new ∷ ls else l ∷ rest

-- The loop over the attributed sessions of one binding.
unfoldable pub link_sessions :
    String → Option Time → Option Time → List Session → List String → List Link → List Link
unfolding upsert_session_link resolve_internal_session_id
link_sessions run started finished sessions [] ls = ls
link_sessions run started finished sessions (s ∷ ss) ls =
    link_sessions run started finished sessions ss (
      upsert_session_link
        (record {
          afk_run_id = run;
          session_id = resolve_internal_session_id s sessions;
          external_session_id = s;
          started_at = started;
          finished_at = finished;
        })
        ls)

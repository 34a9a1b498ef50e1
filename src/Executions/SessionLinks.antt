-- ===== src/Executions/SessionLinks.antt =====
-- The session links that an execution leaves: one for each attributed session, never erased.
use opencode_gateway.Prelude.{
  indicator, ◌+◌, ◌≡◌, refl, Bool, true, ◌&&◌, ◌||◌, not, String, Option, List, [], ◌∷◌, arith,
  string_eq, any, filter, length, contains, is_some,
}
use opencode_gateway.Domain.{Time}
use opencode_gateway.Store.{Link, Session}
use opencode_gateway.Executions.{
  is_link, upsert_session_link, link_sessions, resolve_internal_session_id,
}

any-upsert_session_link :
    (run s : String) (new : Link) (ls : List Link)
    → any (is_link run s) (upsert_session_link new ls)
      ≡ (is_link run s new || any (is_link run s) ls)
unfolding any upsert_session_link
any-upsert_session_link run s new [] = refl
any-upsert_session_link run s new (l ∷ ls) = ground (arith, any-upsert_session_link run s new ls)

count-upsert_session_link :
    (run s : String) (new : Link) (ls : List Link)
    → length (filter (is_link run s) (upsert_session_link new ls))
      ≡ length (filter (is_link run s) ls)
        + indicator (is_link run s new && not (any (is_link run s) ls))
unfolding filter any upsert_session_link
count-upsert_session_link run s new [] = ground arith
count-upsert_session_link run s new (l ∷ ls) =
    ground (arith, count-upsert_session_link run s new ls)

-- UNIQUE (afk_run_id, external_session_id): after the loop over the attributed sessions, each of
-- them has exactly one link with the run, and so has a session that had one before; no other session
-- has a link with the run. The pair had at most one row before.
pub sessions_are_linked :
    (run s : String) (started finished : Option Time) (sessions : List Session) (ss : List String)
    (ls : List Link)
    → length (filter (is_link run s) ls) ≡ indicator (any (is_link run s) ls)
    → length (filter (is_link run s) (link_sessions run started finished sessions ss ls))
      ≡ indicator (contains s ss || any (is_link run s) ls)
unfolding link_sessions contains
sessions_are_linked run s started finished sessions [] ls h = h
sessions_are_linked run s started finished sessions (x ∷ ss) ls h =
    let new : Link = record {
      afk_run_id = run;
      session_id = resolve_internal_session_id x sessions;
      external_session_id = x;
      started_at = started;
      finished_at = finished;
    } in
    let here = any-upsert_session_link run s new ls in
    let count = count-upsert_session_link run s new ls in
    let rest =
      sessions_are_linked run s started finished sessions ss (upsert_session_link new ls) in
    ground arith

-- A link with an internal session id.
abbrev pub resolved : String → String → Link → Bool
resolved run s l = is_link run s l && is_some l.session_id

resolved-upsert :
    (run s : String) (new : Link) (ls : List Link)
    → any (resolved run s) ls ≡ true
    → any (resolved run s) (upsert_session_link new ls) ≡ true
unfolding any upsert_session_link
resolved-upsert run s new [] h = cc
resolved-upsert run s new (l ∷ ls) h = ground (arith, resolved-upsert run s new ls)

-- A session link with an internal session id still has one after the loop, also where the id of the
-- session can no longer be resolved.
pub resolved_links_stay :
    (run other s : String) (started finished : Option Time) (sessions : List Session)
    (ss : List String) (ls : List Link)
    → any (resolved other s) ls ≡ true
    → any (resolved other s) (link_sessions run started finished sessions ss ls) ≡ true
unfolding link_sessions
resolved_links_stay run other s started finished sessions [] ls h = h
resolved_links_stay run other s started finished sessions (x ∷ ss) ls h =
    resolved_links_stay run other s started finished sessions ss _ (resolved-upsert other s _ ls h)

-- ===== src/Orchestrator/Session/Manager/Cleanup.antt =====
-- Which sessions the cleanup removes (src/orchestrator/src/session.rs): those that are stale.
use himmelblau.Common.{
  ℕ, ◌≡◌, refl, ap, sym, ◌∙◌, Bool, true, false, not, ◌||◌, String, none, List, [], ◌∷◌, arith,
  eq_iff, if◌then◌else◌, any, retain, All, All-map, All-both, inl, inr, Option-cases,
}
use himmelblau.Orchestrator.Session.{Session, is_stale}
use himmelblau.Orchestrator.Session.Manager.{
  SessionManager, has_id, find, remove, clean, stale_ids, cleanup_stale_sessions,
}
use himmelblau.Orchestrator.Session.Manager.Invariant.{Distinct}

-- The session's id is listed.
abbrev listed : List String → Session → Bool
listed ids s = any (λ id. has_id id s) ids

retain-cong :
    (p q : Session → Bool) (ss : List Session) → All (λ s. p s ≡ q s) ss → retain p ss ≡ retain q ss
retain-cong p q [] h = refl
retain-cong p q (s ∷ ss) h = ground (arith, retain-cong p q ss h.1)

not_both : (a b : Bool) → not (a || b) ≡ (if not a then not b else false)
not_both a b = ground arith

retain-twice :
    (p q r : Session → Bool) (ss : List Session)
    → ((s : Session) → r s ≡ (if p s then q s else false))
    → retain q (retain p ss) ≡ retain r ss
retain-twice p q r [] h = refl
retain-twice p q r (s ∷ ss) h = ground (arith, h s, retain-twice p q r ss h)

find-none : (id : String) (ss : List Session) → find id ss ≡ none → remove id ss ≡ ss
unfolding find remove has_id
find-none id [] e = refl
find-none id (s ∷ ss) e = ground (arith, find-none id ss)

retain-same : (ss : List Session) → retain (λ s. true) ss ≡ ss
retain-same [] = refl
retain-same (s ∷ ss) = ground (arith, retain-same ss)

clean-sessions :
    (ids : List String) (m : SessionManager)
    → (clean ids m).1.sessions ≡ retain (λ s. not (listed ids s)) m.sessions
unfolding clean remove
clean-sessions [] m = sym (retain-same m.sessions)
clean-sessions (id ∷ ids) m =
    let twice =
      retain-twice (λ s. not (has_id id s)) (λ s. not (listed ids s))
        (λ s. not (listed (id ∷ ids) s)) m.sessions (λ s. not_both (has_id id s) (listed ids s)) in
    elim (Option-cases (find id m.sessions)) [
      | inl e ↦ ground (
        arith,
        clean-sessions ids m,
        ap (retain (λ s. not (listed ids s))) (find-none id m.sessions e),
        twice,
      )
      | inr (s, e) ↦
          let m' = record m {
            sessions = remove id m.sessions;
            destroyed = s.container ∷ m.destroyed;
          } in
          ground (arith, clean-sessions ids m', twice)
    ]

module _ (idle retention now : ℕ) where
  abbrev stale : List Session → List String
  stale ss = stale_ids idle retention now ss

  stale-others :
      (s : Session) (ss : List Session)
      → All (λ d. has_id s.session_id d ≡ false) ss
      → listed (stale ss) s ≡ false
  unfolding has_id
  stale-others s [] h = refl
  stale-others s (d ∷ ss) h = ground (
    arith,
    stale-others s ss h.1,
    eq_iff s.session_id d.session_id,
    eq_iff d.session_id s.session_id,
  )

  listed-stale :
      (ss : List Session)
      → Distinct ss
      → All (λ s. not (listed (stale ss) s) ≡ not (is_stale idle retention now s)) ss
  unfolding has_id
  listed-stale [] d = tt
  listed-stale (s ∷ ss) d = (
    ground (arith, stale-others s ss d.0, (eq_iff s.session_id s.session_id).1 refl),
    All-map _ _ ss (λ x h. ground arith)
        (All-both (λ x. has_id s.session_id x ≡ false) _ ss d.0 (listed-stale ss d.1)),
  )

-- The cleanup removes the sessions that are stale, and only those, where there is one session for each
-- id; whether one is stale depends on the moment at which the cleanup began.
pub cleanup_stale_sessions_lem :
    (now : ℕ) (m : SessionManager)
    → Distinct m.sessions
    → (cleanup_stale_sessions now m).1.sessions
      ≡ retain (λ s. not (is_stale m.idle_timeout m.terminal_retention now s)) m.sessions
unfolding cleanup_stale_sessions
cleanup_stale_sessions_lem now m d =
    clean-sessions (stale_ids m.idle_timeout m.terminal_retention now m.sessions) m
    ∙ retain-cong _ _ m.sessions (listed-stale m.idle_timeout m.terminal_retention now m.sessions d)

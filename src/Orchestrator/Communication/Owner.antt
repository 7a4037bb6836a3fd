-- ===== src/Orchestrator/Communication/Owner.antt =====
-- A command never touches a session of another user (src/orchestrator/src/communication.rs).
use himmelblau.Common.{
  ℕ, ◌≡◌, refl, ◌∙◌, true, false, String, Option, none, some, List, ◌∷◌, Result, ok, err, arith,
  any, any-none, All, Bool-cases, inl, inr, Option-cases,
}
use himmelblau.Orchestrator.{ContainerInstance}
use himmelblau.Orchestrator.Session.{Session, SessionRuntime, LogLevel, log, owned_by}
use himmelblau.Orchestrator.Session.Manager.{
  SessionManager, Request, has_id, contains_key, find, get_session, session_for, finish_create,
  create_session, cancel_session, created_message,
}
use himmelblau.Orchestrator.Session.Manager.Invariant.{Distinct}
use himmelblau.Orchestrator.Command.{ProvidedInput, FlowCommand, FlowResponse, Invalid, validate}
use himmelblau.Orchestrator.Communication.{
  Server, Answer, ran, created, handle_start_session, continued, handle_next_step, cancel,
  cancel_owned, handle_cancel_session, status_of, handle_get_status, dispatch, checked,
  process_command,
}
use himmelblau.Orchestrator.Communication.Others.{
  others, Owned, none-Owned, find-missing, find-Owned, others-remove, others-set_runtime,
}

module _ {W : Type 0} (server : Server W) (uid : ℕ) where
  -- The sessions of the others are as they were.
  abbrev Kept : List Session → Answer server uid → Type 0
  Kept ss answer = others uid answer.1.sessions ≡ others uid ss

  ran-Kept :
      (id : String) (m : SessionManager) (r : Result FlowResponse String × SessionRuntime × W)
      → Owned uid id m.sessions
      → Kept m.sessions (ran server uid id m r)
  ran-Kept id m (ok response, runtime, w) h = others-set_runtime uid id runtime m h
  ran-Kept id m (err e, runtime, w) h = others-set_runtime uid id runtime m h

  owner-new :
      (now epoch : ℕ) (r : Request) (c : ContainerInstance)
      → (log now epoch LogLevel.info (created_message c) (session_for now r c)).owner_uid
        ≡ r.owner_uid
  unfolding log session_for
  owner-new now epoch r c = refl

  added-Kept :
      (s : Session) (ss : List Session)
      → owned_by uid s ≡ true
      → All (λ x. has_id s.session_id x ≡ false) ss
      → (others uid (s ∷ ss) ≡ others uid ss) × Owned uid s.session_id (s ∷ ss)
  added-Kept s ss o h = ground (arith, none-Owned uid s.session_id ss h)

  started-Kept :
      (s : Session) (m : SessionManager) (w : W)
      → owned_by uid s ≡ true
      → All (λ x. has_id s.session_id x ≡ false) m.sessions
      → Kept m.sessions (
          ran server uid s.session_id
            (record m { sessions = s ∷ m.sessions })
            (server.start_session s w))
  started-Kept s m w o h =
      let (same, owned) = added-Kept s m.sessions o h in
      ran-Kept s.session_id (record m { sessions = s ∷ m.sessions }) (server.start_session s w)
        owned
      ∙ same

  finish-Kept :
      (now epoch : ℕ) (r : Request) (c : ContainerInstance) (m : SessionManager) (w : W)
      → r.owner_uid ≡ uid
      → Kept m.sessions (created server uid (finish_create now epoch r c m) w)
  unfolding created finish_create contains_key owned_by log session_for
  finish-Kept now epoch r c m w e = elim (Bool-cases (any (has_id r.session_id) m.sessions)) [
    | inl there ↦ ground arith
    | inr free ↦
        let s = log now epoch LogLevel.info (created_message c) (session_for now r c) in
        let got = record m { received = c ∷ m.received } in
        let kept =
          started-Kept s got w (ground arith) (any-none (has_id r.session_id) m.sessions free) in
        ground arith
  ]

  -- What other tasks do while the pool finds a container does not touch the sessions of the others.
  abbrev pub Quiet : Type 0
  Quiet = (m : SessionManager) → others uid (server.meanwhile m).sessions ≡ others uid m.sessions

  create-Kept :
      (now epoch : ℕ) (r : Request) (o : Option ContainerInstance) (m : SessionManager) (w : W)
      → Quiet
      → r.owner_uid ≡ uid
      → Kept m.sessions (created server uid (create_session now epoch r o server.meanwhile m) w)
  unfolding created create_session contains_key
  create-Kept now epoch r (some c) m w quiet e =
      elim (Bool-cases (any (has_id r.session_id) m.sessions)) [
        | inl there ↦ ground arith
        | inr free ↦
            let kept = finish-Kept now epoch r c (server.meanwhile m) w e ∙ quiet m in ground arith
      ]
  create-Kept now epoch r none m w quiet e =
      elim (Bool-cases (any (has_id r.session_id) m.sessions)) [
        | inl there ↦ ground arith
        | inr free ↦ let kept = quiet m in ground arith
      ]

  start-Kept :
      (r : Request) (provider : Option String) (m : SessionManager) (w : W)
      → Quiet
      → r.owner_uid ≡ uid
      → Kept m.sessions (handle_start_session server uid r provider m w)
  unfolding handle_start_session
  start-Kept r provider m w quiet e =
      let name = server.detect_provider provider r.username r.issuer_url in
      let (container, w') = server.acquire_container r.session_id w in
      let kept =
        create-Kept (server.now w') (server.epoch w') (record r { provider = name }) container m w'
          quiet e in
      elim (Bool-cases (server.registered name)) [
        | inl known ↦ ground arith
        | inr unknown ↦ ground arith
      ]

  continued-Kept :
      (id : String) (is : List ProvidedInput) (o : Option Session) (m : SessionManager) (w : W)
      → Distinct m.sessions
      → find id m.sessions ≡ o
      → Kept m.sessions (continued server uid id is o m w)
  unfolding continued
  continued-Kept id is none m w d e = refl
  continued-Kept id is (some s) m w d e = elim (Bool-cases (owned_by uid s)) [
    | inl own ↦
        let kept =
          ran-Kept id m (server.continue_session s is w) (find-Owned uid id s m.sessions d e own) in
        ground arith
    | inr other ↦ ground arith
  ]

  cancel-Kept :
      (id : String) (m : SessionManager) (w : W)
      → Owned uid id m.sessions
      → Kept m.sessions (cancel server uid id m w)
  unfolding cancel cancel_session
  cancel-Kept id m w h = elim (Option-cases (find id m.sessions)) [
    | inl missing ↦ ground arith
    | inr (s, e) ↦ ground (arith, others-remove uid id m.sessions h)
  ]

  cancel_owned-Kept :
      (id : String) (o : Option Session) (m : SessionManager) (w : W)
      → Distinct m.sessions
      → find id m.sessions ≡ o
      → Kept m.sessions (cancel_owned server uid id o m w)
  unfolding cancel_owned
  cancel_owned-Kept id none m w d e = cancel-Kept id m w (find-missing uid id m.sessions e)
  cancel_owned-Kept id (some s) m w d e = elim (Bool-cases (owned_by uid s)) [
    | inl own ↦
        let kept = cancel-Kept id m w (find-Owned uid id s m.sessions d e own) in ground arith
    | inr other ↦ ground arith
  ]

  status-Kept :
      (id : String) (o : Option Session) (m : SessionManager) (w : W)
      → Kept m.sessions (status_of server uid id o m w)
  unfolding status_of
  status-Kept id none m w = refl
  status-Kept id (some s) m w = ground (arith, Bool-cases (owned_by uid s))

  dispatch-Kept :
      (command : FlowCommand) (m : SessionManager) (w : W)
      → Quiet
      → Distinct m.sessions
      → Kept m.sessions (dispatch server uid command m w)
  unfolding dispatch handle_next_step handle_cancel_session handle_get_status get_session
  dispatch-Kept
        (FlowCommand.start_session id provider username issuer_url dag_auth_url dag_user_code) m w
        quiet d =
      let request : Request = record {
        session_id = id;
        provider = "";
        owner_uid = uid;
        username = username;
        issuer_url = issuer_url;
        dag_auth_url = dag_auth_url;
        dag_user_code = dag_user_code;
      } in
      start-Kept request provider m w quiet refl
  dispatch-Kept (FlowCommand.next_step id is) m w quiet d =
      continued-Kept id is (find id m.sessions) m w d refl
  dispatch-Kept (FlowCommand.cancel_session id) m w quiet d =
      cancel_owned-Kept id (find id m.sessions) m w d refl
  dispatch-Kept (FlowCommand.get_session_status id) m w quiet d = status-Kept id _ m w
  dispatch-Kept FlowCommand.ping m w quiet d = refl

  checked-Kept :
      (command : FlowCommand) (r : Result (Unit {0}) Invalid) (m : SessionManager) (w : W)
      → Quiet
      → Distinct m.sessions
      → Kept m.sessions (checked server uid command r m w)
  checked-Kept command (ok u) m w quiet d = dispatch-Kept command m w quiet d
  checked-Kept command (err e) m w quiet d = refl

  -- Where there is one session for each id, and other tasks do not touch the sessions of other users
  -- while the pool finds a container, then whatever the command and its answer, the sessions of other
  -- users are the same afterwards.
  pub process_command-others :
      (command : FlowCommand) (m : SessionManager) (w : W)
      → Quiet
      → Distinct m.sessions
      → others uid (process_command server uid command m w).1.sessions ≡ others uid m.sessions
  unfolding process_command
  process_command-others command m w quiet d = checked-Kept command (validate command) m w quiet d

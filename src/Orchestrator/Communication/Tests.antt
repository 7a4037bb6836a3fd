-- ===== src/Orchestrator/Communication/Tests.antt =====
-- Commands to the orchestrator, and the theorems on them (src/orchestrator/src/communication.rs,
-- src/orchestrator/src/types.rs). The flow engine of the sample answers and changes nothing.
use himmelblau.Common.{ℕ, ◌+◌, ◌≤◌, ◌≡◌, refl, true, String, none, some, [], ◌∷◌, ok, err, str_eq}
use himmelblau.Orchestrator.{ContainerInstance}
use himmelblau.Orchestrator.Session.{new}
use himmelblau.Orchestrator.Session.Manager.{SessionManager}
use himmelblau.Orchestrator.Command.{FlowCommand, FlowResponse, Invalid, validate}
use himmelblau.Orchestrator.Command.Bounds.{size, validate-size}
use himmelblau.Orchestrator.Communication.{CommandError, Server, handle_client, process_command}
use himmelblau.Orchestrator.Communication.Others.{others}
use himmelblau.Orchestrator.Communication.Owner.{process_command-others}

abbrev box : String → ContainerInstance
box id = record { id = id; name = id }

abbrev server : Server ℕ
server = record {
  detect_provider = λ p u i. "entra";
  registered = λ name. str_eq name "entra";
  now = λ w. w;
  epoch = λ w. w;
  acquire_container = λ id w. (some (box "c2"), w + 1);
  meanwhile = λ m. m;
  accepts = λ c. true;
  start_session = λ s w. (ok (FlowResponse.other "started"), s.runtime, w);
  continue_session = λ s is w. (ok (FlowResponse.other "continued"), s.runtime, w);
}

abbrev manager : SessionManager
manager = record {
  sessions = new 0 "s1" "entra" 1000 (box "c1") ∷ [];
  idle_timeout = 300;
  terminal_retention = 60;
  received = box "c1" ∷ [];
  destroyed = [];
}

-- A session is another user's: it cannot be cancelled, its owner can.
not_mine :
    process_command server 1001 (FlowCommand.cancel_session "s1") manager 5
    ≡ (err (CommandError.not_owned "s1" 1001), manager, 5)
unfolding process_command
not_mine = refl

mine : (process_command server 1000 (FlowCommand.cancel_session "s1") manager 5).1.sessions ≡ []
unfolding process_command
mine = refl

starts :
    (process_command server 1001
      (FlowCommand.start_session "s2" none none none none none)
      manager
      5).0
    ≡ ok (FlowResponse.other "started")
unfolding process_command
starts = refl

no_peer : handle_client server 1001 1000 FlowCommand.ping manager 5 ≡ (none, manager, 5)
unfolding handle_client
no_peer = refl

process_command-others_example :
    others 1001
      (process_command server 1001
        (FlowCommand.start_session "s2" none none none none none)
        manager
        5).1.sessions
    ≡ others 1001 manager.sessions
process_command-others_example =
    process_command-others server 1001 (FlowCommand.start_session "s2" none none none none none)
      manager 5 (λ m. refl) (tt, tt)

abbrev code : FlowCommand
code = FlowCommand.next_step "s1" (record { name = "otp"; value = "123456" } ∷ [])

code_valid : validate code ≡ ok tt
unfolding validate
code_valid = refl

blank_id : validate (FlowCommand.cancel_session " ") ≡ err (Invalid.empty "session_id")
unfolding validate
blank_id = refl

validate-size_example : size code ≤ 264320
validate-size_example = validate-size code code_valid

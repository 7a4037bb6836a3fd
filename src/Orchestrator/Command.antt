-- ===== src/Orchestrator/Command.antt =====
-- The commands of the orchestrator's socket, and what is demanded of their texts
-- (src/orchestrator/src/types.rs).
pub mod Bounds
use himmelblau.Common.{
  ℕ, Bool, true, false, ◌||◌, String, Option, none, some, List, [], ◌∷◌, Result, ok, err, ltb, leb,
  ◌==◌, if◌then◌else◌, codes, byte_len, length, any, ◌&&◌, not,
}
use himmelblau.Orchestrator.Session.{SessionState, SessionLogEntry}

pub record ProvidedInput : Type 0 where
  pub name : String
  pub value : String

pub data FlowCommand : Type 0 where
  start_session :
      String
      → Option String
      → Option String
      → Option String
      → Option String
      → Option String
      → FlowCommand
  next_step : String → List ProvidedInput → FlowCommand
  cancel_session : String → FlowCommand
  get_session_status : String → FlowCommand
  ping : FlowCommand

-- The responses that the socket's own code makes; `other` is one of the flow engine.
pub data FlowResponse : Type 0 where
  ack : String → String → FlowResponse
  session_status :
      String → String → SessionState → Option String → List SessionLogEntry → FlowResponse
  session_error : String → String → FlowResponse
  pong : String → FlowResponse
  other : String → FlowResponse

-- What is wrong with the text of a field, or with the number of inputs.
pub data Invalid : Type 0 where
  empty : String → Invalid
  too_long : String → ℕ → ℕ → Invalid
  control : String → Invalid
  too_many_inputs : ℕ → Invalid

abbrev pub max_session_id_len : ℕ
max_session_id_len = 128

abbrev pub max_provider_len : ℕ
max_provider_len = 64

abbrev pub max_username_len : ℕ
max_username_len = 320

abbrev pub max_issuer_url_len : ℕ
max_issuer_url_len = 2048

abbrev pub max_dag_auth_url_len : ℕ
max_dag_auth_url_len = 4096

abbrev pub max_dag_user_code_len : ℕ
max_dag_user_code_len = 128

abbrev pub max_input_name_len : ℕ
max_input_name_len = 64

abbrev pub max_input_value_len : ℕ
max_input_value_len = 8192

abbrev pub max_provided_inputs : ℕ
max_provided_inputs = 32

abbrev between : ℕ → ℕ → ℕ → Bool
between a b c = leb a c && leb c b

-- `char::is_whitespace`, the property White_Space of Unicode.
abbrev is_whitespace : ℕ → Bool
is_whitespace c =
    between 9 13 c
    || c == 32
    || c == 133
    || c == 160
    || c == 5760
    || between 8192 8202 c
    || between 8232 8233 c
    || c == 8239
    || c == 8287
    || c == 12288

-- `char::is_control`, the category Cc of Unicode.
abbrev is_control : ℕ → Bool
is_control c = ltb c 32 || between 127 159 c

-- `value.len()`, in bytes.
abbrev pub text_len : String → ℕ
text_len value = byte_len (codes value)

-- `value.trim().is_empty()`
abbrev is_blank : String → Bool
is_blank value = not (any (λ c. not (is_whitespace c)) (codes value))

-- `?`
abbrev pub and_then :
    Result (Unit {0}) Invalid → Result (Unit {0}) Invalid → Result (Unit {0}) Invalid
and_then (ok u) r = r
and_then (err e) r = err e

unfoldable pub validate_text_max : String → String → ℕ → Result (Unit {0}) Invalid
unfolding byte_len
validate_text_max field value max_len =
    if ltb max_len (text_len value)
    then err (Invalid.too_long field max_len (text_len value))
    else if any is_control (codes value)
    then err (Invalid.control field)
    else ok tt

unfoldable pub validate_required_text : String → String → ℕ → Result (Unit {0}) Invalid
unfolding validate_text_max
validate_required_text field value max_len =
    if is_blank value then err (Invalid.empty field) else validate_text_max field value max_len

-- `if let Some(value)` around `validate_optional_text`, which demands the same.
unfoldable pub validate_optional_text : String → Option String → ℕ → Result (Unit {0}) Invalid
unfolding validate_text_max
validate_optional_text field none max_len = ok tt
validate_optional_text field (some value) max_len =
    if is_blank value then err (Invalid.empty field) else validate_text_max field value max_len

unfoldable pub validate_inputs : List ProvidedInput → Result (Unit {0}) Invalid
unfolding validate_required_text validate_text_max
validate_inputs [] = ok tt
validate_inputs (i ∷ is) =
    and_then (validate_required_text "provided_input.name" i.name max_input_name_len) (
      and_then (validate_text_max "provided_input.value" i.value max_input_value_len)
        (validate_inputs is))

unfoldable pub validate : FlowCommand → Result (Unit {0}) Invalid
unfolding validate_required_text validate_optional_text validate_inputs
validate
      (FlowCommand.start_session session_id provider username issuer_url dag_auth_url
        dag_user_code) =
    and_then (validate_required_text "session_id" session_id max_session_id_len) (
      and_then (validate_optional_text "provider" provider max_provider_len) (
        and_then (validate_optional_text "username" username max_username_len) (
          and_then (validate_optional_text "issuer_url" issuer_url max_issuer_url_len) (
            and_then (validate_optional_text "dag_auth_url" dag_auth_url max_dag_auth_url_len)
              (validate_optional_text "dag_user_code" dag_user_code max_dag_user_code_len)))))
validate (FlowCommand.next_step session_id provided_inputs) =
    and_then (validate_required_text "session_id" session_id max_session_id_len) (
      if ltb max_provided_inputs (length provided_inputs)
      then err (Invalid.too_many_inputs (length provided_inputs))
      else validate_inputs provided_inputs)
validate (FlowCommand.cancel_session session_id) =
    validate_required_text "session_id" session_id max_session_id_len
validate (FlowCommand.get_session_status session_id) =
    validate_required_text "session_id" session_id max_session_id_len
validate FlowCommand.ping = ok tt

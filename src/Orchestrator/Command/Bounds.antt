-- ===== src/Orchestrator/Command/Bounds.antt =====
-- How large a command is that the orchestrator takes (src/orchestrator/src/types.rs).
use himmelblau.Common.{
  ℕ, ◌+◌, ◌*◌, ◌≤◌, ◌≡◌, String, Option, none, some, List, [], ◌∷◌, Result, ok, err, arith, length,
  sum_by,
}
use himmelblau.Orchestrator.Command.{
  FlowCommand, ProvidedInput, Invalid, text_len, and_then, max_input_name_len, max_input_value_len,
  max_provided_inputs, validate_text_max, validate_required_text, validate_optional_text,
  validate_inputs, validate,
}

abbrev optional_len : Option String → ℕ
optional_len none = 0
optional_len (some value) = text_len value

abbrev input_len : ProvidedInput → ℕ
input_len i = text_len i.name + text_len i.value

-- The bytes of all texts of a command.
abbrev pub size : FlowCommand → ℕ
size (FlowCommand.start_session id provider username issuer_url dag_auth_url dag_user_code) =
    text_len id
    + optional_len provider
    + optional_len username
    + optional_len issuer_url
    + optional_len dag_auth_url
    + optional_len dag_user_code
size (FlowCommand.next_step id provided_inputs) = text_len id + sum_by input_len provided_inputs
size (FlowCommand.cancel_session id) = text_len id
size (FlowCommand.get_session_status id) = text_len id
size FlowCommand.ping = 0

and_then-ok : (r q : Result (Unit {0}) Invalid) → and_then r q ≡ ok tt → (r ≡ ok tt) × (q ≡ ok tt)
and_then-ok (ok u) q e = (ground arith, e)
and_then-ok (err x) q e = cc

text_max-le :
    (field value : String) (max_len : ℕ)
    → validate_text_max field value max_len ≡ ok tt
    → text_len value ≤ max_len
unfolding validate_text_max
text_max-le field value max_len e = ground arith

required-le :
    (field value : String) (max_len : ℕ)
    → validate_required_text field value max_len ≡ ok tt
    → text_len value ≤ max_len
unfolding validate_required_text
required-le field value max_len e = ground (arith, text_max-le field value max_len)

optional-le :
    (field : String) (value : Option String) (max_len : ℕ)
    → validate_optional_text field value max_len ≡ ok tt
    → optional_len value ≤ max_len
unfolding validate_optional_text
optional-le field none max_len e = omega arith
optional-le field (some value) max_len e = ground (arith, text_max-le field value max_len)

inputs-le :
    (is : List ProvidedInput)
    → validate_inputs is ≡ ok tt
    → sum_by input_len is ≤ (max_input_name_len + max_input_value_len) * length is
unfolding validate_inputs
inputs-le [] e = omega arith
inputs-le (i ∷ is) e =
    let (named, e1) = and_then-ok _ _ e in
    let (valued, e2) = and_then-ok _ _ e1 in
    omega (
      arith,
      required-le "provided_input.name" i.name max_input_name_len named,
      text_max-le "provided_input.value" i.value max_input_value_len valued,
      inputs-le is e2,
    )

few :
    (id : String) (is : List ProvidedInput)
    → validate (FlowCommand.next_step id is) ≡ ok tt
    → (text_len id ≤ 128) × (length is ≤ max_provided_inputs) × (validate_inputs is ≡ ok tt)
unfolding validate
few id is e =
    let (named, e1) = and_then-ok _ _ e in
    (required-le "session_id" id 128 named, ground arith, ground arith)

-- The texts of a command that is taken have no more than 264,320 bytes in all, before they are written
-- as JSON.
pub validate-size : (command : FlowCommand) → validate command ≡ ok tt → size command ≤ 264320
unfolding validate
validate-size (FlowCommand.start_session id provider username issuer_url dag_auth_url dag_user_code)
      e =
    let (e0, r0) = and_then-ok _ _ e in
    let (e1, r1) = and_then-ok _ _ r0 in
    let (e2, r2) = and_then-ok _ _ r1 in
    let (e3, r3) = and_then-ok _ _ r2 in
    let (e4, e5) = and_then-ok _ _ r3 in
    omega (
      arith,
      required-le _ id _ e0,
      optional-le _ provider _ e1,
      optional-le _ username _ e2,
      optional-le _ issuer_url _ e3,
      optional-le _ dag_auth_url _ e4,
      optional-le _ dag_user_code _ e5,
    )
validate-size (FlowCommand.next_step id is) e =
    let (short, count, valid) = few id is e in omega (arith, short, count, inputs-le is valid)
validate-size (FlowCommand.cancel_session id) e = omega (arith, required-le _ id _ e)
validate-size (FlowCommand.get_session_status id) e = omega (arith, required-le _ id _ e)
validate-size FlowCommand.ping e = omega arith

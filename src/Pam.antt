-- ===== src/Pam.antt =====
-- The PAM client's side of an authentication, src/common/src/auth.rs: what it keeps between two
-- requests to the daemon, and how its handlers run. Handlers and Fido have the reactions to the daemon's
-- responses, Choose the choice of a new PIN and of a new password, Authenticate the loop.
pub mod Texts
pub mod Rules
pub mod Qr
pub mod Choose
pub mod Handlers
pub mod Fido
pub mod Authenticate
pub mod Sample
use Prim.Native.String.{◌++◌ as append}
use himmelblau.Common.{
  ℕ, ◌+◌, ◌-◌, ◌^◌, Bool, true, false, String, Option, none, some, List, Result, ok, err, ◌==◌,
  if◌then◌else◌,
}
use himmelblau.Pin.{Policies}
use himmelblau.Proto.{ClientRequest, ClientResponse, PamResultCode}

-- A signed number; `negsuc n` is -(n + 1).
pub data ℤ : Type 0 where
  pos : ℕ → ℤ
  negsuc : ℕ → ℤ

pub data BluetoothState : Type 0 where
  powered_on : BluetoothState
  powered_off : BluetoothState
  no_adapter : BluetoothState

-- `HimmelblauConfig`, as far as the handlers read it.
pub record Config : Type 0 where
  pub oidc_issuer_url : Option String
  pub entra_id_password_prompt : String
  pub hello_pin_prompt : String
  pub hello_pin_min_length : ℕ
  pub fido_timeout : ℕ
  pub fido_prompt : String
  pub fido_presence_prompt : String
  pub qr_bluetooth_prompt : String
  pub unix_sock_timeout : ℕ

-- `Options`, as far as the handlers read them.
pub record Options : Type 0 where
  pub ignore_unknown_user : Bool
  pub mfa_poll_prompt : Bool
  pub no_hello_pin : Bool
  pub force_reauth : Bool

-- A code of the `qrcodegen` crate; `get_module` answers for every coordinate.
pub record QrCode : Type 0 where
  pub size : ℕ
  pub get_module : ℤ → ℤ → Bool

-- The groups 4, 2 and 3 of the regular expression for an `otpauth` URL.
pub record Captures : Type 0 where
  pub secret : Option String
  pub issuer : Option String
  pub account : Option String

-- What the client asks of the daemon's socket, of the `MessagePrinter`, of the clock, of Bluetooth and
-- the FIDO crates, of the policy file, and of the `regex` and `qrcodegen` crates. `to_text` writes a
-- number in decimal, and
-- `urldecode` undoes the percent encoding.
pub record Front (W : Type 0) : Type 0 where
  pub call_and_wait : ClientRequest → ℕ → W → Result ClientResponse (Unit {0}) × W
  pub print_text : String → W → W
  pub prompt_echo_off : String → W → Option String × W
  pub sleep : ℕ → W → W
  pub check_bluetooth : W → BluetoothState × W
  -- the challenge, the allow list, the timeout in milliseconds and the prompts
  pub fido_auth : String → List String → ℕ → String → String → W → Result String PamResultCode × W
  pub fido_auth_with_qr_bluetooth :
      String → List String → ℕ → String → String → String → W → Result String PamResultCode × W
  pub fido_auth_qr_bluetooth_only :
      String → List String → String → W → Result String PamResultCode × W
  pub policy_cache : W → Result Policies (Unit {0}) × W
  pub first_url : String → Option String
  pub encode_text : String → Result QrCode (Unit {0})
  pub totp_captures : String → Option Captures
  pub urldecode : String → Result String (Unit {0})
  pub to_text : ℕ → String

-- `AuthenticateState`, with the world outside in place of the client and the message printer.
pub record AuthenticateState (W : Type 0) : Type 0 where
  pub authtok : Option String
  pub cfg : Config
  pub account_id : String
  pub service : String
  pub opts : Options
  pub poll_attempt : ℤ
  pub polling_interval : ℕ
  pub world : W

-- `waiting` if the rounds of a prompt that are looked at are over and it goes on.
pub data PamWhatNext : Type 0 where
  next : ClientRequest → PamWhatNext
  finish : PamResultCode → PamWhatNext
  waiting : PamWhatNext

-- What a part of a handler comes to: a value, or the handler's early return.
pub data Exit (A : Type 0) : Type 0 where
  value : A → Exit A
  leave : PamWhatNext → Exit A

abbrev pub Ui : Type 0 → Type 0 → Type 0
Ui W A = AuthenticateState W → Exit A × AuthenticateState W

-- `{:?}` of the codes that `pam_fail!` is given.
abbrev pub code_text : PamResultCode → String
code_text PamResultCode.pam_success = "PAM_SUCCESS"
code_text PamResultCode.pam_service_err = "PAM_SERVICE_ERR"
code_text PamResultCode.pam_system_err = "PAM_SYSTEM_ERR"
code_text PamResultCode.pam_auth_err = "PAM_AUTH_ERR"
code_text PamResultCode.pam_cred_insufficient = "PAM_CRED_INSUFFICIENT"
code_text PamResultCode.pam_user_unknown = "PAM_USER_UNKNOWN"
code_text PamResultCode.pam_ignore = "PAM_IGNORE"
code_text PamResultCode.pam_abort = "PAM_ABORT"

module _ {W A : Type 0} where
  pub value_of : A → Ui W A
  value_of a s = (Exit.value a, s)

  pub leave_with : PamWhatNext → Ui W A
  leave_with what s = (Exit.leave what, s)

  -- An operation of the world outside.
  pub ask : (W → A × W) → Ui W A
  ask f s = let (a, w) = f s.world in (Exit.value a, record s { world = w })

  pub state : (AuthenticateState W → A) → Ui W A
  state f s = (Exit.value (f s), s)

module _ {W : Type 0} where
  pub do_ : (W → W) → Ui W (Unit {0})
  do_ f s = (Exit.value tt, record s { world = f s.world })

  pub change : (AuthenticateState W → AuthenticateState W) → Ui W (Unit {0})
  change f s = (Exit.value tt, f s)

module _ {W A B : Type 0} where
  abbrev pub go_on : Exit A → (A → Ui W B) → Ui W B
  go_on (Exit.value a) f s = f a s
  go_on (Exit.leave what) f s = (Exit.leave what, s)

  infixl 5 ◌>>=◌ ◌>>◌
  -- Opening this opens the other combinators too.
  unfoldable pub ◌>>=◌ : Ui W A → (A → Ui W B) → Ui W B
  unfolding value_of leave_with ask state do_ change
  ◌>>=◌ m f s = let (r, s') = m s in go_on r f s'

  abbrev pub ◌>>◌ : Ui W A → Ui W B → Ui W B
  m >> k = m >>= λ _. k

module _ {W A : Type 0} (front : Front W) where
  -- `pam_fail!`, which aborts whatever code it is given.
  unfoldable pub pam_fail : String → PamResultCode → Ui W A
  pam_fail msg ret = do
    do_ (
        front.print_text (
          append (code_text ret) (
            append ": " (
              append msg
                " \nIf you are now prompted for a password from pam_unix, please disregard the prompt, go back and try again."))))
    do_ (front.sleep 2)
    leave_with (PamWhatNext.finish PamResultCode.pam_abort)

module _ {W : Type 0} (front : Front W) where
  abbrev pub or_fail : String → Option String → Ui W String
  or_fail missing (some cred) = value_of cred
  or_fail missing none = pam_fail front missing PamResultCode.pam_cred_insufficient

  -- A prompt; without an answer the handler fails.
  unfoldable pub prompt : String → String → Ui W String
  unfolding pam_fail
  prompt text missing = do answer ← ask (front.prompt_echo_off text); or_fail missing answer

-- ===== src/Pam/Sample.antt =====
-- A client for the runs in the Tests modules beside the code of src/common/src/auth.rs: the daemon gives
-- the same answer to every request, and the user the same answer to every question.
use himmelblau.Common.{false, String, none, some, ok, err}
use himmelblau.Proto.{PamAuthResponse, ClientRequest, ClientResponse, PamResultCode}
use himmelblau.Pin.{Policies}
use himmelblau.Pam.{pos, BluetoothState, Config, Front, AuthenticateState}

abbrev pub no_policies : Policies
no_policies key = none

-- The world is the user's answer to every question.
abbrev pub front : PamAuthResponse → Front String
front resp = record {
  call_and_wait = λ req timeout w. (ok (ClientResponse.pam_authenticate_step_response resp), w);
  print_text = λ text w. w;
  prompt_echo_off = λ text w. (some w, w);
  sleep = λ n w. w;
  check_bluetooth = λ w. (BluetoothState.powered_on, w);
  fido_auth = λ challenge allowed timeout text presence w. (err PamResultCode.pam_auth_err, w);
  fido_auth_with_qr_bluetooth =
      λ challenge allowed timeout text presence qr w. (err PamResultCode.pam_auth_err, w);
  fido_auth_qr_bluetooth_only = λ challenge allowed qr w. (err PamResultCode.pam_auth_err, w);
  policy_cache = λ w. (ok no_policies, w);
  first_url = λ text. none;
  encode_text = λ text. err tt;
  totp_captures = λ url. none;
  urldecode = λ text. ok text;
  to_text = λ n. "many";
}

abbrev pub config : Config
config = record {
  oidc_issuer_url = none;
  entra_id_password_prompt = "";
  hello_pin_prompt = "";
  hello_pin_min_length = 6;
  fido_timeout = 30;
  fido_prompt = "";
  fido_presence_prompt = "";
  qr_bluetooth_prompt = "";
  unix_sock_timeout = 10;
}

abbrev pub start : String → AuthenticateState String
start answer = record {
  authtok = some "secret";
  cfg = config;
  account_id = "alice";
  service = "login";
  opts = record {
    ignore_unknown_user = false;
    mfa_poll_prompt = false;
    no_hello_pin = false;
    force_reauth = false;
  };
  poll_attempt = pos 0;
  polling_interval = 2;
  world = answer;
}

abbrev pub first : ClientRequest
first = ClientRequest.pam_authenticate_init "alice" "login" false false

-- ===== src/Pam/Fido.antt =====
-- The handler of a FIDO challenge in src/common/src/auth.rs.
pub mod Safe
use himmelblau.Common.{
  ℕ, zero, suc, ◌-◌, ◌*◌, ◌^◌, Bool, true, false, not, ◌&&◌, ◌||◌, String, List, Result, ok, err,
  ltb, if◌then◌else◌,
}
use himmelblau.Proto.{PamAuthRequest, ClientRequest, PamResultCode}
use himmelblau.Pam.{
  BluetoothState, Config, Front, AuthenticateState, PamWhatNext, Exit, Ui, value_of, ask, state,
  do_, ◌>>=◌, ◌>>◌, pam_fail,
}
use himmelblau.Pam.Texts.{contains}

abbrev is_on : BluetoothState → Bool
is_on BluetoothState.powered_on = true
is_on state = false

abbrev is_off : BluetoothState → Bool
is_off BluetoothState.powered_off = true
is_off state = false

-- `saturating_mul(1000)` on u64
saturating_mul : ℕ → ℕ
saturating_mul n = if ltb (n * 1000) (2 ^ 64) then n * 1000 else 2 ^ 64 - 1

module _ {W : Type 0} (front : Front W) where
  open front use {print_text, sleep, check_bluetooth}

  -- `for _ in 0..n`: wait until Bluetooth is on.
  wait_bluetooth : ℕ → Ui W Bool
  wait_bluetooth zero = value_of false
  wait_bluetooth (suc n) = do
    do_ (sleep 1)
    bt ← ask check_bluetooth
    if is_on bt then value_of true else wait_bluetooth n

  -- Whether a phone can be used after all, when there is no key and Bluetooth is not on.
  second_chance : Bool → Ui W Bool
  unfolding wait_bluetooth
  second_chance false = value_of false
  second_chance true = do
    do_ (print_text "Enable Bluetooth to sign in with your phone.")
    wait_bluetooth 30

  finish_fido : String → Result String PamResultCode → Ui W PamWhatNext
  unfolding pam_fail
  finish_fido msg (ok assertion) =
      value_of
        (PamWhatNext.next (ClientRequest.pam_authenticate_step (PamAuthRequest.fido assertion)))
  finish_fido msg (err e) = pam_fail front msg e

  with_hardware : String → List String → Bool → Bool → Bool → Ui W PamWhatNext
  unfolding finish_fido saturating_mul
  with_hardware challenge allowed key phone graphical = do
    cfg ← state (λ s. s.cfg)
    let timeout = saturating_mul cfg.fido_timeout
    if key && (phone && graphical)
        then (do
          r ← ask (
              front.fido_auth_with_qr_bluetooth challenge allowed timeout cfg.fido_prompt
                cfg.fido_presence_prompt cfg.qr_bluetooth_prompt)
          finish_fido "Security key and QR/Bluetooth authentication failed." r)
        else if phone && graphical
        then (do
          r ← ask (front.fido_auth_qr_bluetooth_only challenge allowed cfg.qr_bluetooth_prompt)
          finish_fido "QR/Bluetooth authentication failed." r)
        else (do
          r ←
              ask
                (front.fido_auth challenge allowed timeout cfg.fido_prompt cfg.fido_presence_prompt)
          finish_fido "Security key authentication failed." r)

  pub handle_pam_auth_response_fido : String → List String → Bool → Bool → Ui W PamWhatNext
  unfolding contains second_chance with_hardware
  handle_pam_auth_response_fido challenge allowed key cross_device = do
    graphical ← state (λ s. contains s.service "gdm")
    bt ← ask check_bluetooth
    let phone = cross_device && is_on bt
    if not key && not phone
        then (do
          phone' ← second_chance (cross_device && (is_off bt && graphical))
          if phone'
              then with_hardware challenge allowed key phone' graphical
              else value_of (
                  PamWhatNext.next
                    (ClientRequest.pam_authenticate_step PamAuthRequest.fido_unavailable)))
        else with_hardware challenge allowed key phone graphical

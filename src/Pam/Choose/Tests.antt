-- ===== src/Pam/Choose/Tests.antt =====
-- Runs of the choice of a PIN, src/common/src/auth.rs.
use himmelblau.Common.{◌≡◌, refl}
use himmelblau.Proto.{PamAuthResponse}
use himmelblau.Pin.{is_simple_pin, meets_intune_pin_policy}
use himmelblau.Pam.{Exit, ◌>>=◌}
use himmelblau.Pam.Choose.{Round, pin_round, handle_pam_auth_response_setup_pin}
use himmelblau.Pam.Choose.Accepted.{Accepted, enrolls, handle_pam_auth_response_setup_pin-Accepted}
use himmelblau.Pam.Sample.{front, start}

enrolls_it :
    (handle_pam_auth_response_setup_pin (front PamAuthResponse.pin) 1 "New PIN" (start "271828")).0
    ≡ Exit.value (enrolls (front PamAuthResponse.pin) "271828")
unfolding handle_pam_auth_response_setup_pin is_simple_pin meets_intune_pin_policy ◌>>=◌
enrolls_it = refl

handle_pam_auth_response_setup_pin-Accepted_example :
    Accepted (front PamAuthResponse.pin) 6 "271828"
handle_pam_auth_response_setup_pin-Accepted_example =
    handle_pam_auth_response_setup_pin-Accepted (front PamAuthResponse.pin) 1 "New PIN" "271828"
      (start "271828") enrolls_it

chooses_it :
    (pin_round (front PamAuthResponse.pin) "New PIN" (start "271828")).0
    ≡ Exit.value (Round.chosen "271828")
unfolding pin_round is_simple_pin meets_intune_pin_policy ◌>>=◌
chooses_it = refl

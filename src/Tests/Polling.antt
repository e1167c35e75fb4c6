-- ===== src/Tests/Polling.antt =====
-- Screening, polling and the power operations on the controller in memory.
use airshipctl.Base.{ℕ, rounds_through, none, some, ◌≡◌, refl, suc, zero}
use airshipctl.Redfish.Types.{Response, state_on, state_off, reset_on, reset_force_off}
use airshipctl.Redfish.Errors.{screen}
use airshipctl.Redfish.Errors.Screening.{Succeeded, screen-eq-ok}
use airshipctl.Redfish.Client.{wait_for_power_state, reboot_system, screened}
use airshipctl.Redfish.Client.Waiting.{Found, wait_for_power_state-eq-ok, polled}
use airshipctl.Redfish.Client.Power.{Reaches, reboot_system-eq-ok}
use airshipctl.Redfish.Ids.{set_auth}
use airshipctl.Tests.Bmc.{Bmc, bmc, client, no_auth, running, stopped}

abbrev no_content : Response
no_content = record { status_code = 204; status = "204 No Content" }

screen-eq-ok_example : Succeeded (some no_content)
unfolding screen
screen-eq-ok_example = (screen-eq-ok bmc (some no_content) none).0 refl

wait_for_power_state-eq-ok_example :
    Found bmc client no_auth state_on (rounds_through client.system_action_retries) running running
unfolding wait_for_power_state screen
wait_for_power_state-eq-ok_example =
    (wait_for_power_state-eq-ok bmc client no_auth state_on running running).0 refl

stays_stopped : (j : ℕ) → polled bmc client no_auth state_on j stopped ≡ stopped
unfolding screened screen
stays_stopped zero = refl
stays_stopped (suc j) = stays_stopped j

reboot_system-eq-ok_example :
    (w₁ : Bmc) × Reaches bmc client (set_auth "" "" no_auth) reset_force_off state_off running w₁
    × Reaches bmc client (set_auth "" "" no_auth) reset_on state_on w₁ running
unfolding reboot_system screen
reboot_system-eq-ok_example = (reboot_system-eq-ok bmc client no_auth running running).0 refl

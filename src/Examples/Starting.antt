-- ===== src/Examples/Starting.antt =====
-- The environment and the settings read from it, at concrete inputs.
use borgo.Common.{ℕ, ◌≡◌, refl, true, false, List, [], ◌∷◌, ◌++◌, none, some, if◌then◌else◌}
use borgo.Text.{Text, codes, ◌===◌, trim, listed, has_prefix, replace_all, contains}
use borgo.Result.{value, thrown}
use borgo.Params.{Params, get, put}
use borgo.Body.{is_number, decimal, replicate}
use borgo.Settings.{
  Env, Numeric, whole, other_number, bare_word, control_character, not_a_switch, not_a_whole_number,
  env_text, boolish, switch_of, env_bool, whole_number_of, env_int, env_flag, settled,
  with_start_env, start_needs_reexec,
}
use borgo.Settings.Start.{start_needs_reexec-with_start_env}
use borgo.Settings.Security.{
  Security, off, policy, csp_setting, csp_of, policy_of, looks_like_a_policy, create_security,
  security_of, template_of, csp_for, needs_nonce, apply_security, apply_csp, set_all_missing,
  set_missing, is_document, csp_default,
}
use borgo.Settings.Security.Headers.{IsSecured, apply_security-IsSecured}
use borgo.Settings.Topology.{
  FrontTopology, front_topology, boot_key, mint_internal_key, named_render_port, checked_port,
  decimal_text, render_switches, resolve_switches, Switches, with_render_env, with_go_front_env,
  without_render_env,
}
use borgo.Settings.Topology.Decimal.{ReadsDigits}
use borgo.Settings.Topology.Agree.{Agrees, front_topology-Agrees}
use borgo.Settings.Defaults.{IsBootable, resolve_switches-IsBootable}

starting : Unit {0}
unfolding ◌===◌ trim listed has_prefix replace_all contains get put decimal env_text boolish
    switch_of env_bool whole_number_of env_int env_flag settled with_start_env start_needs_reexec
    csp_setting csp_of policy_of looks_like_a_policy create_security security_of template_of csp_for
    needs_nonce apply_security apply_csp set_all_missing set_missing is_document front_topology
    boot_key mint_internal_key named_render_port checked_port decimal_text render_switches
    resolve_switches with_render_env with_go_front_env without_render_env replicate
starting = tt

-- digits, and nothing else
abbrev number : Text → Numeric
number s = if is_number s then whole (decimal 0 s) else other_number

number-ReadsDigits : ReadsDigits number
unfolding ReadsDigits
number-ReadsDigits s digits h = rw digits refl

reader_tests :
    (env_bool [] (some (codes "True")) ≡ value (some true))
    × (env_bool [] (some (codes "yes")) ≡ thrown (not_a_switch [] (codes "yes")))
    × (env_bool [] (some (49 ∷ 13 ∷ [])) ≡ thrown (control_character [] (49 ∷ 13 ∷ [])))
    × (env_int number [] (some (codes " ")) ≡ thrown (not_a_whole_number [] (codes " ")))
    × (env_int number [] (some (codes "0")) ≡ value (some 0))
    × (env_int number [] (some []) ≡ value none)
unfolding starting
reader_tests = (refl, refl, refl, refl, refl, refl)

csp_tests :
    (csp_setting (λ v. false) (some (codes "0")) ≡ value off)
    × (csp_setting (λ v. false) (some (codes "false;")) ≡ thrown (bare_word (codes "false;")))
    × (csp_setting (λ v. false) (some (codes "sandbox")) ≡ thrown (bare_word (codes "sandbox")))
    × (csp_setting (λ v. false) (some (codes "sandbox;")) ≡ value (policy (codes "sandbox;")))
    × (csp_for (record { enabled = true; template = codes "a{nonce};b{nonce}" }) (codes "x")
        ≡ codes "a 'nonce-x';b 'nonce-x'")
unfolding starting
csp_tests = (refl, refl, refl, refl, refl)

blank_mode : Env
blank_mode = (codes "NODE_ENV", codes "  ") ∷ []

start_needs_reexec-with_start_env_example :
    start_needs_reexec
      (put (codes "BORGO_SUPERVISOR_PID") (codes "7") (with_start_env blank_mode blank_mode))
    ≡ false
start_needs_reexec-with_start_env_example = start_needs_reexec-with_start_env blank_mode (codes "7")

abbrev html : Params
html =
    (codes "content-type", codes "TEXT/html") ∷ (codes "x-frame-options", codes "SAMEORIGIN") ∷ []

abbrev default_security : Security
default_security = record { enabled = true; template = csp_default }

apply_security-IsSecured_example :
    IsSecured default_security html (apply_security default_security html)
apply_security-IsSecured_example = apply_security-IsSecured default_security html

abbrev operator_env : Env
operator_env =
    (codes "BORGO_RENDER_PORT", codes "4100")
    ∷ (codes "BORGO_INTERNAL_KEY", codes "short")
    ∷ (codes "BORGO_CSP", codes "f")
    ∷ []

abbrev random : List ℕ
random = replicate 32 0

abbrev topology : FrontTopology
topology = record {
  public_port = 3000;
  api_port = 3501;
  render_port = 4100;
  key = replicate 64 b'0';
}

topology_made : front_topology number random operator_env ≡ value topology
unfolding starting
topology_made = refl

front_topology-Agrees_example :
    Agrees number topology
      (with_render_env topology blank_mode)
      (with_go_front_env topology (without_render_env operator_env))
unfolding replicate
front_topology-Agrees_example =
    front_topology-Agrees number random operator_env blank_mode operator_env number-ReadsDigits refl
      topology_made

abbrev operator_switches : Switches
operator_switches = record {
  dev = false;
  security = some (record { enabled = false; template = csp_default ++ codes "{nonce}" });
  csrf_enforced = true;
  csrf_cookie_attrs = codes "Path=/; SameSite=Lax";
  reloading = false;
  max_body = 33554432;
  of_render = record { render = false; internal_key = codes "short"; render_port = 4100 };
}

switches_resolved :
    resolve_switches number (λ v. false) false operator_env ≡ value operator_switches
unfolding starting
switches_resolved = refl

resolve_switches-IsBootable_example : IsBootable number false operator_env operator_switches
resolve_switches-IsBootable_example =
    resolve_switches-IsBootable number (λ v. false) false operator_env switches_resolved

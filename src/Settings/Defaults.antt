-- ===== src/Settings/Defaults.antt =====
-- What the switches of a process that boots can be.
use borgo.Common.{
  ◌≡◌, ◌≢◌, ◌≤◌, refl, ap, subst, sym, ◌∙◌, Bool, true, false, ◌&&◌, ℕ, Option, none, some,
  if◌then◌else◌, Bool-cases, inl, inr, arith, some-eq, length, ltb,
}
use borgo.Text.{Text, codes, or_empty}
use borgo.Result.{◌>>=◌, value, value-eq, >>=-value}
use borgo.Params.{get}
use borgo.Settings.{
  Env, SettingError, no_internal_key, no_render_port, boolish, env_bool, Numeric, whole, env_int,
  env_flag, or_else, env_text, csrf_enabled, session_secure, reload_banner,
}
use borgo.Settings.Readers.{
  env_text-some, env_bool-IsSetFalse, env_flag-IsSetFalse, env_int-some, IsSetFalse, boolish-false,
}
use borgo.Settings.Security.{
  Security, Csp, off, own, policy, policy_of, csp_of, csp_setting, security_of, is_on, is_off,
  create_security,
}
use borgo.Settings.Topology.{
  RenderSwitches, Switches, render_switches, resolve_switches, render_variable, key_variable,
  internal_key_min_len, named_render_port, refuse_if, is_none, max_body_bytes,
}
use borgo.Settings.Topology.Agree.{named_render_port-range}

csp_of-off :
    (headers_refuses : Text → Bool) (o : Option Text)
    → csp_of headers_refuses o ≡ value off
    → (v : Text) × (o ≡ some v) × (boolish v ≡ some false)
unfolding csp_of policy_of
csp_of-off refuses none e = cc
csp_of-off refuses (some v) e = (v, refl, ground arith)

csp_setting-off :
    (headers_refuses : Text → Bool) (env : Env)
    → csp_setting headers_refuses (get (codes "BORGO_CSP") env) ≡ value off
    → IsSetFalse (codes "BORGO_CSP") env
unfolding csp_setting IsSetFalse
csp_setting-off refuses env e =
    let (text, read, parsed) =
      >>=-value (env_text (codes "BORGO_CSP") (get (codes "BORGO_CSP") env)) (csp_of refuses) e in
    let (v, is_v, spelled) = csp_of-off refuses text parsed in
    (v, (env_text-some _ _ (read ∙ ap value is_v)).0, boolish-false v spelled)

-- The header switches fail towards on.
pub record KeepsHeaders (env : Env) (security : Option Security) : Type 0 where
  pub all_headers : security ≡ none → IsSetFalse (codes "BORGO_SECURITY_HEADERS") env
  pub the_csp :
      (s : Security) → security ≡ some s → s.enabled ≡ false → IsSetFalse (codes "BORGO_CSP") env

is_on-false : (csp : Csp) → is_on csp ≡ false → csp ≡ off
is_on-false off h = refl
is_on-false own h = cc
is_on-false (policy raw) h = cc

is_off-some : (o : Option Bool) → is_off o ≡ true → o ≡ some false
is_off-some none h = cc
is_off-some (some true) h = cc
is_off-some (some false) h = refl

none-not-some : {s : Security} → ◌≢◌ {A = Option Security} none (some s)
none-not-some e = cc

after_switch :
    (headers_refuses : Text → Bool) (dev : Bool) (env : Env) (asked : Option Bool)
    {security : Option Security}
    → env_bool (codes "BORGO_SECURITY_HEADERS") (get (codes "BORGO_SECURITY_HEADERS") env)
      ≡ value asked
    → (if is_off asked
        then value none
        else csp_setting headers_refuses (get (codes "BORGO_CSP") env)
          >>= (λ found. value (some (security_of dev found))))
      ≡ value security
    → KeepsHeaders env security
unfolding security_of
after_switch refuses dev env asked read e = elim (Bool-cases (is_off asked)) [
  | inl dropped ↦
      let set =
        env_bool-IsSetFalse (codes "BORGO_SECURITY_HEADERS") env
          (read ∙ ap value (is_off-some asked dropped)) in
      subst (KeepsHeaders env) (value-eq (rw dropped at e))
        (record { all_headers = λ _. set; the_csp = λ s same. absurd (none-not-some same) })
  | inr kept ↦
      let (csp, found, made) =
        >>=-value (csp_setting refuses (get (codes "BORGO_CSP") env))
          (λ found. value (some (security_of dev found))) (rw kept at e) in
      subst (KeepsHeaders env) (value-eq made) (record {
        all_headers = λ same. absurd (none-not-some (sym same));
        the_csp = λ s same drops. csp_setting-off refuses env (
            found
            ∙ ap value (is_on-false csp (ap (λ (u : Security). u.enabled) (some-eq same) ∙ drops)));
      })
]

create_security-KeepsHeaders :
    (headers_refuses : Text → Bool) (dev : Bool) (env : Env) {security : Option Security}
    → create_security headers_refuses dev
        (get (codes "BORGO_SECURITY_HEADERS") env)
        (get (codes "BORGO_CSP") env)
      ≡ value security
    → KeepsHeaders env security
unfolding create_security
create_security-KeepsHeaders refuses dev env e =
    let (asked, read, e1) =
      >>=-value
        (env_bool (codes "BORGO_SECURITY_HEADERS") (get (codes "BORGO_SECURITY_HEADERS") env)) _
        e in
    after_switch refuses dev env asked read e1

-- What holds of the switches that a process boots with.
pub record IsBootable (number : Text → Numeric) (dev : Bool) (env : Env) (s : Switches)
    : Type 0 where
  pub headers : KeepsHeaders env s.security
  pub csrf : dev ≡ false → s.csrf_enforced ≡ false → IsSetFalse (codes "BORGO_CSRF") env
  pub no_limit :
      s.max_body ≡ 0
      → (v : Text) × (get (codes "BORGO_MAX_BODY") env ≡ some v) × (number v ≡ whole 0)
  pub key : s.of_render.render ≡ true → 32 ≤ length s.of_render.internal_key
  pub port :
      s.of_render.render ≡ true → (1 ≤ s.of_render.render_port) × (s.of_render.render_port ≤ 65535)

refuse_if-false :
    (test : Bool) (why : SettingError) {u : Unit {0}} → refuse_if test why ≡ value u → test ≡ false
refuse_if-false true why e = cc
refuse_if-false false why e = refl

switches_made :
    (key : Text) (render : Bool) (port : Option ℕ) {r : RenderSwitches}
    → (render && ltb (length key) internal_key_min_len) ≡ false
    → (render && is_none port) ≡ false
    → ((n : ℕ) → port ≡ some n → (1 ≤ n) × (n ≤ 65535))
    → record { render = render; internal_key = key; render_port = or_else port 0 } ≡ r
    → r.render ≡ true
    → (32 ≤ length r.internal_key) × (1 ≤ r.render_port) × (r.render_port ≤ 65535)
switches_made key true (some port) long given range e on =
    subst
      (λ (q : RenderSwitches).
        (32 ≤ length q.internal_key) × (1 ≤ q.render_port) × (q.render_port ≤ 65535))
      e (ground arith, (range port refl).0, (range port refl).1)
switches_made key true none long given range e on = cc
switches_made key false port long given range e on = cc (ap (λ (q : RenderSwitches). q.render) e)

csrf_enabled-IsSetFalse :
    (dev : Bool) (env : Env) (enforced : Bool)
    → csrf_enabled dev env ≡ value enforced
    → dev ≡ false
    → enforced ≡ false
    → IsSetFalse (codes "BORGO_CSRF") env
csrf_enabled-IsSetFalse false env enforced e _ disarmed =
    env_flag-IsSetFalse (codes "BORGO_CSRF") env (e ∙ ap value disarmed)
csrf_enabled-IsSetFalse true env enforced e production disarmed = cc

module _ (number : Text → Numeric) where
  max_body-no_limit :
      (env : Env) (max_body : Option ℕ)
      → env_int number (codes "BORGO_MAX_BODY") (get (codes "BORGO_MAX_BODY") env) ≡ value max_body
      → or_else max_body max_body_bytes ≡ 0
      → (v : Text) × (get (codes "BORGO_MAX_BODY") env ≡ some v) × (number v ≡ whole 0)
  max_body-no_limit env none e h = absurd (omega arith)
  max_body-no_limit env (some n) e h =
      env_int-some number (codes "BORGO_MAX_BODY") (get (codes "BORGO_MAX_BODY") env)
        (e ∙ ap (λ k. value (some k)) h)

  render_switches-usable :
      (env : Env) {r : RenderSwitches}
      → render_switches number env ≡ value r
      → r.render ≡ true
      → (32 ≤ length r.internal_key) × (1 ≤ r.render_port) × (r.render_port ≤ 65535)
  unfolding render_switches
  render_switches-usable env e on =
      let (render, _, e1) = >>=-value (env_flag render_variable false env) _ e in
      let key = or_empty (get key_variable env) in
      let (_, long, e2) =
        >>=-value (refuse_if (render && ltb (length key) internal_key_min_len) no_internal_key) _
          e1 in
      let (port, named, e3) = >>=-value (named_render_port number env) _ e2 in
      let (_, given, e4) = >>=-value (refuse_if (render && is_none port) no_render_port) _ e3 in
      switches_made key render port (refuse_if-false _ no_internal_key long)
        (refuse_if-false _ no_render_port given)
        (λ n same. named_render_port-range number env (named ∙ ap value same)) (value-eq e4) on

  -- Whatever a process is configured by, if it boots: a header switch is off, or the token check in
  -- production, only by an explicit spelling of false, the limit on bodies only by an explicit 0, and
  -- a render service has a key of at least 32 code units and a port.
  pub resolve_switches-IsBootable :
      (headers_refuses : Text → Bool) (dev : Bool) (env : Env) {s : Switches}
      → resolve_switches number headers_refuses dev env ≡ value s
      → IsBootable number dev env s
  unfolding resolve_switches
  resolve_switches-IsBootable refuses dev env e =
      let (security, r0, e0) =
        >>=-value
          (create_security refuses dev (get (codes "BORGO_SECURITY_HEADERS") env)
            (get (codes "BORGO_CSP") env))
          _ e in
      let (csrf_enforced, r1, e1) = >>=-value (csrf_enabled dev env) _ e0 in
      let (secure, r2, e2) = >>=-value (session_secure env) _ e1 in
      let (reloading, r3, e3) = >>=-value (reload_banner env) _ e2 in
      let (max_body, r4, e4) =
        >>=-value (env_int number (codes "BORGO_MAX_BODY") (get (codes "BORGO_MAX_BODY") env)) _
          e3 in
      let (of_render, r5, e5) = >>=-value (render_switches number env) _ e4 in
      subst (IsBootable number dev env) (value-eq e5) (record {
        headers = create_security-KeepsHeaders refuses dev env r0;
        csrf = csrf_enabled-IsSetFalse dev env csrf_enforced r1;
        no_limit = max_body-no_limit env max_body r4;
        key = λ on. (render_switches-usable env r5 on).0;
        port =
            λ on. let (_, lowest, highest) = render_switches-usable env r5 on in (lowest, highest);
      })

-- ===== src/Settings/Topology/Agree.antt =====
-- The two halves that are started from one topology agree.
use borgo.Common.{
  ℕ, ◌*◌, ◌≤◌, ◌<◌, ◌≡◌, refl, ◌∙◌, ap, sym, subst, true, false, ◌||◌, List, [], ◌∷◌, ◌++◌, length,
  if◌then◌else◌, ltb, arith, Option, none, some,
}
use borgo.Text.{listed, Text, codes, ◌===◌, ===_iff}
use borgo.Result.{value, value-eq, >>=-value}
use borgo.Params.{get, get-put}
use borgo.Settings.{
  Env, SettingError, unresolved_render_port, Numeric, env_int, env_bool, env_flag, env_text,
  switch_of, boolish,
}
use borgo.Settings.Topology.{
  internal_key_min_len, render_port_variable, key_variable, render_variable, decimal_text,
  mint_internal_key, checked_port, named_render_port, FrontTopology, boot_key, front_topology,
  required, render_switches, with_render_env, with_go_front_env, without_render_env, without_two,
}
use borgo.Settings.Topology.Decimal.{ReadsDigits, env_int-decimal_text}

-- A topology that a process can be started with.
pub record IsUsable (t : FrontTopology) : Type 0 where
  pub lowest : 1 ≤ t.render_port
  pub highest : t.render_port ≤ 65535
  pub long_key : 32 ≤ length t.key

length-mint_internal_key : (random : List ℕ) → length (mint_internal_key random) ≡ 2 * length random
unfolding mint_internal_key
length-mint_internal_key [] = refl
length-mint_internal_key (b ∷ random) = omega (arith, length-mint_internal_key random)

length-boot_key :
    (random : List ℕ) (env : Env) → length random ≡ 32 → 32 ≤ length (boot_key random env)
unfolding boot_key
length-boot_key random env h = ground (arith, length-mint_internal_key random)

checked_port-range :
    (port : Option ℕ) {n : ℕ} → checked_port port ≡ value (some n) → (1 ≤ n) × (n ≤ 65535)
unfolding checked_port
checked_port-range none e = cc
checked_port-range (some port) e = ground arith

required-some :
    {A : Type 0} (why : SettingError) (o : Option A) {a : A} → required why o ≡ value a → o ≡ some a
required-some why none e = cc
required-some why (some a) e = ap some (value-eq e)

get-without_two :
    (a b name : Text) (env : Env)
    → get name (without_two a b env) ≡ (if name === a || name === b then none else get name env)
unfolding without_two get
get-without_two a b name [] = ground arith
get-without_two a b name ((k, v) ∷ env) = ground (
  arith,
  get-without_two a b name env,
  ===_iff k a,
  ===_iff k b,
  ===_iff k name,
  ===_iff name a,
  ===_iff name b,
)

module _ (t : FrontTopology) (env : Env) where
  get-render_variable : get render_variable (with_render_env t env) ≡ some (codes "1")
  unfolding with_render_env ◌===◌
  get-render_variable = simp get-put

  get-key_variable : get key_variable (with_render_env t env) ≡ some t.key
  unfolding with_render_env ◌===◌
  get-key_variable = simp get-put

  get-render_port_variable :
      get render_port_variable (with_render_env t env) ≡ some (decimal_text t.render_port)
  unfolding with_render_env ◌===◌
  get-render_port_variable = simp get-put

  get-api_port : get (codes "API_PORT") (with_render_env t env) ≡ some (decimal_text t.api_port)
  unfolding with_render_env ◌===◌
  get-api_port = simp get-put

  front-key : get key_variable (with_go_front_env t env) ≡ some t.key
  unfolding with_go_front_env ◌===◌
  front-key = simp get-put

  front-url :
      get (codes "BORGO_RENDER_URL") (with_go_front_env t env)
      ≡ some (codes "http://127.0.0.1:" ++ decimal_text t.render_port)
  unfolding with_go_front_env ◌===◌
  front-url = simp get-put

  front-api : get (codes "API_PORT") (with_go_front_env t env) ≡ some (decimal_text t.api_port)
  unfolding with_go_front_env ◌===◌
  front-api = simp get-put

  front-render : get render_variable (with_go_front_env t (without_render_env env)) ≡ none
  unfolding with_go_front_env ◌===◌ without_render_env
  front-render = simp (get-put, get-without_two)

  front-render_port : get render_port_variable (with_go_front_env t (without_render_env env)) ≡ none
  unfolding with_go_front_env ◌===◌ without_render_env
  front-render_port = simp (get-put, get-without_two)

  env_flag-with_render_env : env_flag render_variable false (with_render_env t env) ≡ value true
  unfolding env_flag env_bool env_text switch_of boolish ◌===◌ listed
  env_flag-with_render_env = rw get-render_variable refl

checked_port-usable :
    (t : FrontTopology)
    → IsUsable t
    → checked_port (some t.render_port) ≡ value (some t.render_port)
unfolding checked_port
checked_port-usable t usable = ground arith

long_enough : (t : FrontTopology) → IsUsable t → ltb (length t.key) internal_key_min_len ≡ false
long_enough t usable = ground arith

module _ (number : Text → Numeric) where
  pub named_render_port-range :
      (env : Env) {n : ℕ} → named_render_port number env ≡ value (some n) → (1 ≤ n) × (n ≤ 65535)
  unfolding named_render_port
  named_render_port-range env e =
      let (port, _, checked) =
        >>=-value (env_int number render_port_variable (get render_port_variable env)) checked_port
          e in
      checked_port-range port checked

  front_topology-IsUsable :
      (random : List ℕ) (env : Env) {t : FrontTopology}
      → front_topology number random env ≡ value t
      → length random ≡ 32
      → IsUsable t
  unfolding front_topology
  front_topology-IsUsable random env e h =
      let (public_port, _, e1) =
        >>=-value (env_int number (codes "PORT") (get (codes "PORT") env)) _ e in
      let (api_port, _, e2) =
        >>=-value (env_int number (codes "API_PORT") (get (codes "API_PORT") env)) _ e1 in
      let (named, found, e3) = >>=-value (named_render_port number env) _ e2 in
      let (port, is_named, e4) = >>=-value (required unresolved_render_port named) _ e3 in
      let (lowest, highest) =
        named_render_port-range env
          (found ∙ ap value (required-some unresolved_render_port named is_named)) in
      subst IsUsable (value-eq e4)
        (record { lowest = lowest; highest = highest; long_key = length-boot_key random env h })

  -- What the two processes started from a topology read: the render service the topology's key and
  -- port, the front the same key, the service's address and the same api port, and neither the
  -- other's switches.
  pub record Agrees (t : FrontTopology) (render_env front_env : Env) : Type 0 where
    pub switches :
        render_switches number render_env
        ≡ value (record { render = true; internal_key = t.key; render_port = t.render_port })
    pub front_key : get key_variable front_env ≡ some t.key
    pub front_url :
        get (codes "BORGO_RENDER_URL") front_env
        ≡ some (codes "http://127.0.0.1:" ++ decimal_text t.render_port)
    pub same_api : get (codes "API_PORT") render_env ≡ get (codes "API_PORT") front_env
    pub front_only :
        (get render_variable front_env ≡ none) × (get render_port_variable front_env ≡ none)

  named_render_port-with_render_env :
      (t : FrontTopology) (env : Env)
      → IsUsable t
      → ReadsDigits number
      → named_render_port number (with_render_env t env) ≡ value (some t.render_port)
  unfolding named_render_port
  named_render_port-with_render_env t env usable reads =
      let h : t.render_port < 9007199254740992 = omega arith in
      rw
        (
          get-render_port_variable t env,
          env_int-decimal_text number render_port_variable t.render_port reads h,
        )
        (checked_port-usable t usable)

  render_switches-with_render_env :
      (t : FrontTopology) (env : Env)
      → IsUsable t
      → ReadsDigits number
      → render_switches number (with_render_env t env)
        ≡ value (record { render = true; internal_key = t.key; render_port = t.render_port })
  unfolding render_switches
  render_switches-with_render_env t env usable reads =
      rw
        (
          env_flag-with_render_env t env,
          get-key_variable t env,
          named_render_port-with_render_env t env usable reads,
          long_enough t usable,
        )
        refl

  -- From any two environments, the environments made for the two halves of a topology that
  -- `frontTopology` gives agree, given that `Number` reads digits and that 32 random bytes were drawn.
  pub front_topology-Agrees :
      (random : List ℕ) (env render_env front_env : Env) {t : FrontTopology}
      → ReadsDigits number
      → length random ≡ 32
      → front_topology number random env ≡ value t
      → Agrees t (with_render_env t render_env) (with_go_front_env t (without_render_env front_env))
  front_topology-Agrees random env render_env front_env {t} reads h e = record {
    switches =
        render_switches-with_render_env t render_env (front_topology-IsUsable random env e h) reads;
    front_key = front-key t (without_render_env front_env);
    front_url = front-url t (without_render_env front_env);
    same_api = get-api_port t render_env ∙ sym (front-api t (without_render_env front_env));
    front_only = (front-render t front_env, front-render_port t front_env);
  }

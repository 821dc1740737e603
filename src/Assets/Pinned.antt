-- ===== src/Assets/Pinned.antt =====
-- Which answers may be kept for a year.
use borgo.Common.{
  ℕ, ◌≡◌, ◌≢◌, sym, ap₂, suc, ◌==◌, if◌then◌else◌, Bool, true, false, ◌&&◌, ◌||◌, not, [], ◌∷◌,
  ◌++◌, Option, none, some, is_empty, length, drop, Bool-cases, inl, inr, arith, ==_iff,
}
use borgo.Text.{Text, codes, has_prefix, includes}
use borgo.Server.Reach.{none-not-some}
use borgo.Assets.{
  Stat, BuildOutputs, immutable, as_url, drop_slashes, is_service_worker, recorded_size,
  pinned_size_for, is_vouched, pin_policy,
}

-- A file that the build vouches for: it lies at the top of the directory that the build wrote, is
-- not a service worker, and has the length that the build recorded.
pub record IsPinned (outputs : BuildOutputs) (path : Text) (stat : Stat) : Type 0 where
  pub name : Text
  pub has_dir : is_empty (drop_slashes (as_url outputs.dir)) ≡ false
  pub at_top : as_url path ≡ drop_slashes (as_url outputs.dir) ++ (b'/' ∷ name)
  pub is_name : includes b'/' name ≡ false
  pub recorded : outputs.sizes name ≡ some stat.size
  pub no_worker : is_service_worker (as_url path) ≡ false

prefix-drop :
    (prefix s : Text)
    → has_prefix (prefix ++ (b'/' ∷ [])) s ≡ true
    → s ≡ prefix ++ (b'/' ∷ drop (suc (length prefix)) s)
unfolding has_prefix
prefix-drop [] [] h = cc
prefix-drop [] (c ∷ s) h = ground (arith, ==_iff b'/' c)
prefix-drop (x ∷ prefix) [] h = cc
prefix-drop (x ∷ prefix) (c ∷ s) h =
    let (same, rest) = first_same x c (has_prefix (prefix ++ (b'/' ∷ [])) s) h in
    ap₂ (λ (y : ℕ) (t : Text). y ∷ t) (sym same) (prefix-drop prefix s rest)
  where
    first_same : (x c : ℕ) (b : Bool) → (x == c && b) ≡ true → (x ≡ c) × (b ≡ true)
    first_same x c b e = ground arith

vouched-size :
    (pinned : Option ℕ) (size : ℕ) → is_vouched pinned (some size) ≡ true → pinned ≡ some size
unfolding is_vouched
vouched-size none size h = cc
vouched-size (some pinned) size h = ground arith

recorded_size-IsPinned :
    (outputs : BuildOutputs) (path : Text) (stat : Stat)
    → is_service_worker (as_url path) ≡ false
    → recorded_size path outputs ≡ some stat.size
    → IsPinned outputs path stat
unfolding recorded_size
recorded_size-IsPinned outputs path stat no_worker h =
    let dir = drop_slashes (as_url outputs.dir) in
    let url = as_url path in
    let name = drop (suc (length dir)) url in
    let (has_dir, inside, is_name, recorded) =
      facts (is_empty dir) (has_prefix (dir ++ codes "/") url) (is_empty name) (includes b'/' name)
        (outputs.sizes name) h in
    record {
      name = name;
      has_dir = has_dir;
      at_top = prefix-drop dir url inside;
      is_name = is_name;
      recorded = recorded;
      no_worker = no_worker;
    }
  where
    facts :
        (a b c d : Bool) (size : Option ℕ) {n : ℕ}
        → (if a || not b || c || d then none else size) ≡ some n
        → (a ≡ false) × (b ≡ true) × (d ≡ false) × (size ≡ some n)
    facts a b c d size h = ground arith

pub vouched-IsPinned :
    (outputs : BuildOutputs) (path : Text) (stat : Stat)
    → is_vouched (pinned_size_for path outputs) (some stat.size) ≡ true
    → IsPinned outputs path stat
unfolding pinned_size_for
vouched-IsPinned outputs path stat h = elim (Bool-cases (is_service_worker (as_url path))) [
  | inl worker ↦ absurd (none-not-some (rw worker at known))
  | inr no_worker ↦ recorded_size-IsPinned outputs path stat no_worker (rw no_worker at known)
]
  where
    known : pinned_size_for path outputs ≡ some stat.size
    known = vouched-size (pinned_size_for path outputs) stat.size h

pub pin_policy-immutable :
    (sent sent_size identity identity_size : Option ℕ)
    → some (pin_policy sent sent_size identity identity_size) ≡ some immutable
    → (is_vouched sent sent_size ≡ true) × (is_vouched identity identity_size ≡ true)
unfolding pin_policy
pin_policy-immutable sent sent_size identity identity_size h =
    elim (Bool-cases (is_vouched sent sent_size && is_vouched identity identity_size)) [
      | inl both ↦ ground arith
      | inr not_both ↦ absurd (not_immutable (rw not_both at h))
    ]
  where
    not_immutable : some (codes "no-cache") ≢ some immutable
    not_immutable e = cc

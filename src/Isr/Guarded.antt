-- ===== src/Isr/Guarded.antt =====
-- A page under the guard is never declared cacheable.
use mathlib.Core.List.{Memᴰ, not-mem-nil}
use borgo.Common.{
  ◌⊎◌, subst, ap, ◌≡◌, ◌∙◌, sym, inl, inr, Bool, true, false, List, [], ◌∷◌, Option, none, some,
  All, arith, Option-cases,
}
use borgo.Text.{Text}
use borgo.Result.{value}
use borgo.Params.{Params}
use borgo.Router.{match_pattern}
use borgo.Guard.{segments_of}
use borgo.Guard.Overlap.{IsPlain}
use borgo.Guard.Boot.{Exports, PageGuard, covers, guards_route, resolve}
use borgo.Guard.Boot.Routes.{covers-guards_route}
use borgo.Isr.{
  Platform, RouteLike, IsrPolicyEntry, Freshness, Warning, policy_entry, isr_policy_table,
}

mem-parts : {A : Type 0} {x y : A} {ys : List A} → Memᴰ x (y ∷ ys) → (x ≡ y) ⊎ Memᴰ x ys
mem-parts (Memᴰ.head e) = inl e
mem-parts (Memᴰ.tail m) = inr m

module _ (platform : Platform) where
  -- A route is declared cacheable only if its own policy says so and nothing guards its pattern.
  pub policy_entry-unguarded :
      (guarded : Text → Bool) (route : RouteLike platform) {fresh : Freshness platform}
      → (policy_entry platform guarded route).0.freshness ≡ some fresh
      → (guarded route.pattern ≡ false)
        × ((policy_entry platform guarded route).0.pattern ≡ route.pattern)
  unfolding policy_entry
  policy_entry-unguarded guarded route e = ground arith

  policy_entry-covers :
      {F : Type 0} (m : Exports F) (g : PageGuard F) (r : RouteLike platform) (p q : Text)
      {fresh : Freshness platform} {params : Params}
      → resolve (some m) ≡ value (some g)
      → r.pattern ≡ b'/' ∷ p
      → All IsPlain (segments_of (b'/' ∷ p))
      → (policy_entry platform (guards_route g) r).0.freshness ≡ some fresh
      → match_pattern (policy_entry platform (guards_route g) r).0.pattern (b'/' ∷ q) ≡ some params
      → covers g (b'/' ∷ q) ≡ none
  policy_entry-covers m g r p q {params = params} booted rooted plain cached matched =
      let (free, same) = policy_entry-unguarded (guards_route g) r cached in
      let at_route =
        subst (λ t. match_pattern t (b'/' ∷ q) ≡ some params) (same ∙ rooted) matched in
      elim (Option-cases (covers g (b'/' ∷ q))) [
        | inl none_covers ↦ none_covers
        | inr (found, covered) ↦
            let guarded = covers-guards_route m p q booted plain at_route covered in
            absurd (true-ne-false (sym guarded ∙ sym (ap (guards_route g) rooted) ∙ free))
      ]
    where
      true-ne-false : true ≡ false → ⊥
      true-ne-false h = cc

  -- A page that the table declares cacheable has no path that the guard covers. The guard is one
  -- that a module boots, and the patterns start with a slash, with static segments written decoded.
  pub isr_policy_table-covers :
      {F : Type 0} (m : Exports F) (g : PageGuard F) (routes : List (RouteLike platform))
      (entry : IsrPolicyEntry platform × Option (Warning platform)) (q : Text)
      {fresh : Freshness platform} {params : Params}
      → resolve (some m) ≡ value (some g)
      → All (λ r. (p : Text) × (r.pattern ≡ b'/' ∷ p) × All IsPlain (segments_of (b'/' ∷ p))) routes
      → Memᴰ entry (isr_policy_table platform (guards_route g) routes)
      → entry.0.freshness ≡ some fresh
      → match_pattern entry.0.pattern (b'/' ∷ q) ≡ some params
      → covers g (b'/' ∷ q) ≡ none
  unfolding isr_policy_table
  isr_policy_table-covers m g [] entry q booted plain member cached matched =
      absurd (not-mem-nil ∣ member ∣₁)
  isr_policy_table-covers m g (r ∷ rs) entry q {fresh} {params} booted ((p, rooted, plain), rest)
        member cached matched =
      elim (mem-parts member) [
        | inl same ↦
            policy_entry-covers m g r p q booted rooted plain
              (subst (λ e. e.0.freshness ≡ some fresh) same cached)
              (subst (λ e. match_pattern e.0.pattern (b'/' ∷ q) ≡ some params) same matched)
        | inr later ↦ isr_policy_table-covers m g rs entry q booted rest later cached matched
      ]

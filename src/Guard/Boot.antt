-- ===== src/Guard/Boot.antt =====
-- `resolvePageMiddleware`: the module that middleware.ts compiled to, checked once at boot.
pub mod Routes
pub mod Unknown
use borgo.Common.{
  ℕ, ◌≡◌, refl, sym, ap, ap₂, ◌∙◌, subst, inl, inr, Bool, true, false, ◌&&◌, ◌||◌, not, List, [],
  ◌∷◌, map, is_empty, any, Option, none, some, All, arith, ◌≢◌, Option-cases, some-eq,
}
use mathlib.Core.Path.{subst₂}
use borgo.Text.{Text, includes}
use borgo.Result.{Result, value, thrown, ◌>>=◌, >>=-value, value-eq}
use borgo.Params.{Params}
use borgo.Guard.{Entry, text, not_text, Refusal, matcher_refusal, match_entry, patterns_overlap}
use borgo.Guard.Accepted.{IsAccepted, matcher_refusal-IsAccepted}

-- the exported matcher: undefined, no array, or an array
pub data Matcher : Type 0 where
  absent not_list : Matcher
  entries : List Entry → Matcher

-- the module's exports; a middleware that is no function is none
pub record Exports (F : Type 0) : Type 0 where
  pub middleware : Option F
  pub matcher : Matcher

pub data BootError : Type 0 where
  no_function not_an_array empty_matcher : BootError
  bad_entry : Entry → Refusal → BootError

-- what `resolvePageMiddleware` closes over: `compiled` is none for a guard of every page
pub record PageGuard (F : Type 0) : Type 0 where
  pub run : F
  pub compiled : Option (List Text)

abbrev entry_text : Entry → Text
entry_text (text t) = t
entry_text not_text = []

unfoldable pub compile_entry : Entry → Result BootError Text
compile_entry entry = elim (matcher_refusal entry) [
  | some reason ↦ thrown (bad_entry entry reason)
  | none ↦ value (entry_text entry)
]

unfoldable pub compile_entries : List Entry → Result BootError (List Text)
compile_entries [] = value []
compile_entries (entry ∷ rest) = do
  compiled ← compile_entry entry
  others ← compile_entries rest
  value (compiled ∷ others)

unfoldable pub compile_matcher : Matcher → Result BootError (Option (List Text))
compile_matcher absent = value none
compile_matcher not_list = thrown not_an_array
compile_matcher (entries []) = thrown empty_matcher
compile_matcher (entries (entry ∷ rest)) = do
  compiled ← compile_entries (entry ∷ rest)
  value (some compiled)

unfoldable pub first_cover : List Text → Text → Option Params
first_cover [] pathname = none
first_cover (entry ∷ rest) pathname = elim (match_entry entry pathname) [
  | some params ↦ some params
  | none ↦ first_cover rest pathname
]

-- The three questions, of what the guard was compiled from.
unfoldable pub compiled_covers : Option (List Text) → Text → Option Params
compiled_covers none pathname = some []
compiled_covers (some es) pathname = first_cover es pathname

unfoldable pub compiled_route : Option (List Text) → Text → Bool
compiled_route none route_pattern = true
compiled_route (some es) route_pattern = any (patterns_overlap route_pattern) es

unfoldable pub compiled_unknown : Option (List Text) → List Text → Bool
compiled_unknown none route_patterns = true
compiled_unknown (some es) route_patterns =
    any (λ e. includes b':' e || not (any (λ p. patterns_overlap p e) route_patterns)) es

module _ {F : Type 0} where
  unfoldable pub resolve : Option (Exports F) → Result BootError (Option (PageGuard F))
  resolve none = value none
  resolve (some m) = elim m.middleware [
    | none ↦ thrown no_function
    | some f ↦ do
      compiled ← compile_matcher m.matcher
      value (some (record { run = f; compiled = compiled }))
  ]

  unfoldable pub covers : PageGuard F → Text → Option Params
  covers g = compiled_covers g.compiled

  unfoldable pub guards_route : PageGuard F → Text → Bool
  guards_route g = compiled_route g.compiled

  unfoldable pub guards_unknown : PageGuard F → List Text → Bool
  guards_unknown g = compiled_unknown g.compiled

compile_entry-value :
    (entry : Entry) {t : Text} → compile_entry entry ≡ value t → (entry ≡ text t) × IsAccepted t
unfolding compile_entry
compile_entry-value not_text e = unfold matcher_refusal in cc
compile_entry-value (text s) {t} e = elim (Option-cases (matcher_refusal (text s))) [
  | inl f ↦
      let same : s ≡ t = value-eq (rw (f, compile_entry) at e) in
      (ap text same, subst IsAccepted same (matcher_refusal-IsAccepted s f))
  | inr (r, f) ↦ absurd (ground arith)
]

-- Every entry is compiled, in order, and each is one that `matcherRefusal` accepts.
compile_entries-value :
    (es : List Entry) {ts : List Text}
    → compile_entries es ≡ value ts
    → (es ≡ map text ts) × All IsAccepted ts
unfolding compile_entries
compile_entries-value [] {ts} e =
    subst (λ us. ([] ≡ map text us) × All IsAccepted us) (value-eq e) (refl, tt)
compile_entries-value (entry ∷ rest) {ts} e =
    let (t, first, e') = >>=-value (compile_entry entry) _ e in
    let (us, later, e'') = >>=-value (compile_entries rest) _ e' in
    let (same, accepted) = compile_entry-value entry first in
    let (sames, all_accepted) = compile_entries-value rest later in
    subst (λ vs. (entry ∷ rest ≡ map text vs) × All IsAccepted vs) (value-eq e'')
      (ap₂ ◌∷◌ same sames, (accepted, all_accepted))

compile_entries-nil :
    (entry : Entry) (rest : List Entry) → compile_entries (entry ∷ rest) ≢ value []
unfolding compile_entries
compile_entries-nil entry rest e = cons-ne-nil (compile_entries-value (entry ∷ rest) e).0
  where
    cons-ne-nil : entry ∷ rest ≡ [] → ⊥
    cons-ne-nil h = cc

-- What a guard guards: every page, or the paths of a list of accepted entries.
pub data IsCompiled : Matcher → Option (List Text) → Type 0 where
  everything : IsCompiled absent none
  listed :
      {ts : List Text} → ts ≢ [] → All IsAccepted ts → IsCompiled (entries (map text ts)) (some ts)

compile_matcher-IsCompiled :
    (m : Matcher) {c : Option (List Text)} → compile_matcher m ≡ value c → IsCompiled m c
unfolding compile_matcher
compile_matcher-IsCompiled absent e = subst (IsCompiled absent) (value-eq e) everything
compile_matcher-IsCompiled not_list e = cc
compile_matcher-IsCompiled (entries []) e = cc
compile_matcher-IsCompiled (entries (entry ∷ rest)) {c} e =
    let (ts, compiled, e') = >>=-value (compile_entries (entry ∷ rest)) _ e in
    let (same, accepted) = compile_entries-value (entry ∷ rest) compiled in
    let ne : ts ≢ [] = λ h. compile_entries-nil entry rest (compiled ∙ ap value h) in
    subst₂ (λ es d. IsCompiled (entries es) d) (sym same) (value-eq e') (listed ne accepted)

-- A guard boots only from a module that exports a middleware function, and either no matcher, when
-- it guards every page, or a list of entries that is not empty, all strings that `matcherRefusal`
-- accepts, when it guards by these entries, all of them and in order.
pub resolve-IsCompiled :
    {F : Type 0} (m : Exports F) {g : PageGuard F}
    → resolve (some m) ≡ value (some g)
    → (m.middleware ≡ some g.run) × IsCompiled m.matcher g.compiled
unfolding resolve
resolve-IsCompiled m {g} e = elim (Option-cases m.middleware) [
  | inl missing ↦ absurd (ground arith)
  | inr (f, found) ↦
      let (c, compiled, e') = >>=-value (compile_matcher m.matcher) _ (rw (found, resolve) at e) in
      let same : ◌≡◌ {A = PageGuard _} (record { run = f; compiled = c }) g =
        some-eq (value-eq e') in
      subst (λ h. (m.middleware ≡ some h.run) × IsCompiled m.matcher h.compiled) same
        (found, compile_matcher-IsCompiled m.matcher compiled)
]

-- ===== src/Channel/Topic.antt =====
-- Which topics a page may subscribe to.
use borgo.Common.{
  ℕ, ◌≤◌, Bool, true, subst, All, is_empty, if◌then◌else◌, Option, some, not, ◌≡◌, ◌≢◌, ◌↔◌, refl,
  sym, ap, ◌∙◌, false, List, [], ◌∷◌, none, map, arith, length, ltb,
}
use borgo.Text.{
  Text, ◌===◌, ===_iff, includes, trim, split, join, join-split, Lacks, split-Lacks, split_of_Lacks,
}
use borgo.Channel.{topic_error, max_topic_length}

-- The relay splits the names of its query at commas and trims them: a usable topic is read as itself.
pub record IsUsable (topic : Text) : Type 0 where
  pub one_name : map trim (split b',' topic) ≡ topic ∷ []
  pub named : topic ≢ []
  pub short : length topic ≤ max_topic_length

includes-Lacks : (c : ℕ) (s : Text) → includes c s ≡ false → Lacks c s
includes-Lacks c [] e = tt
includes-Lacks c (x ∷ s) e = ground (arith, includes-Lacks c s)

Lacks-includes : (c : ℕ) (s : Text) → Lacks c s → includes c s ≡ false
Lacks-includes c [] h = refl
Lacks-includes c (x ∷ s) (e, h) = rw e (Lacks-includes c s h)

one_name-split :
    (topic : Text)
    → map trim (split b',' topic) ≡ topic ∷ []
    → (split b',' topic ≡ topic ∷ []) × (trim topic ≡ topic)
unfolding join
one_name-split topic e = go (split b',' topic) refl e
  where
    go :
        (ps : List Text)
        → split b',' topic ≡ ps
        → map trim ps ≡ topic ∷ []
        → (split b',' topic ≡ topic ∷ []) × (trim topic ≡ topic)
    go [] same e = cc
    go (p ∷ q ∷ ps) same e = cc
    go (p ∷ []) same e =
        let same_topic : p ≡ topic = sym (ap (join (b',' ∷ [])) same) ∙ join-split b',' topic in
        let trimmed : trim p ≡ topic = cc in (cc, cc)

same-eq : (s : Text) → (s === s) ≡ true
same-eq s = (===_iff s s).1 refl

un_not : (b : Bool) → not b ≡ false → b ≡ true
un_not true e = refl
un_not false e = cc

filled : (t : Text) → is_empty t ≡ false → t ≢ []
filled [] e = cc
filled (x ∷ t) e = cc

inked : (t : Text) → t ≢ [] → is_empty t ≡ false
inked [] e = absurd (e refl)
inked (x ∷ t) e = refl

passed :
    {A : Type 0} (b : Bool) (x : A) (o : Option A)
    → (if b then some x else o) ≡ none
    → (b ≡ false) × (o ≡ none)
passed true x o e = cc
passed false x o e = (refl, e)

topic_error-IsUsable : (topic : Text) → topic_error topic ≡ none → IsUsable topic
unfolding topic_error
topic_error-IsUsable topic e =
    let comma_free = passed (includes b',' topic) _ _ e in
    let inked = passed (is_empty (trim topic)) _ _ comma_free.1 in
    let tight = passed (not (topic === trim topic)) _ _ inked.1 in
    let brief = passed (ltb max_topic_length (length topic)) _ _ tight.1 in
    let trimmed : topic ≡ trim topic =
      (===_iff topic (trim topic)).0 (un_not (topic === trim topic) tight.0) in
    record {
      one_name =
          rw (split_of_Lacks b',' topic (includes-Lacks b',' topic comma_free.0), sym trimmed) refl;
      named = λ empty. filled topic (subst (λ t. is_empty t ≡ false) (sym trimmed) inked.0) empty;
      short = let b = brief.0 in ground arith;
    }

IsUsable-topic_error : (topic : Text) → IsUsable topic → topic_error topic ≡ none
unfolding topic_error
IsUsable-topic_error topic h =
    let one = one_name-split topic h.one_name in
    let apart : Lacks b',' topic =
      let pieces = split-Lacks b',' topic in (subst (All (Lacks b',')) one.0 pieces).0 in
    let e = Lacks-includes b',' topic apart in
    rw (e, one.1, inked topic h.named, same-eq topic) (let b = h.short in ground arith)

-- A topic is accepted exactly if the relay, which splits names at commas and trims them, reads it as
-- that one name, and it is neither empty nor longer than the relay allows.
pub topic_error-none_iff : (topic : Text) → (topic_error topic ≡ none) ↔ IsUsable topic
topic_error-none_iff topic = (topic_error-IsUsable topic, IsUsable-topic_error topic)

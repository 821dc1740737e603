-- ===== src/Isr.antt =====
-- The page policies of packages/borgo/src/isr.ts that the render service declares to the go front.
pub mod Guarded
use borgo.Common.{
  ℕ, ◌≡◌, refl, Bool, true, false, ◌&&◌, ◌||◌, not, List, [], ◌∷◌, map, any, is_empty, Option, none,
  some, if◌then◌else◌,
}
use borgo.Text.{Text, trim}
use borgo.Result.{Result, value, thrown}

-- The language's numbers, with the two tests that `readIsrPolicy` makes of one, and the NFC normal
-- form of a text, which is a table of the Unicode standard.
pub record Platform : Type 1 where
  pub Number : Type 0
  pub is_finite : Number → Bool
  pub is_positive : Number → Bool
  pub nfc : Text → Text

-- an element of the exported tags
pub data Tag : Type 0 where
  text : Text → Tag
  not_text : Tag

-- the exported tags: undefined, no array, or an array
pub data Tags : Type 0 where
  absent not_list : Tags
  tags : List Tag → Tags

pub data PolicyError : Type 0 where
  bad_revalidate bad_tags : PolicyError

module _ (platform : Platform) where
  open platform use {Number, is_finite, is_positive, nfc}

  -- the exported revalidate: undefined, the text "manual", a number, or anything else
  pub data Revalidate : Type 0 where
    absent manual other : Revalidate
    number : Number → Revalidate

  -- how long a copy stays fresh
  pub data Freshness : Type 0 where
    by_hand : Freshness
    seconds : Number → Freshness

  pub record IsrPolicy : Type 0 where
    pub freshness : Freshness
    pub policy_tags : List Text

  unfoldable pub normalize_tag : Text → Text
  normalize_tag tag = nfc (trim tag)

  unfoldable pub is_bad_tag : Tag → Bool
  is_bad_tag not_text = true
  is_bad_tag (text tag) = is_empty (trim tag)

  abbrev pub tag_text : Tag → Text
  tag_text not_text = []
  tag_text (text tag) = normalize_tag tag

  unfoldable pub read_freshness : Revalidate → Result PolicyError (Option Freshness)
  read_freshness Revalidate.absent = value none
  read_freshness manual = value (some by_hand)
  read_freshness (number n) =
      if is_finite n && is_positive n then value (some (seconds n)) else thrown bad_revalidate
  read_freshness other = thrown bad_revalidate

  unfoldable pub read_tags : Tags → Result PolicyError (List Text)
  read_tags Tags.absent = value []
  read_tags not_list = thrown bad_tags
  read_tags (tags ts) = if any is_bad_tag ts then thrown bad_tags else value (map tag_text ts)

  unfoldable pub with_tags :
      Freshness → Result PolicyError (List Text) → Result PolicyError (Option IsrPolicy)
  with_tags fresh (thrown e) = thrown e
  with_tags fresh (value ts) = value (some (record { freshness = fresh; policy_tags = ts }))

  -- `readIsrPolicy`: no policy, a policy, or the reason it is refused
  unfoldable pub read_isr_policy : Revalidate → Tags → Result PolicyError (Option IsrPolicy)
  read_isr_policy revalidate ts = elim (read_freshness revalidate) [
    | thrown e ↦ thrown e
    | value none ↦ value none
    | value (some fresh) ↦ with_tags fresh (read_tags ts)
  ]

  -- a page, as the table sees it
  pub record RouteLike : Type 0 where
    pub pattern : Text
    pub revalidate : Revalidate
    pub exported_tags : Tags

  pub record IsrPolicyEntry : Type 0 where
    pub pattern : Text
    pub freshness : Option Freshness
    pub entry_tags : List Text

  pub data Warning : Type 0 where
    refused : Text → PolicyError → Warning
    guarded_page : Text → Warning

  abbrev pub uncached : Text → IsrPolicyEntry
  uncached pattern = record { pattern = pattern; freshness = none; entry_tags = [] }

  module _ (guarded : Text → Bool) where
    -- one round of the map: the entry, and the line that `warn` is handed
    unfoldable pub policy_entry : RouteLike → IsrPolicyEntry × Option Warning
    policy_entry route = elim (read_isr_policy route.revalidate route.exported_tags) [
      | thrown e ↦ (uncached route.pattern, some (refused route.pattern e))
      | value none ↦ (uncached route.pattern, none)
      | value (some policy) ↦
          if guarded route.pattern
          then (uncached route.pattern, some (guarded_page route.pattern))
          else (
            record {
              pattern = route.pattern;
              freshness = some policy.freshness;
              entry_tags = policy.policy_tags;
            },
            none,
          )
    ]

    unfoldable pub isr_policy_table : List RouteLike → List (IsrPolicyEntry × Option Warning)
    isr_policy_table routes = map policy_entry routes

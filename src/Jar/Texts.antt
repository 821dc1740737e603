-- ===== src/Jar/Texts.antt =====
-- A cookie header as text: what its parts are once it is read again.
use borgo.Common.{◌≡◌, refl, ap, ◌∙◌, Bool, List, [], ◌∷◌, Option, some, All}
use borgo.Text.{
  Text, codes, split, join, is_space, trim, trim_start, trim_end, onto_head, split_of_Lacks,
  split-append,
}
use borgo.Jar.{parts_of, kept_parts, take_cookies, fresh_cookie_header}
use borgo.Jar.Pieces.{IsPart, parts_of-IsPart, take_cookies-All}
use borgo.Jar.Names.{with_name, outcome, with_name-take_cookies}

kept_parts-space : (ps : List Text) → kept_parts (onto_head b' ' ps) ≡ kept_parts ps
unfolding kept_parts trim trim_start is_space
kept_parts-space [] = refl
kept_parts-space (p ∷ ps) = refl

kept_parts-cons : (p : Text) (ps : List Text) → IsPart p → kept_parts (p ∷ ps) ≡ p ∷ kept_parts ps
unfolding kept_parts
kept_parts-cons p ps h = rw (h.trimmed, h.filled) refl

-- The text of parts is read as these parts.
pub parts_of-join :
    (parts : List Text) → All IsPart parts → parts_of (some (join (codes "; ") parts)) ≡ parts
unfolding parts_of join kept_parts split trim trim_start trim_end
parts_of-join [] h = refl
parts_of-join (p ∷ []) (h, k) = rw (split_of_Lacks b';' p h.alone) (kept_parts-cons p [] h)
parts_of-join (p ∷ q ∷ ps) (h, k) =
    rw (split-append b';' p (b' ' ∷ join (codes "; ") (q ∷ ps)) h.alone) (
      kept_parts-cons p (split b';' (b' ' ∷ join (codes "; ") (q ∷ ps))) h
      ∙ ap (λ (r : List Text). p ∷ r)
          (kept_parts-space (split b';' (join (codes "; ") (q ∷ ps))) ∙ parts_of-join (q ∷ ps) k))

module _ (is_past : Text → Bool) where
  -- The fresh header is read as the parts that it was made of.
  parts_of-fresh_cookie_header :
      (header : Option Text) (set_cookies : List Text)
      → parts_of (some (fresh_cookie_header is_past header set_cookies))
        ≡ take_cookies is_past (parts_of header) set_cookies
  unfolding fresh_cookie_header
  parts_of-fresh_cookie_header header set_cookies =
      parts_of-join (take_cookies is_past (parts_of header) set_cookies)
        (take_cookies-All is_past (parts_of header) set_cookies (parts_of-IsPart header))

  -- After the answers of go, the header that is sent next has, of each name, what the cookies of that
  -- name that go set leave: the last one's part, or none if it has expired; of a name that go did not
  -- set it has all the parts of the client's header, in their order.
  pub with_name-fresh_cookie_header :
      (header : Option Text) (set_cookies : List Text) (name : Text)
      → with_name name (parts_of (some (fresh_cookie_header is_past header set_cookies)))
        ≡ outcome is_past name set_cookies (with_name name (parts_of header))
  with_name-fresh_cookie_header header set_cookies name =
      ap (with_name name) (parts_of-fresh_cookie_header header set_cookies)
      ∙ with_name-take_cookies is_past name (parts_of header) set_cookies

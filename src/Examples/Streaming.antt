-- ===== src/Examples/Streaming.antt =====
-- The document of a page as a stream, at concrete inputs.
use borgo.Common.{◌≡◌, refl, true, false, List, [], ◌∷◌}
use borgo.Text.{Text, codes}
use borgo.DocumentStream.{
  closed, errored, Streaming, start, enqueue, close, after_next, pull, cancel, started, pulled,
  left,
}
use borgo.DocumentStream.Reached.{pulls, IsStreamed, Reaches-IsStreamed}

streaming : Unit {0}
unfolding start enqueue close after_next pull cancel pulls
streaming = tt

abbrev chunks : List Text
chunks = codes "b" ∷ (codes "c" ∷ [])

abbrev begun : Streaming
begun = start (codes "a") (codes "d") false chunks

stream_tests :
    ((pulls (codes "a") (codes "d") false 4 begun).phase ≡ closed)
    × ((pulls (codes "a") (codes "d") false 4 begun).sent
        ≡ codes "a" ∷ (codes "b" ∷ (codes "c" ∷ (codes "d" ∷ []))))
    × ((pulls (codes "a") (codes "d") true 3 begun).phase ≡ errored)
    × ((pull (codes "a") (codes "d") false (cancel (codes "a") (codes "d") false begun)).sent
        ≡ codes "a" ∷ [])
unfolding streaming
stream_tests = (refl, refl, refl, refl)

Reaches-IsStreamed_example : IsStreamed (codes "a") (codes "d") false chunks (
    pull
      (codes "a")
      (codes "d")
      false
      (cancel (codes "a") (codes "d") false (pull (codes "a") (codes "d") false begun)))
unfolding streaming
Reaches-IsStreamed_example =
    Reaches-IsStreamed (codes "a") (codes "d") false chunks
      (pulled (left (pulled started refl) refl) refl)

-- ===== src/Segment/Rewriting.antt =====
-- What a client reads in a playlist that is passed through, and what its addresses name.
use streamweaver.Prelude.{◌≡◌, Option, none, some, List, [], ◌∷◌, ◌++◌, All, Text, bytes}
use streamweaver.LoadBalancer.{LoadBalancerResult}
use streamweaver.Client.{Taken, whole}
use streamweaver.Slug.{Codec, ParsePath}
use streamweaver.Segment.{M3U8Segment, line_text}

-- The client takes every line whole.
abbrev pub AreWhole : List (Text × Taken) → Type 0
AreWhole = All (λ p. p.1 ≡ whole)

module _ (codec : Codec M3U8Segment) (parse : ParsePath) (base_url : Text)
    (resolve : Text → Option Text) (lb : LoadBalancerResult) where
  abbrev pub text_of : Option Text → Text
  text_of none = []
  text_of (some text) = text ++ bytes "\n"

  -- What is written for the lines.
  abbrev pub rewritten : List (Text × Taken) → Text
  rewritten [] = []
  rewritten ((line, taken) ∷ rest) =
      text_of (line_text codec parse base_url resolve lb line) ++ rewritten rest

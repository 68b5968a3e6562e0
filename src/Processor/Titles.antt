-- ===== src/Processor/Titles.antt =====
-- The titles of the streams that the workers take, through to the files of the shards.
use streamweaver.Prelude.{◌≡◌, ℕ, Bool, false, none, some, List, ◌∷◌, Text, get_elem?}
use streamweaver.StreamInfo.{StreamInfo}
use streamweaver.Sorting.{Json, Shard}
use streamweaver.Sorting.Titles.{has_title}
use streamweaver.Processor.{Arrival}

module _ (json : Json) where
  -- Whether the shard with the number has the title.
  unfoldable held : ℕ → Text → List Shard → Bool
  unfolding has_title
  held i k shards = elim (get_elem? shards i) [ none ↦ false | some d ↦ has_title json d k ]

-- A worker takes the stream: it has an address, and no error comes.
pub record IsTaken (a : Arrival) : Type 0 where
  pub address : Text × List (Text × Text)
  pub others : List (Text × List (Text × Text))
  pub urls_eq : a.0.urls ≡ some (address ∷ others)
  pub no_error : a.1 ≡ false

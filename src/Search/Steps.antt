-- ===== src/Search/Steps.antt =====
-- The states of the three nested loops of `BeamSearch.run` (src/vcse/search/beam.py).
use vcse.Prelude.{Bool, List}
use vcse.Verifier.Final.{FinalStateEvaluation}
use vcse.Search.Node.{SearchNode, Counts, SearchResult}

-- What a part of the search comes to: it goes on, it returns a node that is VERIFIED, or an exception
-- of `apply` leaves it.
pub data Step (F : Type 0) (A : Type 0) : Type 0 where
  go : A → Step F A
  found : SearchNode F → FinalStateEvaluation → Counts → Step F A
  crashed : Step F A

-- The state of the inner loop: the counters and `next_frontier`
pub record Children (F : Type 0) : Type 0 where
  pub counts : Counts
  pub next_frontier : List (SearchNode F)

-- The state of the loop over the frontier. While `shared`, `best` is the same object as the first
-- node of the frontier.
pub record Level (F : Type 0) : Type 0 where
  pub best : SearchNode F
  pub shared : Bool
  pub children : Children F

-- The state of the outer loop; `shared` as in a level
pub record Position (F : Type 0) : Type 0 where
  pub frontier : List (SearchNode F)
  pub best : SearchNode F
  pub shared : Bool
  pub counts : Counts

pub data Outcome (F : Type 0) : Type 0 where
  result : SearchResult F → Outcome F
  exception out_of_fuel : Outcome F

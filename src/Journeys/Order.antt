-- ===== src/Journeys/Order.antt =====
-- The order of a journey's segments, as the timeline shows it: a list of ids. What an operation on
-- segments does to it is stated on such lists, with no positions.
mod Shifting
pub mod Moving
pub mod Deleting
pub mod Saving
use trax_os.Common.{String, not, List, [], ◌∷◌, ◌==◌, map, if◌then◌else◌}
use trax_os.Journeys.Domain.{JourneySegment, JourneyData, segments_for_journey}
use trax_os.Journeys.Service.{Direction, earlier, later}

abbrev pub ids : List JourneySegment → List String
ids = map (λ s. s.id)

-- The ids of a journey's segments in order.
abbrev pub order : JourneyData → String → List String
order d journey_id = ids (segments_for_journey d journey_id)

-- The id changes places with its neighbour, if it has one on that side.
abbrev pub shift : Direction → String → List String → List String
shift direction k [] = []
shift direction k (x ∷ []) = x ∷ []
shift earlier k (x ∷ y ∷ xs) =
    let rest = shift earlier k (y ∷ xs) in if y == k then y ∷ x ∷ xs else x ∷ rest
shift later k (x ∷ y ∷ xs) =
    let rest = shift later k (y ∷ xs) in if x == k then y ∷ x ∷ xs else x ∷ rest

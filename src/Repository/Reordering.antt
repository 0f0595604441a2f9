-- ===== src/Repository/Reordering.antt =====
-- What the reorder requests of save in http-journey-repository.ts make of the order of a journey's
-- segments on the server: the segment is taken out and put in at its new position.
pub mod Moving
use trax_os.Common.{ℕ, zero, suc, String, List, [], ◌∷◌, ◌==◌, if◌then◌else◌}
use trax_os.Common.Int.{ℤ, pos}
use trax_os.Common.Json.{Value, field, int_of}
use trax_os.Repository.Requests.{Request}
use trax_os.Repository.Plan.{Call, request}

abbrev pub taken_out : String → List String → List String
taken_out k [] = []
taken_out k (x ∷ xs) = let rest = taken_out k xs in if x == k then xs else x ∷ rest

abbrev pub put_in : ℕ → String → List String → List String
put_in zero k xs = k ∷ xs
put_in (suc i) k [] = k ∷ []
put_in (suc i) k (x ∷ xs) = x ∷ put_in i k xs

abbrev pub index_of : ℤ → ℕ
index_of (pos n) = n
index_of _ = 0

abbrev pub order_step : Call → List String → List String
order_step (request (Request.reorder_segment j s body)) order =
    put_in (index_of (int_of (field body "new_position"))) s (taken_out s order)
order_step _ order = order

abbrev pub run_order : List Call → List String → List String
run_order [] order = order
run_order (c ∷ cs) order = run_order cs (order_step c order)

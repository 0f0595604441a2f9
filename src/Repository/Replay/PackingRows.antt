-- ===== src/Repository/Replay/PackingRows.antt =====
-- What the calls of save in http-journey-repository.ts make of the row of a packing item, and what is
-- asked of an item of the old data and the one with its id in the next.
use trax_os.Common.{
  String, true, false, Option, none, some, ◌≡◌, refl, ◌==◌, if◌then◌else◌, arith, ◌&&◌,
}
use mathlib.Core.Option
use trax_os.Common.Int.{ℤ, pos, leb_ℤ, ◌≤ℤ◌}
use trax_os.Common.Json.{Value, object, Fields, number, field, lookup, entry, no_fields, int_of}
use trax_os.Journeys.Domain.{PackingItem}
use trax_os.Repository.Requests.{
  packing_body, packing_definition_changed, Request, with_version, append_fields,
}
use trax_os.Repository.Plan.{Call, request}
use trax_os.Repository.Replay.Runs.{written, given_id, IsTold, without}
use trax_os.Repository.Replay.Kind.{Row, orphaned, row_of}
use trax_os.Common.Number.{Number, integer, min_int, IsBetween}

-- the fields of a body, and a packed quantity
abbrev pub packed_body : Fields → Number → Fields
packed_body body p = append_fields body (entry "packed_quantity" (number p) no_fields)

-- The row with the packed quantity of a request, which is refused unless it is an integer from 0 to
-- the quantity of the row.
abbrev pub repack : Value → Fields → Fields
repack (number (integer n)) row =
    if leb_ℤ (pos 0) n && leb_ℤ n (int_of (lookup row "quantity"))
    then packed_body (without "packed_quantity" row) (integer n)
    else row
repack _ row = row

-- The packed quantity of a row whose quantity is changed: at most the new one.
abbrev at_most : (quantity packed : Value) → Value
at_most (number (integer q)) (number p) = number (min_int q p)
at_most _ packed = packed

-- The fields that a body writes over those of a row, and the packed quantity.
abbrev pub rewritten : Value → Fields → Fields
rewritten body row = append_fields (written body) (
    entry "packed_quantity"
      (at_most (lookup (written body) "quantity") (lookup row "packed_quantity")) no_fields)

abbrev pub item_fields : PackingItem → Fields
item_fields i = packed_body (packing_body i false) i.packed_quantity

-- what a call makes of the row of the packing item `k`; nothing of a new item is packed
abbrev pub packing_step : String → Call → Option Row → Option Row
packing_step k (request (Request.delete_journey j)) row = orphaned j row
packing_step k (request (Request.delete_packing j id)) row = if id == k then none else row
packing_step k (request (Request.create_packing j body)) row =
    if given_id body == k then some (j, packed_body (written body) (integer (pos 0))) else row
packing_step k (request (Request.update_packing j id body)) row =
    if id == k then Option.map (λ old. (j, rewritten body old.1)) row else row
packing_step k (request (Request.update_packing_progress j id body)) row =
    if id == k
    then Option.map (λ old. (j, repack (field body "packed_quantity") old.1)) row
    else row
packing_step k _ row = row

abbrev pub packing_row : Option PackingItem → Option Row
packing_row = row_of (λ i. i.journey_id) item_fields

pub created_fields :
    (i : PackingItem) → written (object (packing_body i true)) ≡ packing_body i false
unfolding packing_body
created_fields i = refl

pub created_id : (i : PackingItem) → given_id (object (packing_body i true)) ≡ i.id
unfolding packing_body
created_id i = refl

updated_fields :
    (i : PackingItem) (v : ℤ)
    → written (with_version (packing_body i false) v) ≡ packing_body i false
unfolding packing_body
updated_fields i v = refl

pub repacked_fields :
    (i : PackingItem) (n : ℤ)
    → pos 0 ≤ℤ n
    → n ≤ℤ i.quantity
    → (p : Number)
    → repack (number (integer n)) (packed_body (packing_body i false) p)
      ≡ packed_body (packing_body i false) (integer n)
unfolding packing_body
repacked_fields i n least most p =
    let in_range : (leb_ℤ (pos 0) n && leb_ℤ n i.quantity) ≡ true = ground arith in rw in_range refl

-- An item and the one with its id in the next data: the bodies are told apart, what is packed is
-- an integer from 0 to the quantity, and where the body changes it is what was packed, at most the
-- new quantity.
pub record IsFollowed (json : Value → String) (a b : PackingItem) : Type 0 where
  pub told : IsTold json (packing_body a false) (packing_body b false)
  pub packed : IsBetween (pos 0) b.quantity b.packed_quantity
  pub kept :
      packing_definition_changed json a b ≡ true
      → b.packed_quantity ≡ min_int b.quantity a.packed_quantity

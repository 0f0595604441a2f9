-- ===== src/Repository/Rows/PackingRow.antt =====
-- The rows that `packingFrom` of http-journey-repository.ts accepts.
use trax_os.Common.{subst, ◌≡◌, ◌↔◌, refl, ok, bind-eq-ok}
use trax_os.Common.Json.{Value, Fields, text, boolean, object, lookup}
use trax_os.Journeys.Stored.Encoding.{encode_int, encode_category}
use trax_os.Journeys.Domain.{PackingItem}
use trax_os.Repository.Rows.{
  required, string, nullable, whole, truth, category, read_packing, packing_from, packing_keys,
}
use trax_os.Repository.Rows.Reading.{
  ok_eq, string-eq-ok, whole-eq-ok, truth-eq-ok, category-eq-ok, category-encode_category,
  is_undefined-encode_category, has_member-lookup, required-eq-ok,
}
use trax_os.Common.Number.{integer}
use trax_os.Common.Int.{ℤ}

pub record IsPackingRow (row : Fields) (i : PackingItem) : Type 0 where
  pub id : lookup row "id" ≡ text i.id
  pub journey_id : lookup row "journey_id" ≡ text i.journey_id
  pub label : lookup row "label" ≡ text i.label
  pub category : lookup row "category" ≡ encode_category i.category
  pub quantity : lookup row "quantity" ≡ encode_int i.quantity
  pub packed_quantity :
      (n : ℤ) × (i.packed_quantity ≡ integer n) × (lookup row "packed_quantity" ≡ encode_int n)
  pub essential : lookup row "essential" ≡ boolean i.essential
  pub record_version : lookup row "record_version" ≡ encode_int i.record_version
  pub created_at : lookup row "created_at" ≡ text i.created_at
  pub updated_at : lookup row "updated_at" ≡ text i.updated_at

read_packing-IsPackingRow :
    (row : Fields) {x : PackingItem} → read_packing row ≡ ok x → IsPackingRow row x
unfolding read_packing
read_packing-IsPackingRow row e₀ =
    let (id', e_id, e₁) = bind-eq-ok (string (lookup row "id")) _ e₀ in
    let (journey_id', e_journey_id, e₂) = bind-eq-ok (string (lookup row "journey_id")) _ e₁ in
    let (label', e_label, e₃) = bind-eq-ok (string (lookup row "label")) _ e₂ in
    let (category', e_category, e₄) = bind-eq-ok (category (lookup row "category")) _ e₃ in
    let (quantity', e_quantity, e₅) = bind-eq-ok (whole (lookup row "quantity")) _ e₄ in
    let (packed_quantity', e_packed_quantity, e₆) =
      bind-eq-ok (whole (lookup row "packed_quantity")) _ e₅ in
    let (essential', e_essential, e₇) = bind-eq-ok (truth (lookup row "essential")) _ e₆ in
    let (record_version', e_record_version, e₈) =
      bind-eq-ok (whole (lookup row "record_version")) _ e₇ in
    let (created_at', e_created_at, e₉) = bind-eq-ok (string (lookup row "created_at")) _ e₈ in
    let (updated_at', e_updated_at, eₐ) = bind-eq-ok (string (lookup row "updated_at")) _ e₉ in
    subst (IsPackingRow row) (ok_eq eₐ) (record {
      id = string-eq-ok _ e_id;
      journey_id = string-eq-ok _ e_journey_id;
      label = string-eq-ok _ e_label;
      category = category-eq-ok _ e_category;
      quantity = whole-eq-ok _ e_quantity;
      packed_quantity = (packed_quantity', refl, whole-eq-ok _ e_packed_quantity);
      essential = truth-eq-ok _ e_essential;
      record_version = whole-eq-ok _ e_record_version;
      created_at = string-eq-ok _ e_created_at;
      updated_at = string-eq-ok _ e_updated_at;
    })

read_packing-eq-ok : (row : Fields) (i : PackingItem) → IsPackingRow row i → read_packing row ≡ ok i
unfolding read_packing string nullable whole truth
read_packing-eq-ok row i h = rw (
  h.id,
  h.journey_id,
  h.label,
  h.category,
  category-encode_category i.category,
  h.quantity,
  h.packed_quantity.1,
  h.packed_quantity.2,
  h.essential,
  h.record_version,
  h.created_at,
  h.updated_at,
)

required-IsPackingRow :
    (row : Fields) (i : PackingItem)
    → IsPackingRow row i
    → required packing_keys (object row) ≡ ok row
unfolding required
required-IsPackingRow row i h = rw (
  has_member-lookup row "id" _ h.id (refl),
  has_member-lookup row "journey_id" _ h.journey_id (refl),
  has_member-lookup row "label" _ h.label (refl),
  has_member-lookup row "category" _ h.category (is_undefined-encode_category i.category),
  has_member-lookup row "quantity" _ h.quantity (refl),
  has_member-lookup row "packed_quantity" _ h.packed_quantity.2 (refl),
  has_member-lookup row "essential" _ h.essential (refl),
  has_member-lookup row "record_version" _ h.record_version (refl),
  has_member-lookup row "created_at" _ h.created_at (refl),
  has_member-lookup row "updated_at" _ h.updated_at (refl),
)

-- `packingFrom` returns exactly for a record whose fields, under their names, are those of what it
-- returns.
pub packing_from_iff :
    (value : Value) (i : PackingItem)
    → (packing_from value ≡ ok i) ↔ ((row : Fields) × (value ≡ object row) × IsPackingRow row i)
unfolding packing_from
packing_from_iff value i = (
  λ e.
      let (row, kept, read) = bind-eq-ok (required packing_keys value) read_packing e in
      (row, required-eq-ok packing_keys value kept, read_packing-IsPackingRow row read),
  λ h. rw (h.1, required-IsPackingRow h.0 i h.2) (read_packing-eq-ok h.0 i h.2),
)

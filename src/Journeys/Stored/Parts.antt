-- ===== src/Journeys/Stored/Parts.antt =====
-- The tests of `parseJourneyData`, one by one, on values in their stored form.
use trax_os.Common.{
  String, Bool, true, false, not, ◌&&◌, ◌==◌, Option, none, some, List, [], ◌∷◌, ◌≡◌, ◌≢◌, refl,
  any, All, arith, eq_iff,
}
use trax_os.Common.Int.{ℤ, ◌≤ℤ◌, leb_ℤ, eqb_ℤ, eq_of_parts}
use trax_os.Journeys.Domain.{
  JourneySegment, PackingCategory, clothing, toiletries, electronics, other, planning, documents,
  JourneyStatus, active, completed, archived,
}
use trax_os.Journeys.Format.{IsDate, out_of_order}
use trax_os.Common.Json.{is_text, date_of, is_text, number, int_of, is_int}
use trax_os.Journeys.Stored.{
  Number, passes, nullable_date, has, journey_statuses, packing_categories,
}
use trax_os.Journeys.Stored.Encoding.{encode_date, encode_status, encode_category}
use trax_os.Common.Number.{Number, IsBetween}

pub and_of : {a b : Bool} → a ≡ true → b ≡ true → (a && b) ≡ true
and_of e h = ground arith

pub passes_of : (tests : List Bool) → All (λ b. b ≡ true) tests → passes tests ≡ true
passes_of [] h = refl
passes_of (b ∷ tests) (e, h) = and_of e (passes_of tests h)

infixr 5 ◌&◌
abbrev pub ◌&◌ : {A B : Type 0} → A → B → A × B
a & b = (a, b)

pub not_of : {b : Bool} → b ≡ false → not b ≡ true
not_of e = ground arith

pub nullable-encode : (o : Option String) → IsDate o → nullable_date (encode_date o) ≡ true
nullable-encode none h = refl
nullable-encode (some s) h = h

pub date_of-encode : (o : Option String) → date_of (encode_date o) ≡ o
date_of-encode none = refl
date_of-encode (some s) = refl

pub dates-encode :
    (a b : Option String)
    → out_of_order a b ≡ false
    → not (out_of_order (date_of (encode_date a)) (date_of (encode_date b))) ≡ true
dates-encode a b h = rw (date_of-encode a, date_of-encode b) (not_of h)

pub has_status :
    (s : JourneyStatus)
    → (is_text (encode_status s) && has journey_statuses (encode_status s)) ≡ true
has_status planning = refl
has_status active = refl
has_status completed = refl
has_status archived = refl

-- No key of the list was seen.
abbrev pub AreNew {ℓ} : {A : Type ℓ} → (A → String) → List String → List A → Type 0
AreNew key seen = All (λ x. any (λ s. s == key x) seen ≡ false)

pub AreNew-cons :
    {A : Type 0} (key : A → String) (k : String) (seen : List String) (xs : List A)
    → All (λ x. key x ≢ k) xs
    → AreNew key seen xs
    → AreNew key (k ∷ seen) xs
AreNew-cons key k seen [] h new = tt
AreNew-cons key k seen (x ∷ xs) (e, h) (e', new) =
    (ground (arith, eq_iff k (key x)), AreNew-cons key k seen xs h new)

pub AreNew-nil : {A : Type 0} (key : A → String) (xs : List A) → AreNew key [] xs
AreNew-nil key [] = tt
AreNew-nil key (x ∷ xs) = (refl, AreNew-nil key xs)

pub leb_of : (a b : ℤ) → a ≤ℤ b → leb_ℤ a b ≡ true
leb_of a b h = ground arith

pub is_int-of_between :
    (low high : ℤ) (x : Number) → IsBetween low high x → is_int (number x) ≡ true
is_int-of_between low high x (n, e, least, most) = rw e refl

pub int_of-of_between :
    (low high : ℤ) (x : Number)
    → IsBetween low high x
    → (leb_ℤ low (int_of (number x)) ≡ true) × (leb_ℤ (int_of (number x)) high ≡ true)
int_of-of_between low high x (n, e, least, most) = rw e (leb_of low n least, leb_of n high most)

pub has_category :
    (c : PackingCategory)
    → (is_text (encode_category c) && has packing_categories (encode_category c)) ≡ true
has_category documents = refl
has_category clothing = refl
has_category toiletries = refl
has_category electronics = refl
has_category other = refl

-- The place of the segment is one of those.
abbrev pub is_taken : List (String × ℤ) → JourneySegment → Bool
is_taken taken s = any (λ p. p.0 == s.journey_id && eqb_ℤ p.1 s.position) taken

pub is_taken-cons :
    (s : JourneySegment) (taken : List (String × ℤ)) (ss : List JourneySegment)
    → All (λ t. t.journey_id ≡ s.journey_id → t.position ≢ s.position) ss
    → All (λ t. is_taken taken t ≡ false) ss
    → All (λ t. is_taken ((s.journey_id, s.position) ∷ taken) t ≡ false) ss
is_taken-cons s taken [] h k = tt
is_taken-cons s taken (t ∷ ss) (a, h) (e, k) = (
  ground (arith, a, eq_iff s.journey_id t.journey_id, eq_of_parts t.position s.position),
  is_taken-cons s taken ss h k,
)

pub All-trivial : (ss : List JourneySegment) → All (λ s. is_taken [] s ≡ false) ss
All-trivial [] = tt
All-trivial (s ∷ ss) = (refl, All-trivial ss)

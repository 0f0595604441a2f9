-- ===== src/Repository/Rows/Reading.antt =====
-- What the readers of one value of http-journey-repository.ts accept.
use trax_os.Common.{
  String, Bool, true, false, not, ◌==◌, Option, none, some, List, [], ◌∷◌, ◌≡◌, refl, sym, ap,
  subst, any, ok, Bool-cases, inl, inr, All, arith, eq_iff, Result,
}
use trax_os.Common.Int.{ℤ}
use trax_os.Common.Number.{integer}
use trax_os.Common.Json.{
  Value, Fields, no_fields, entry, undefined, null, boolean, number, text, object, lookup,
  has_member,
}
use trax_os.Journeys.Domain.{
  JourneyStatus, planning, active, completed, archived, PackingCategory, documents, clothing,
  toiletries, electronics, other,
}
use trax_os.Journeys.Stored.Encoding.{encode_date, encode_int, encode_status, encode_category}
use trax_os.Repository.Rows.{
  required, string, nullable, whole, truth, named, status, category, statuses, categories,
}

abbrev pub is_undefined : Value → Bool
is_undefined undefined = true
is_undefined _ = false

pub ok_eq : {E A : Type 0} {a b : A} → ◌≡◌ {A = Result E A} (ok a) (ok b) → a ≡ b
ok_eq e = cc

pub string-eq-ok : (v : Value) {s : String} → string v ≡ ok s → v ≡ text s
unfolding string
string-eq-ok (text t) e = cc
string-eq-ok _ e = cc

pub nullable-eq-ok : (v : Value) {d : Option String} → nullable v ≡ ok d → v ≡ encode_date d
unfolding nullable
nullable-eq-ok null e = ap encode_date (ok_eq e)
nullable-eq-ok (text t) e = ap encode_date (ok_eq e)
nullable-eq-ok _ e = cc

pub nullable-encode_date : (d : Option String) → nullable (encode_date d) ≡ ok d
unfolding nullable
nullable-encode_date none = refl
nullable-encode_date (some s) = refl

pub whole-eq-ok : (v : Value) {n : ℤ} → whole v ≡ ok n → v ≡ encode_int n
unfolding whole
whole-eq-ok (number (integer n)) e = cc
whole-eq-ok _ e = cc

pub truth-eq-ok : (v : Value) {b : Bool} → truth v ≡ ok b → v ≡ boolean b
unfolding truth
truth-eq-ok (boolean b) e = cc
truth-eq-ok _ e = cc

-- A value found under its name.
named-holds :
    {A : Type 0} (P : String → A → Type 0) (names : List (String × A)) (s : String) {a : A}
    → All (λ n. P n.0 n.1) names
    → named names s ≡ ok a
    → P s a
named-holds P [] s h e = cc
named-holds P ((t, b) ∷ names) s {a} (p, h) e = elim (Bool-cases (s == t)) [
  | inl here ↦
      let same : b ≡ a = ok_eq (rw here at e) in
      let name : s ≡ t = ground (arith, eq_iff s t) in
      subst (λ x. P x a) (sym name) (subst (P t) same p)
  | inr there ↦ named-holds P names s h (rw there at e)
]

pub status-eq-ok : (v : Value) {a : JourneyStatus} → status v ≡ ok a → v ≡ encode_status a
unfolding status
status-eq-ok (text s) e =
    named-holds (λ t b. text t ≡ encode_status b) statuses s (refl, (refl, (refl, (refl, tt)))) e
status-eq-ok _ e = cc

pub status-encode_status : (a : JourneyStatus) → status (encode_status a) ≡ ok a
unfolding status
status-encode_status planning = refl
status-encode_status active = refl
status-encode_status completed = refl
status-encode_status archived = refl

pub category-eq-ok : (v : Value) {a : PackingCategory} → category v ≡ ok a → v ≡ encode_category a
unfolding category
category-eq-ok (text s) e =
    named-holds (λ t b. text t ≡ encode_category b) categories s
      (refl, (refl, (refl, (refl, (refl, tt))))) e
category-eq-ok _ e = cc

pub category-encode_category : (a : PackingCategory) → category (encode_category a) ≡ ok a
unfolding category
category-encode_category documents = refl
category-encode_category clothing = refl
category-encode_category toiletries = refl
category-encode_category electronics = refl
category-encode_category other = refl

pub is_undefined-encode_status : (a : JourneyStatus) → is_undefined (encode_status a) ≡ false
is_undefined-encode_status planning = refl
is_undefined-encode_status active = refl
is_undefined-encode_status completed = refl
is_undefined-encode_status archived = refl

pub is_undefined-encode_category : (a : PackingCategory) → is_undefined (encode_category a) ≡ false
is_undefined-encode_category documents = refl
is_undefined-encode_category clothing = refl
is_undefined-encode_category toiletries = refl
is_undefined-encode_category electronics = refl
is_undefined-encode_category other = refl

-- A field with a value is there.
pub has_member-lookup :
    (row : Fields) (k : String) (v : Value)
    → lookup row k ≡ v
    → is_undefined v ≡ false
    → has_member row k ≡ true
has_member-lookup no_fields k v e h =
    let e' : is_undefined undefined ≡ is_undefined v = ap is_undefined e in cc
has_member-lookup (entry j w row) k v e h = elim (Bool-cases (j == k)) [
  | inl here ↦ rw here refl
  | inr there ↦ rw there (has_member-lookup row k v (rw there at e) h)
]

pub required-eq-ok :
    (keys : List String) (value : Value) {row : Fields}
    → required keys value ≡ ok row
    → value ≡ object row
unfolding required
required-eq-ok keys (object fields) e =
    elim (Bool-cases (any (λ k. not (has_member fields k)) keys)) [
      | inl missing ↦ (let e' = rw missing at e in cc)
      | inr full ↦ (let e' = rw full at e in cc)
    ]
required-eq-ok keys _ e = cc

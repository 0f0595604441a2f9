-- ===== src/Journeys/Tests.antt =====
-- Runs of the journey feature on one journey with two segments and an item.
mod Runs
mod Witnesses
use trax_os.Common.{
  arith, ℕ, String, Bool, true, false, Option, none, some, List, [], ◌∷◌, ◌≡◌, refl, Bool-cases,
  inl, inr, ◌==◌, ◌≢◌, arith, eq_iff,
}
use trax_os.Journeys.Format.{is_local_date, is_timestamp}
use trax_os.Common.Int.{pos}
use trax_os.Common.Text.{trim, or_null, text_lt}
use trax_os.Common.Sort.{sort}
use trax_os.Journeys.Domain.{
  Journey, JourneySegment, PackingItem, JourneyData, SegmentDetails, stay, move, JourneyInput,
  SegmentInput, PackingInput, planning, documents,
}
use trax_os.Journeys.Service.{Runtime}
use trax_os.Journeys.Invariant.{IsWellFormed, IsFresh}
use trax_os.Common.Number.{integer}

abbrev pub any_date : String → Bool
any_date s = true

abbrev pub noon : String
noon = "2026-05-01T12:00:00Z"

abbrev pub trip : Journey
trip = record {
  id = "j1";
  name = "Trip";
  start_date = some "2026-06-01";
  end_date = none;
  status = planning;
  record_version = pos 1;
  created_at = noon;
  updated_at = noon;
}

abbrev pub segment : String → Option String → SegmentDetails → ℕ → JourneySegment
segment key start details n = record {
  id = key;
  journey_id = "j1";
  position = pos n;
  start_date = start;
  end_date = none;
  notes = "";
  record_version = pos 1;
  created_at = noon;
  updated_at = noon;
  details = details;
}

abbrev pub hotel : JourneySegment
hotel = segment "s1" none (stay "Hotel") 0

abbrev pub train : JourneySegment
train = segment "s2" (some "2026-06-02") (move "Ghent" "Paris" "train") 1

abbrev pub passport : PackingItem
passport = record {
  id = "i1";
  journey_id = "j1";
  label = "Passport";
  category = documents;
  quantity = pos 2;
  packed_quantity = integer (pos 0);
  essential = true;
  record_version = pos 1;
  created_at = noon;
  updated_at = noon;
}

-- The segments are stored out of order.
abbrev pub sample : JourneyData
sample = record {
  journeys = trip ∷ [];
  segments = train ∷ hotel ∷ [];
  packing_items = passport ∷ [];
}

abbrev pub browser : Runtime
browser = record { id = "n1"; now = λ n. "2026-05-02T08:00:00Z" }

abbrev pub walk : SegmentInput
walk = record { details = stay " Old town "; start_date = ""; end_date = ""; notes = "" }

apart : {s t : String} → (s == t) ≡ false → s ≢ t
apart {s} {t} e p = ground (arith, eq_iff s t)

pub sample-IsWellFormed : IsWellFormed any_date sample
unfolding trim text_lt sort is_local_date is_timestamp
sample-IsWellFormed = record {
  journeys = record {
    distinct = (tt, tt);
    each = (
      record {
        id = refl;
        name = refl;
        start_date = refl;
        end_date = tt;
        order = refl;
        version = omega arith;
        created_at = refl;
        updated_at = refl;
      },
      tt,
    );
  };
  segments = record {
    distinct = ((apart refl, tt), (tt, tt));
    each = (
      record {
        id = refl;
        journey_id = refl;
        position = omega arith;
        start_date = refl;
        end_date = tt;
        order = refl;
        version = omega arith;
        created_at = refl;
        updated_at = refl;
        names = (refl, refl);
      },
      (
        record {
          id = refl;
          journey_id = refl;
          position = omega arith;
          start_date = tt;
          end_date = tt;
          order = refl;
          version = omega arith;
          created_at = refl;
          updated_at = refl;
          names = refl;
        },
        tt,
      ),
    );
    owned = (refl, (refl, tt));
  };
  numbered =
      λ j. elim (Bool-cases ("j1" == j)) [ inl e ↦ rw e (refl, (refl, tt)) | inr e ↦ rw e tt ];
  items = record {
    distinct = (tt, tt);
    each = (
      record {
        id = refl;
        journey_id = refl;
        label = refl;
        quantity_min = omega arith;
        quantity_max = omega arith;
        packed = (pos 0, refl, omega arith, omega arith);
        version = omega arith;
        created_at = refl;
        updated_at = refl;
      },
      tt,
    );
    owned = (refl, tt);
  };
}

pub browser-IsFresh : IsFresh any_date sample browser
unfolding trim is_timestamp
browser-IsFresh = record {
  id = refl;
  journeys = (apart refl, tt);
  segments = (apart refl, (apart refl, tt));
  items = (apart refl, tt);
  now = λ n. refl;
}

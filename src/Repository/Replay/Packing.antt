-- ===== src/Repository/Replay/Packing.antt =====
-- The rows of packing items after the calls of save in http-journey-repository.ts.
use trax_os.Common.{
  ◌∙◌, ap₂, String, true, false, not, Option, none, some, List, ◌++◌, ◌≡◌, refl, ◌==◌, All,
  DistinctBy, find?, Bool-cases, inl, inr, eq_iff, arith, ap, sym, ◌&&◌, [],
}
use mathlib.Core.List.{append_assoc, append-nil}
use trax_os.Repository.Replay.Unrelated.{
  all_segments-Idle, journey_changes-Idle, all_reorderings-Idle,
}
use trax_os.Common.Int.{pos}
use trax_os.Common.Json.{Value, object, number}
use trax_os.Journeys.Domain.{PackingItem, JourneyData}
use trax_os.Repository.Requests.{packing_body, packing_definition_changed, Request, with_version}
use trax_os.Repository.Plan.{
  is_living, has_item, each_of, all_reorderings, journey_changes, packing_changes, segment_changes,
  segment_deletions, packing_deletions, Call, packing_calls, has_journey, save_calls,
}
use trax_os.Repository.Replay.Runs.{Idle-if, run, Idle, Idle-append, IsTold}
use trax_os.Repository.Replay.Owned.{run-calls}
use trax_os.Repository.Replay.Kind.{Kind, IsReplayed}
use trax_os.Common.Number.{integer, same_number, min_int, IsBetween, same_number-eq}
use trax_os.Repository.Replay.PackingRows.{
  packed_body, repack, rewritten, item_fields, packing_step, packing_row, created_fields,
  created_id, repacked_fields, IsFollowed,
}

module _ (json : Value → String) (k : String) where
  same_body :
      (a b : PackingItem)
      → IsTold json (packing_body a false) (packing_body b false)
      → packing_definition_changed json a b ≡ false
      → packing_body a false ≡ packing_body b false
  unfolding packing_definition_changed
  same_body a b told e = told (
      (eq_iff (json (object (packing_body a false))) (json (object (packing_body b false)))).0
        (ground arith))

  others :
      (o : Option PackingItem) (i : PackingItem)
      → (i.id == k) ≡ false
      → Idle (packing_step k) (packing_calls json o i)
  unfolding packing_calls
  others none i e row = rw (created_id i, e) refl
  others (some old) i e row =
      Idle-if (packing_step k) (packing_definition_changed json old i) _ _ (λ r. rw e refl)
        (Idle-if (packing_step k) (not (same_number old.packed_quantity i.packed_quantity)) _ _
          (λ r. rw e refl) (λ r. refl))
        row

  creates :
      (i : PackingItem)
      → i.packed_quantity ≡ integer (pos 0)
      → (i.id == k) ≡ true
      → run (packing_step k) (packing_calls json none i) none ≡ some (i.journey_id, item_fields i)
  unfolding packing_calls
  creates i new e = rw (created_id i, e, created_fields i, new) refl

  updated_item :
      (a i : PackingItem)
      → i.packed_quantity ≡ min_int i.quantity a.packed_quantity
      → rewritten (with_version (packing_body i false) a.record_version) (item_fields a)
        ≡ item_fields i
  unfolding packing_body
  updated_item a i e = rw e refl

  progressed :
      (a i : PackingItem)
      → packing_body a false ≡ packing_body i false
      → IsBetween (pos 0) i.quantity i.packed_quantity
      → repack (number i.packed_quantity) (item_fields a) ≡ item_fields i
  progressed a i e (n, f, least, most) =
      ap₂ (λ p body. repack (number p) (packed_body body a.packed_quantity)) f e
      ∙ (repacked_fields i n least most a.packed_quantity
          ∙ ap (packed_body (packing_body i false)) (sym f))

  unchanged :
      (a i : PackingItem)
      → packing_body a false ≡ packing_body i false
      → (not (same_number a.packed_quantity i.packed_quantity)) ≡ false
      → item_fields a ≡ item_fields i
  unchanged a i e f = rw (e, same_number-eq a.packed_quantity i.packed_quantity (ground arith)) refl

  updates :
      (a i : PackingItem)
      → a.id ≡ i.id
      → (i.id == k) ≡ true
      → a.journey_id ≡ i.journey_id
      → IsFollowed json a i
      → run (packing_step k) (packing_calls json (some a) i) (some (a.journey_id, item_fields a))
        ≡ some (i.journey_id, item_fields i)
  unfolding packing_calls
  updates a i h e j follows = elim (Bool-cases (packing_definition_changed json a i)) [
    | inl c ↦ rw (c, e) (ap (λ r. some (i.journey_id, r)) (updated_item a i (follows.kept c)))
    | inr c ↦
        let same = same_body a i follows.told c in
        elim (Bool-cases (not (same_number a.packed_quantity i.packed_quantity))) [
          | inl m ↦
              rw (c, m, e) (ap (λ r. some (i.journey_id, r)) (progressed a i same follows.packed))
          | inr m ↦ rw (c, m) (ap₂ (λ j fields. some (j, fields)) j (unchanged a i same m))
        ]
  ]

  -- the calls between the deletions of journeys and the calls for items
  abbrev before : JourneyData → JourneyData → List Call
  before previous next =
      journey_changes previous next
      ++ (segment_deletions previous next
          ++ (segment_changes json previous next ++ all_reorderings previous next))

  before-Idle : (previous next : JourneyData) → Idle (packing_step k) (before previous next)
  before-Idle previous next =
      Idle-append (packing_step k) (journey_changes previous next) _
        (journey_changes-Idle (packing_step k) (λ body row. refl) (λ old new row. refl) previous
          next)
        (rw
          (append_assoc (segment_deletions previous next) (segment_changes json previous next)
            (all_reorderings previous next))
          at
          (Idle-append (packing_step k)
            (segment_deletions previous next ++ segment_changes json previous next)
            (all_reorderings previous next)
            (all_segments-Idle (packing_step k) (λ j s row. refl) (λ j body row. refl)
              (λ j s body row. refl) json previous next)
            (all_reorderings-Idle (packing_step k) (λ j s body row. refl) previous next)))

  abbrev packing_kind : Kind PackingItem
  packing_kind = record {
    key = λ i. i.id;
    owner = λ i. i.journey_id;
    fields = item_fields;
    IsNew = λ i. i.packed_quantity ≡ integer (pos 0);
    IsTold = IsFollowed json;
    delete_call = λ i. Request.delete_packing i.journey_id i.id;
    calls_for = packing_calls json;
  }

  packing_step-IsReplayed : IsReplayed packing_kind k (packing_step k)
  packing_step-IsReplayed = record {
    orphans = λ j row. refl;
    deletes = λ i row. refl;
    others = others;
    creates = creates;
    updates = updates;
  }

  -- A packing item that is on the server with its journey, with the fields of its body and with its
  -- packed quantity if it is in the old data, and is not on it otherwise, is so for the next data
  -- once all calls of a save are made: where in the next data no id is twice, in both the items
  -- belong to journeys, nothing of an item that is new is packed, and items with one id have one
  -- journey, bodies that `json` tells apart, a next packed quantity that is an integer from 0 to the
  -- next quantity, and, where the body changes, that is the old one, at most the next quantity.
  pub save_calls-packing :
      (previous next : JourneyData)
      → DistinctBy (λ i. i.id) next.packing_items
      → All (λ i. has_journey previous.journeys i.journey_id ≡ true) previous.packing_items
      → All (λ i. has_journey next.journeys i.journey_id ≡ true) next.packing_items
      → All
          (λ i.
            All
              (λ j. i.id ≡ j.id → (i.journey_id ≡ j.journey_id) × IsFollowed json i j)
              next.packing_items)
          previous.packing_items
      → All
          (λ i.
            find? (λ j. j.id == i.id) previous.packing_items ≡ none
            → i.packed_quantity ≡ integer (pos 0))
          next.packing_items
      → run
          (packing_step k)
          (save_calls json previous next)
          (packing_row (find? (λ i. i.id == k) previous.packing_items))
        ≡ packing_row (find? (λ i. i.id == k) next.packing_items)
  unfolding save_calls packing_deletions
  save_calls-packing previous next d hp hn hs hnew =
      let deleted = segment_deletions previous next in
      let segments = segment_changes json previous next in
      let moved = all_reorderings previous next in
      let last =
        each_of (λ i. is_living next i.journey_id && not (has_item next.packing_items i.id))
          (λ i. Request.delete_packing i.journey_id i.id) previous.packing_items
        ++ packing_changes json previous next in
      let result =
        run-calls packing_kind k (packing_step k) packing_step-IsReplayed previous next
          previous.packing_items next.packing_items hp hn hs hnew (before previous next) []
          (before-Idle previous next) (λ row. refl) d in
      rw
        (
          append_assoc (journey_changes previous next) (deleted ++ (segments ++ moved)) last,
          append_assoc deleted (segments ++ moved) last,
          append_assoc segments moved last,
        )
        at (rw (append-nil (packing_changes json previous next)) at result)

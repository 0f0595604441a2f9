-- ===== src/Harness/Execution/Appending.antt =====
-- Transactions that append receipts and events and keep the rest, and that the loops of
-- `executeCommands` are such.
use trax_os.Common.{
  any-append, eq_iff, Bool-cases, inl, inr, false, suc, ◌==◌, ℕ, List, [], ◌∷◌, ◌++◌, ◌≡◌, refl,
  sym, ◌∙◌, ap, ap₂, map, ◌==◌, ◌&&◌, err, WhenOk, WhenOk-eq-ok, WhenOk-bind, WhenOk-if, any,
  if◌then◌else◌, arith, eqb,
}
use mathlib.Core.List.{append_assoc, append-nil}
use trax_os.Harness.Database.{Resource, Receipt, Event, Database, duplicate_key}
use trax_os.Harness.Protocol.{Command, ResultCode, update, soft_delete}
use trax_os.Harness.Server.{Platform, Caller, has_key, insert_receipt}
use trax_os.Harness.Rows.{insert_event, update_resource, changed, resource_of}
use trax_os.Harness.Execution.{store_conflicts, apply_commands}

-- No primary key is taken twice.
abbrev pub AreKeyed : List Receipt → Type 0
AreKeyed [] = Unit
AreKeyed (r ∷ rs) = (any (has_key r) rs ≡ false) × AreKeyed rs

AreKeyed-append :
    (rs : List Receipt) (r : Receipt)
    → any (has_key r) rs ≡ false
    → AreKeyed rs
    → AreKeyed (rs ++ r ∷ [])
AreKeyed-append [] r e h = (refl, tt)
AreKeyed-append (q ∷ rs) r e (f, h) = (
  any-append (has_key q) rs (r ∷ [])
      ∙ ground (
        arith,
        eq_iff q.user_id r.user_id,
        eq_iff q.command_id r.command_id,
        eq_iff r.user_id q.user_id,
        eq_iff r.command_id q.command_id,
      ),
  AreKeyed-append rs r (ground arith) h,
)

pub record IsExtension (db db' : Database) : Type 0 where
  pub receipts : (new : List Receipt) × (db'.receipts ≡ db.receipts ++ new)
  pub keyed : AreKeyed db.receipts → AreKeyed db'.receipts
  pub events : (new : List Event) × (db'.events ≡ db.events ++ new)
  pub replicas : db'.replicas ≡ db.replicas
  pub grants : db'.grants ≡ db.grants
  pub ids : map (λ r. r.id) db'.resources ≡ map (λ r. r.id) db.resources

pub IsExtension-refl : (db : Database) → IsExtension db db
IsExtension-refl db = record {
  receipts = ([], sym (append-nil db.receipts));
  keyed = λ h. h;
  events = ([], sym (append-nil db.events));
  replicas = refl;
  grants = refl;
  ids = refl;
}

pub append_trans :
    {A : Type 0} (xs ys zs : List A)
    → (new : List A) × (ys ≡ xs ++ new)
    → (new : List A) × (zs ≡ ys ++ new)
    → (new : List A) × (zs ≡ xs ++ new)
append_trans xs ys zs (n, e) (m, f) = (n ++ m, f ∙ (ap (λ l. l ++ m) e ∙ append_assoc xs n m))

pub IsExtension-trans : {a b c : Database} → IsExtension a b → IsExtension b c → IsExtension a c
IsExtension-trans h k = record {
  receipts = append_trans _ _ _ h.receipts k.receipts;
  keyed = λ p. k.keyed (h.keyed p);
  events = append_trans _ _ _ h.events k.events;
  replicas = k.replicas ∙ h.replicas;
  grants = k.grants ∙ h.grants;
  ids = k.ids ∙ h.ids;
}

pub appended :
    (r : Receipt) (db : Database)
    → any (has_key r) db.receipts ≡ false
    → IsExtension db (record db { receipts = db.receipts ++ r ∷ [] })
appended r db e = record {
  receipts = (r ∷ [], refl);
  keyed = AreKeyed-append db.receipts r e;
  events = ([], sym (append-nil db.events));
  replicas = refl;
  grants = refl;
  ids = refl;
}

insert_receipt-IsExtension :
    (r : Receipt) (db : Database) → WhenOk (IsExtension db) (insert_receipt r db)
unfolding insert_receipt
insert_receipt-IsExtension r db = elim (Bool-cases (any (has_key r) db.receipts)) [
  | inl taken ↦ rw (WhenOk, taken) tt
  | inr free ↦ rw (WhenOk, free) (appended r db free)
]

insert_event-IsExtension : (e : Event) (db : Database) → WhenOk (IsExtension db) (insert_event e db)
unfolding insert_event
insert_event-IsExtension e db =
    WhenOk-if (IsExtension db)
      (any
        (λ f.
          f.user_id == e.user_id
          && f.command_id == e.command_id
          && eqb f.event_ordinal e.event_ordinal)
        db.events)
      (err duplicate_key) _ tt
      (record {
        receipts = ([], sym (append-nil db.receipts));
        keyed = λ h. h;
        events = (e ∷ [], refl);
        replicas = refl;
        grants = refl;
        ids = refl;
      })

module _ (platform : Platform) where
  id-changed :
      (c : Command) (r : Resource)
      → (if r.id == c.resource_id then changed platform c r else r).id ≡ r.id
  id-changed c r =
      elim c.kind
        as (λ k.
          (if r.id == c.resource_id then changed platform (record c { kind = k }) r else r).id
          ≡ r.id) [ update ↦ ground arith | soft_delete ↦ ground arith ]

  ids-update :
      (c : Command) (rs : List Resource)
      → map (λ r. r.id) (map (λ r. if r.id == c.resource_id then changed platform c r else r) rs)
        ≡ map (λ r. r.id) rs
  ids-update c [] = refl
  ids-update c (r ∷ rs) = ap₂ ◌∷◌ (id-changed c r) (ids-update c rs)

  update_resource-IsExtension :
      (c : Command) (db : Database) → IsExtension db (update_resource platform c db)
  update_resource-IsExtension c db = record {
    receipts = ([], sym (append-nil db.receipts));
    keyed = λ h. h;
    events = ([], sym (append-nil db.events));
    replicas = refl;
    grants = refl;
    ids = ids-update c db.resources;
  }

  pub store_conflicts-IsExtension :
      (caller : Caller) (attempt : ℕ) (code : ResultCode) (rows : List Resource) (cs : List Command)
      (db : Database)
      → WhenOk (λ x. IsExtension db x.0) (store_conflicts platform caller attempt code rows cs db)
  unfolding store_conflicts
  store_conflicts-IsExtension caller attempt code rows [] db = IsExtension-refl db
  store_conflicts-IsExtension caller attempt code rows (c ∷ cs) db =
      WhenOk-bind _ (resource_of rows c) _ λ row _.
        WhenOk-bind _ (insert_receipt _ db) _ λ db' inserted.
          WhenOk-bind _ (store_conflicts platform caller attempt code rows cs db') _ λ rest stored.
            IsExtension-trans (WhenOk-eq-ok _ _ (insert_receipt-IsExtension _ db) inserted) (
              WhenOk-eq-ok _ _ (store_conflicts-IsExtension caller attempt code rows cs db') stored)

  pub apply_commands-IsExtension :
      (caller : Caller) (attempt n : ℕ) (cs : List Command) (db : Database)
      → WhenOk (λ x. IsExtension db x.0) (apply_commands platform caller attempt n cs db)
  unfolding apply_commands
  apply_commands-IsExtension caller attempt n [] db = IsExtension-refl db
  apply_commands-IsExtension caller attempt n (c ∷ cs) db =
      WhenOk-bind _ (insert_event _ _) _ λ db' event.
        WhenOk-bind _ (insert_receipt _ db') _ λ db'' inserted.
          WhenOk-bind _ (apply_commands platform caller attempt (suc n) cs db'') _ λ rest later.
            IsExtension-trans (update_resource-IsExtension c db) (
              IsExtension-trans (WhenOk-eq-ok _ _ (insert_event-IsExtension _ _) event) (
                IsExtension-trans (WhenOk-eq-ok _ _ (insert_receipt-IsExtension _ db') inserted) (
                  WhenOk-eq-ok _ _ (apply_commands-IsExtension caller attempt (suc n) cs db'')
                    later)))

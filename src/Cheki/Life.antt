-- ===== src/Cheki/Life.antt =====
-- The life of a record over the operations of server/apps/cheki/services.py.
use assen_platform.Common.{
  ℕ, ◌==◌, ◌≡◌, refl, ap, ◌∙◌, true, none, some, List, [], ◌∷◌, Text, arith, ◌⊎◌, inl, inr,
  Bool-cases, Option-cases,
}
use assen_platform.Common.Table.{find, update, find-update, write_if}
use assen_platform.Errors.{Check, pass, stop}
use assen_platform.Identity.{Account}
use assen_platform.Cheki.Service.{
  VisitRecord, ChekiRecord, ChekiDb, ChekiError, ChekiIn, ChekiChange, cheki_row, is_voided,
  is_excluded, cheki_of, correct, void_with, save_cheki, record_cheki, correct_cheki, void_cheki,
}

-- What a record may become: it keeps its visit, fan and cast; once excluded from settlement it
-- stays so, once voided it stays so, and where it has been voided since, it is excluded.
pub record Continues (r r' : ChekiRecord) : Type 0 where
  pub visit : r'.visit ≡ r.visit
  pub fan : r'.fan ≡ r.fan
  pub cast_id : r'.cast_id ≡ r.cast_id
  pub excluded : is_excluded r.settlement_status ≡ true → is_excluded r'.settlement_status ≡ true
  pub voided : is_voided r.status ≡ true → is_voided r'.status ≡ true
  pub since :
      is_voided r'.status ≡ true
      → (is_voided r.status ≡ true) ⊎ (is_excluded r'.settlement_status ≡ true)

Continues-same : (r : ChekiRecord) → Continues r r
Continues-same r = record {
  visit = refl;
  fan = refl;
  cast_id = refl;
  excluded = λ h. h;
  voided = λ h. h;
  since = λ h. inl h;
}

Continues-then : (r r' r'' : ChekiRecord) → Continues r r' → Continues r' r'' → Continues r r''
Continues-then r r' r'' c d = record {
  visit = d.visit ∙ c.visit;
  fan = d.fan ∙ c.fan;
  cast_id = d.cast_id ∙ c.cast_id;
  excluded = λ h. d.excluded (c.excluded h);
  voided = λ h. d.voided (c.voided h);
  since = λ h. elim (d.since h) [
    | inr out ↦ inr out
    | inl before ↦ elim (c.since before) [ inl x ↦ inl x | inr out ↦ inr (d.excluded out) ]
  ];
}

correct-Continues : (p : ChekiChange) (r : ChekiRecord) → Continues r (correct p r)
correct-Continues p r = record {
  visit = refl;
  fan = refl;
  cast_id = refl;
  excluded = λ h. h;
  voided = λ h. h;
  since = λ h. inl h;
}

void-Continues : (reason : Text) (r : ChekiRecord) → Continues r (void_with reason r)
void-Continues reason r = record {
  visit = refl;
  fan = refl;
  cast_id = refl;
  excluded = λ h. refl;
  voided = λ h. refl;
  since = λ h. inr refl;
}

-- The row of a key goes on.
Kept : ℕ → ChekiRecord → ChekiDb → Type 0
Kept id r db = (r' : ChekiRecord) × (find id db.records ≡ some r') × Continues r r'

saved-Kept :
    (f : ChekiRecord → ChekiRecord) (stale : ChekiRecord) (db : ChekiDb) (id : ℕ) (r : ChekiRecord)
    → ((x : ChekiRecord) → (f x).id ≡ x.id)
    → ((x : ChekiRecord) → Continues x (f x))
    → find id db.records ≡ some r
    → (r' : ChekiRecord) × (find id (update stale.id (λ _. true) f db.records) ≡ some r')
      × Continues r r'
saved-Kept f stale db id r ids each e =
    let read = find-update stale.id (λ _. true) f ids id db.records in
    elim (Bool-cases (stale.id == id)) [
      | inr away ↦ (r, ground (arith, away, read), Continues-same r)
      | inl here ↦ (f r, read ∙ rw here (ap (write_if (λ _. true) f) e), each r)
    ]

record-Kept :
    (key : ℕ) (visit : VisitRecord) (actor : Account) (payload : ChekiIn) (db db' : ChekiDb)
    (made : ChekiRecord) (id : ℕ) (r : ChekiRecord)
    → record_cheki key visit actor payload db ≡ pass (made, db')
    → find id db.records ≡ some r
    → Kept id r db'
unfolding record_cheki Kept find
record-Kept key visit actor payload db db' made id r h e =
    elim (Option-cases (find key db.records)) [
      | inr (old, taken) ↦ ground arith
      | inl new ↦
          let table : db'.records ≡ cheki_of key visit actor payload ∷ db.records = ground arith in
          (
            r,
            rw table (elim (Bool-cases (key == id)) [
              | inr away ↦ ground (arith, away, e)
              | inl here ↦
                  let none_there : find id db.records ≡ none =
                    ap (λ (i : ℕ). find i db.records) (ground arith) ∙ new in
                  ground arith
            ]),
            Continues-same r,
          )
    ]

correct-Kept :
    (stale : ChekiRecord) (actor : Account) (payload : ChekiChange) (db db' : ChekiDb)
    (answer : ChekiRecord) (id : ℕ) (r : ChekiRecord)
    → correct_cheki stale actor payload db ≡ pass (answer, db')
    → find id db.records ≡ some r
    → Kept id r db'
unfolding correct_cheki save_cheki Kept
correct-Kept stale actor payload db db' answer id r h e =
    let table : (db'.records ≡ db.records)
        ⊎ (db'.records ≡ update stale.id (λ _. true) (correct payload) db.records) =
      elim (Option-cases (find stale.id db.records)) [
        | inl gone ↦ ground arith
        | inr (stored, found) ↦ ground arith
      ] in
    elim table [
      | inl same ↦ (r, rw same e, Continues-same r)
      | inr written ↦
          rw written
            (saved-Kept (correct payload) stale db id r (λ x. refl) (correct-Continues payload) e)
    ]

void-Kept :
    (stale : ChekiRecord) (actor : Account) (reason : Text) (db db' : ChekiDb)
    (answer : ChekiRecord) (id : ℕ) (r : ChekiRecord)
    → void_cheki stale actor reason db ≡ pass (answer, db')
    → find id db.records ≡ some r
    → Kept id r db'
unfolding void_cheki save_cheki Kept
void-Kept stale actor reason db db' answer id r h e =
    elim (Option-cases (find stale.id db.records)) [
      | inl gone ↦ ground arith
      | inr (stored, found) ↦
          let written : db'.records ≡ update stale.id (λ _. true) (void_with reason) db.records =
            ground arith in
          rw written
            (saved-Kept (void_with reason) stale db id r (λ x. refl) (void-Continues reason) e)
    ]

pub data ChekiCall : Type 0 where
  enter : ℕ → VisitRecord → Account → ChekiIn → ChekiCall
  amend : ChekiRecord → Account → ChekiChange → ChekiCall
  annul : ChekiRecord → Account → Text → ChekiCall

-- The state after an operation; an error rolls it back.
abbrev committed : ChekiDb → Check ChekiError (ChekiRecord × ChekiDb) → ChekiDb
committed db (pass (r, db')) = db'
committed db (stop error) = db

unfoldable pub operate_cheki : ChekiCall → ChekiDb → ChekiDb
operate_cheki (enter id visit actor payload) db =
    committed db (record_cheki id visit actor payload db)
operate_cheki (amend r actor payload) db = committed db (correct_cheki r actor payload db)
operate_cheki (annul r actor reason) db = committed db (void_cheki r actor reason db)

unfoldable pub operate_chekis : List ChekiCall → ChekiDb → ChekiDb
operate_chekis [] db = db
operate_chekis (o ∷ calls) db = operate_chekis calls (operate_cheki o db)

committed-Kept :
    (db : ChekiDb) (m : Check ChekiError (ChekiRecord × ChekiDb)) (id : ℕ) (r : ChekiRecord)
    → find id db.records ≡ some r
    → ((a : ChekiRecord) (db' : ChekiDb) → m ≡ pass (a, db') → Kept id r db')
    → Kept id r (committed db m)
unfolding Kept
committed-Kept db (pass (a, db')) id r e each = each a db' refl
committed-Kept db (stop error) id r e each = (r, e, Continues-same r)

operate_cheki-Kept :
    (o : ChekiCall) (db : ChekiDb) (id : ℕ) (r : ChekiRecord)
    → find id db.records ≡ some r
    → Kept id r (operate_cheki o db)
unfolding operate_cheki
operate_cheki-Kept (enter key visit actor payload) db id r e =
    committed-Kept db _ id r e (λ a db' h. record-Kept key visit actor payload db db' a id r h e)
operate_cheki-Kept (amend stale actor payload) db id r e =
    committed-Kept db _ id r e (λ a db' h. correct-Kept stale actor payload db db' a id r h e)
operate_cheki-Kept (annul stale actor reason) db id r e =
    committed-Kept db _ id r e (λ a db' h. void-Kept stale actor reason db db' a id r h e)

-- Over any sequence of recording, correcting and voiding, refused operations and stale records
-- included, a record stays in the table with its visit, fan and cast; once it is excluded from
-- settlement it stays so, once voided it stays voided, and where it has been voided on the way it
-- is excluded.
pub operate_chekis-Continues :
    (calls : List ChekiCall) (db : ChekiDb) (id : ℕ) (r : ChekiRecord)
    → find id db.records ≡ some r
    → (r' : ChekiRecord) × (find id (operate_chekis calls db).records ≡ some r') × Continues r r'
unfolding operate_chekis Kept
operate_chekis-Continues [] db id r e = (r, e, Continues-same r)
operate_chekis-Continues (o ∷ calls) db id r e =
    let (mid, found, first) = operate_cheki-Kept o db id r e in
    let (r', there, rest) = operate_chekis-Continues calls (operate_cheki o db) id mid found in
    (r', there, Continues-then r mid r' first rest)

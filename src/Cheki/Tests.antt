-- ===== src/Cheki/Tests.antt =====
-- Runs of server/apps/cheki/services.py on small tables.
use assen_platform.Common.{◌≡◌, refl, true, false, Option, none, some, [], ◌∷◌, List}
use assen_platform.Common.Table.{find, update}
use assen_platform.Identity.{Account, Role, KycStatus}
use assen_platform.Cheki.Service.{
  VisitRecord, VisitRecordStatus, ChekiType, ChekiSettlementStatus, ChekiRecord, ChekiDb, ChekiIn,
  ChekiChange, cheki_row, cheki_of, correct_cheki, save_cheki,
}
use assen_platform.Cheki.Life.{
  ChekiCall, amend, annul, operate_cheki, operate_chekis, Continues, operate_chekis-Continues,
}

abbrev clerk : Account
clerk = record {
  id = 9;
  role = Role.fan;
  is_active = true;
  adult_verified = false;
  kyc_status = KycStatus.verified;
}

abbrev visit : VisitRecord
visit = record { id = 3; fan = 1; status = VisitRecordStatus.kept_visit }

abbrev sale : ChekiIn
sale = record {
  cast_id = 65 ∷ [];
  cheki_type = ChekiType.basic;
  quantity = 2;
  image_stored = false;
  consent_scope = [];
  pos_receipt_no = [];
}

abbrev sold : ChekiRecord
sold = cheki_of 40 visit clerk sale

abbrev one_sale : ChekiDb
one_sale = record { records = sold ∷ []; events = []; audits = [] }

abbrev to_test : ChekiChange
to_test = record {
  cheki_type = some ChekiType.test;
  quantity = none;
  consent_scope = none;
  pos_receipt_no = none;
}

-- The type and the settlement status of a row.
abbrev standing : Option ChekiRecord → Option (ChekiType × ChekiSettlementStatus)
standing none = none
standing (some r) = some (r.cheki_type, r.settlement_status)

-- A record corrected to the type `test` stays a candidate for settlement.
to_test_run :
    standing (find 40 (operate_chekis (amend sold clerk to_test ∷ []) one_sale).records)
    ≡ some (ChekiType.test, ChekiSettlementStatus.candidate)
unfolding operate_chekis operate_cheki correct_cheki save_cheki find update
to_test_run = refl

abbrev calls : List ChekiCall
calls = annul sold clerk (66 ∷ []) ∷ amend sold clerk to_test ∷ []

operate_chekis-Continues_example :
    (r' : ChekiRecord) × (find 40 (operate_chekis calls one_sale).records ≡ some r')
    × Continues sold r'
unfolding find
operate_chekis-Continues_example = operate_chekis-Continues calls one_sale 40 sold refl

-- ===== src/Contracts/Tests.antt =====
-- A contract from an award to its renewal, and the theorem at it.
use enterprise_ai_procuremen.Prelude.{none, some, [], ◌∷◌, List, arith}
use enterprise_ai_procuremen.Samples.{administrator, surroundings, empty}
use enterprise_ai_procuremen.Contracts.Schema.{ContractType, Contracting}
use enterprise_ai_procuremen.Contracts.Validity.{AllValid}
use enterprise_ai_procuremen.Contracts.History.{Call, Request, run, run-AllValid}

abbrev start : Contracting
start = record { database = empty; contracts = [] }

start-AllValid : AllValid start
start-AllValid = record { keyed = tt; valid = λ k c l. absurd (ground arith) }

abbrev calls : List Call
calls =
    (
      administrator,
      Request.creates surroundings (record {
        award_id = some 3;
        purchase_order_id = none;
        title = "Pens";
        description = "Pens and pads";
        contract_type = ContractType.goods;
        start_date = 600;
        end_date = 700;
        value = 30;
        currency = none;
        renewal_type = none;
        renewal_date = none;
        auto_renew = none;
        signed_by_organisation = none;
        signed_by_vendor = none;
      }),
    )
    ∷ (administrator, Request.activates 99)
    ∷ (
      administrator,
      Request.renews 99 (record {
        start_date = 700;
        end_date = 800;
        value = none;
        renewal_date = none;
        change_summary = "Another year";
      }),
    )
    ∷ []

run-AllValid_example : AllValid (run calls start)
run-AllValid_example = run-AllValid calls start start-AllValid

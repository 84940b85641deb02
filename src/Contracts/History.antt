-- ===== src/Contracts/History.antt =====
-- Contracts over any requests, by any callers.
use enterprise_ai_procuremen.Prelude.{
  ℕ, ◌≡◌, refl, sym, subst, false, Option, none, some, List, [], ◌∷◌, String, arith, leb,
}
use enterprise_ai_procuremen.Results.{bad_request}
use enterprise_ai_procuremen.Schema.{DocumentNumber}
use enterprise_ai_procuremen.Database.{Caller, Surroundings}
use enterprise_ai_procuremen.Contracts.Schema.{ChangeSummary, contract_status_enum, Contracting, M}
use enterprise_ai_procuremen.Contracts.Dto.{
  CreateContractDto, UpdateContractDto, RenewContractDto, UploadContractDocumentDto,
}
use enterprise_ai_procuremen.Contracts.Service.{
  ContractSource, create, new_contract, resolve_source, generate_contract_number, update, delete,
  activate, renew, terminate, expire, upload_document,
}
use enterprise_ai_procuremen.Contracts.Validity.{
  IsValid, AllValid, Keeps, bind-Keeps, throw_if-then, create_contract-Keeps, first_version-Keeps,
}
use enterprise_ai_procuremen.Contracts.Changes.{
  assert_can_manage-Keeps, get_contract-Keeps, then-Keeps, activate-Keeps, expire-Keeps,
  terminate-Keeps, delete-Keeps, upload_document-Keeps, update-Keeps, renew-Keeps,
}

-- Reads leave everything as it is.
reads-Keeps : {A : Type 0} (m : M A) → ((s : Contracting) → (m s).1 ≡ s) → Keeps m
reads-Keeps m h = record { after = λ s v. subst AllValid (sym (h s)) v }

resolve_source-reads :
    (award order : Option ℕ) (org : ℕ) (s : Contracting) → (resolve_source award order org s).1 ≡ s
unfolding resolve_source
resolve_source-reads none none org s = refl
resolve_source-reads (some a) (some o) org s = refl
resolve_source-reads (some a) none org s = ground arith
resolve_source-reads none (some o) org s = ground arith

new-IsValid :
    (caller : Caller) (dto : CreateContractDto) (source : ContractSource) (number : DocumentNumber)
    → leb dto.end_date dto.start_date ≡ false
    → IsValid (new_contract caller dto source number)
new-IsValid caller dto source number e = record {
  dates = ground arith;
  numbered = tt;
  not_reviewed = λ e. cc;
  not_renewed = λ e. cc;
}

create-Keeps :
    (env : Surroundings) (caller : Caller) (dto : CreateContractDto) → Keeps (create env caller dto)
unfolding create generate_contract_number
create-Keeps env caller dto = then-Keeps _ _ (assert_can_manage-Keeps caller) (
    bind-Keeps _ _
      (reads-Keeps (resolve_source dto.award_id dto.purchase_order_id caller.organisation_id)
        (resolve_source-reads dto.award_id dto.purchase_order_id caller.organisation_id))
      λ source.
        throw_if-then (leb dto.end_date dto.start_date)
          (bad_request "End date must be after start date") _
          λ later.
            bind-Keeps _ _
              (reads-Keeps (generate_contract_number env.year caller.organisation_id) (λ s. refl))
              λ number.
                then-Keeps _ _
                  (create_contract-Keeps env.new_id (new_contract caller dto source number)
                    (new-IsValid caller dto source number later))
                  (then-Keeps _ _
                    (first_version-Keeps env.new_id
                      (record {
                        version = 1;
                        change_summary = ChangeSummary.created;
                        created_by_id = caller.user_id;
                      })
                      refl)
                    (get_contract-Keeps caller.organisation_id env.new_id)))

-- the requests that write
pub data Request : Type 0 where
  creates : Surroundings → CreateContractDto → Request
  updates : ℕ → UpdateContractDto → Request
  deletes activates expires : ℕ → Request
  renews : ℕ → RenewContractDto → Request
  terminates : ℕ → String → Request
  uploads : ℕ → UploadContractDocumentDto → Request

-- the tables after a request, whether it succeeds or not
unfoldable pub perform : Caller → Request → Contracting → Contracting
perform c (creates env dto) s = (create env c dto s).1
perform c (updates id dto) s = (update c id dto s).1
perform c (deletes id) s = (delete c id s).1
perform c (activates id) s = (activate c id s).1
perform c (expires id) s = (expire c id s).1
perform c (renews id dto) s = (renew c id dto s).1
perform c (terminates id reason) s = (terminate c id reason s).1
perform c (uploads id dto) s = (upload_document c id dto s).1

perform-AllValid :
    (c : Caller) (r : Request) (s : Contracting) → AllValid s → AllValid (perform c r s)
unfolding perform
perform-AllValid c (creates env dto) s v = (create-Keeps env c dto).after s v
perform-AllValid c (updates id dto) s v = (update-Keeps c id dto).after s v
perform-AllValid c (deletes id) s v = (delete-Keeps c id).after s v
perform-AllValid c (activates id) s v = (activate-Keeps c id).after s v
perform-AllValid c (expires id) s v = (expire-Keeps c id).after s v
perform-AllValid c (renews id dto) s v = (renew-Keeps c id dto).after s v
perform-AllValid c (terminates id reason) s v = (terminate-Keeps c id reason).after s v
perform-AllValid c (uploads id dto) s v = (upload_document-Keeps c id dto).after s v

abbrev pub Call : Type 0
Call = Caller × Request

unfoldable pub run : List Call → Contracting → Contracting
run [] s = s
run ((c, r) ∷ calls) s = run calls (perform c r s)

-- Over any sequence of requests by any callers, if it holds at the start: no primary key of a contract
-- stands twice, and every contract starts before it ends, has versions numbered from 1 without gaps in
-- their order, and has neither the status under review nor the status renewed.
pub run-AllValid : (calls : List Call) (s : Contracting) → AllValid s → AllValid (run calls s)
unfolding run
run-AllValid [] s v = v
run-AllValid ((c, r) ∷ calls) s v = run-AllValid calls (perform c r s) (perform-AllValid c r s v)

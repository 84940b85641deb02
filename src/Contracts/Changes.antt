-- ===== src/Contracts/Changes.antt =====
-- Each change of a contract keeps all contracts valid.
use enterprise_ai_procuremen.Prelude.{ℕ, ◌≡◌, ◌≢◌, false, [], ◌∷◌, ◌++◌, String, arith, leb}
use enterprise_ai_procuremen.Results.{bad_request, not_found, ◌>>=◌, ◌>>◌, ◌===◌, or_else}
use enterprise_ai_procuremen.Database.{Caller}
use enterprise_ai_procuremen.Contracts.Schema.{
  Contract, ContractDocument, ContractStatus, ChangeSummary, contract_status_enum, M,
}
use enterprise_ai_procuremen.Contracts.Repository.{
  with_status, activate_contract, terminate_contract, expire_contract, renew_contract,
  insert_document,
}
use enterprise_ai_procuremen.Contracts.Dto.{
  UpdateContractDto, RenewContractDto, UploadContractDocumentDto,
}
use enterprise_ai_procuremen.Contracts.Service.{
  is_closed, is_editable, new_document, update_summary, assert_can_manage, get_contract_or_throw,
  assert_editable, edited, update, delete, activate, renew, renewed_terms, terminate, expire,
  upload_document,
}
use enterprise_ai_procuremen.Contracts.Validity.{
  IsValid, Keeps, bind-Keeps, gets-Keeps, or_throw-Keeps, throw_unless-Keeps, throw_if-then,
  update_contract-Keeps, delete_contract-Keeps, record_version-Keeps,
}

pub assert_can_manage-Keeps : (caller : Caller) → Keeps (assert_can_manage caller.role)
unfolding assert_can_manage
assert_can_manage-Keeps caller = throw_unless-Keeps _ _

pub get_contract-Keeps : (org id : ℕ) → Keeps (get_contract_or_throw org id)
unfolding get_contract_or_throw
get_contract-Keeps org id =
    bind-Keeps _ _ (gets-Keeps _) λ c. or_throw-Keeps c (not_found "Contract not found")

status-IsValid :
    (status : ContractStatus) (c : Contract)
    → status ≢ ContractStatus.under_review
    → status ≢ ContractStatus.renewed
    → IsValid c
    → IsValid (with_status status c)
status-IsValid status c r n h = record {
  dates = h.dates;
  numbered = h.numbered;
  not_reviewed = r;
  not_renewed = n;
}

-- What `getContractOrThrow` and the role come to before each write.
pub guarded-Keeps :
    {A : Type 0} (caller : Caller) (id : ℕ) (m : Contract → M A)
    → ((c : Contract) → Keeps (m c))
    → Keeps
        (assert_can_manage caller.role >> (get_contract_or_throw caller.organisation_id id >>= m))
guarded-Keeps caller id m h =
    bind-Keeps (assert_can_manage caller.role) _ (assert_can_manage-Keeps caller) λ _.
      bind-Keeps (get_contract_or_throw caller.organisation_id id) m
        (get_contract-Keeps caller.organisation_id id) h

pub then-Keeps : {A B : Type 0} (m : M A) (k : M B) → Keeps m → Keeps k → Keeps (m >> k)
then-Keeps m k h j = bind-Keeps m (λ _. k) h λ _. j

pub activate-Keeps : (caller : Caller) (id : ℕ) → Keeps (activate caller id)
unfolding activate activate_contract
activate-Keeps caller id = guarded-Keeps caller id _ λ c. then-Keeps _ _ (throw_unless-Keeps _ _) (
    bind-Keeps _ _
      (update_contract-Keeps id _
        λ d h. status-IsValid ContractStatus.active d (λ e. cc) (λ e. cc) h)
      λ a. then-Keeps _ _ (record_version-Keeps id caller.user_id _) (gets-Keeps λ _. a))

pub expire-Keeps : (caller : Caller) (id : ℕ) → Keeps (expire caller id)
unfolding expire expire_contract
expire-Keeps caller id = guarded-Keeps caller id _ λ c. then-Keeps _ _ (throw_unless-Keeps _ _) (
    bind-Keeps _ _
      (update_contract-Keeps id _
        λ d h. status-IsValid ContractStatus.expired d (λ e. cc) (λ e. cc) h)
      λ a. then-Keeps _ _ (record_version-Keeps id caller.user_id _) (gets-Keeps λ _. a))

pub terminate-Keeps :
    (caller : Caller) (id : ℕ) (reason : String) → Keeps (terminate caller id reason)
unfolding terminate terminate_contract
terminate-Keeps caller id reason = guarded-Keeps caller id _ λ c.
    throw_if-then (c.status === ContractStatus.terminated)
      (bad_request "Contract is already terminated") _
      λ _.
        throw_if-then (c.status === ContractStatus.expired)
          (bad_request "Expired contracts cannot be terminated") _
          λ _.
            bind-Keeps _ _
              (update_contract-Keeps id _
                λ d h. status-IsValid ContractStatus.terminated d (λ e. cc) (λ e. cc) h)
              λ a.
                then-Keeps _ _
                  (record_version-Keeps id caller.user_id
                    (ChangeSummary.contract_terminated reason))
                  (gets-Keeps λ _. a)

pub delete-Keeps : (caller : Caller) (id : ℕ) → Keeps (delete caller id)
unfolding delete
delete-Keeps caller id =
    guarded-Keeps caller id _
      λ c. then-Keeps _ _ (throw_unless-Keeps _ _) (delete_contract-Keeps id)

pub insert_document-Keeps : (id : ℕ) (doc : ContractDocument) → Keeps (insert_document id doc)
unfolding insert_document
insert_document-Keeps id doc =
    update_contract-Keeps id (λ c. record c { documents = c.documents ++ (doc ∷ []) })
      λ c h. record {
        dates = h.dates;
        numbered = h.numbered;
        not_reviewed = h.not_reviewed;
        not_renewed = h.not_renewed;
      }

pub upload_document-Keeps :
    (caller : Caller) (id : ℕ) (dto : UploadContractDocumentDto)
    → Keeps (upload_document caller id dto)
unfolding upload_document
upload_document-Keeps caller id dto = guarded-Keeps caller id _ λ c.
    throw_if-then (is_closed c.status)
      (bad_request "Documents cannot be uploaded to expired or terminated contracts") _
      λ _. then-Keeps _ _ (insert_document-Keeps id (new_document caller dto)) (
        then-Keeps _ _
          (record_version-Keeps id caller.user_id (ChangeSummary.document_uploaded dto.file_name))
          (get_contract-Keeps caller.organisation_id id))

pub assert_editable-Keeps : (c : Contract) → Keeps (assert_editable c)
unfolding assert_editable
assert_editable-Keeps c =
    throw_if-then (is_closed c.status)
      (bad_request "Expired or terminated contracts cannot be edited") _
      λ _.
        throw_if-then (c.status === ContractStatus.terminated)
          (bad_request "Terminated contracts cannot be reactivated") _
          λ _.
            throw_unless-Keeps (is_editable c.status)
              (bad_request "Only draft or under-review contracts can be edited")

edited-IsValid :
    (dto : UpdateContractDto) (start end_ : ℕ) (c : Contract)
    → leb end_ start ≡ false
    → IsValid c
    → IsValid (edited dto start end_ c)
edited-IsValid dto start end_ c e h = record {
  dates = ground arith;
  numbered = h.numbered;
  not_reviewed = h.not_reviewed;
  not_renewed = h.not_renewed;
}

pub update-Keeps :
    (caller : Caller) (id : ℕ) (dto : UpdateContractDto) → Keeps (update caller id dto)
unfolding update
update-Keeps caller id dto = guarded-Keeps caller id _ λ c.
    let start = or_else dto.start_date c.start_date in
    let end_ = or_else dto.end_date c.end_date in
    then-Keeps _ _ (assert_editable-Keeps c) (
      throw_if-then (leb end_ start) (bad_request "End date must be after start date") _ λ later.
        then-Keeps _ _
          (update_contract-Keeps id (edited dto start end_)
            λ d h. edited-IsValid dto start end_ d later h)
          (then-Keeps _ _
            (record_version-Keeps id caller.user_id (update_summary dto.change_summary))
            (get_contract-Keeps caller.organisation_id id)))

renewed-IsValid :
    (dto : RenewContractDto) (c : Contract)
    → leb dto.end_date dto.start_date ≡ false
    → IsValid c
    → IsValid (with_status ContractStatus.active (renewed_terms dto c))
renewed-IsValid dto c e h = record {
  dates = ground arith;
  numbered = h.numbered;
  not_reviewed = λ e. cc;
  not_renewed = λ e. cc;
}

pub renew-Keeps : (caller : Caller) (id : ℕ) (dto : RenewContractDto) → Keeps (renew caller id dto)
unfolding renew renew_contract
renew-Keeps caller id dto = guarded-Keeps caller id _ λ c.
    then-Keeps _ _
      (throw_unless-Keeps (c.status === ContractStatus.active)
        (bad_request "Only active contracts can be renewed"))
      (throw_if-then (leb dto.end_date dto.start_date)
        (bad_request "End date must be after start date") _
        λ later.
          then-Keeps _ _
            (record_version-Keeps id caller.user_id (ChangeSummary.period_ended dto.change_summary))
            (bind-Keeps _ _ (update_contract-Keeps id _ λ d h. renewed-IsValid dto d later h) λ a.
              then-Keeps _ _ (record_version-Keeps id caller.user_id ChangeSummary.new_period)
                (gets-Keeps λ _. a)))

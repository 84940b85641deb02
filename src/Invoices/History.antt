-- ===== src/Invoices/History.antt =====
-- Invoices over sequences of requests to the invoice service, by any callers.
use enterprise_ai_procuremen.Prelude.{
  ℕ, ◌≡◌, sym, ◌∙◌, ◌⊎◌, inl, inr, some, none, Option, List, [], ◌∷◌, arith, ◌==◌, ==_iff,
  Bool-cases, Option-cases,
}
use enterprise_ai_procuremen.Store.{
  lookup, insert, lookup-insert_ne, lookup-insert_self, IsKeyed, insert-IsKeyed,
}
use enterprise_ai_procuremen.Schema.{Invoice, InvoiceStatus}
use enterprise_ai_procuremen.Database.{Database, Caller, Surroundings}
use enterprise_ai_procuremen.Invoices.Service.{CreateInvoiceDto, create}
use enterprise_ai_procuremen.Invoices.Effects.{create_elim}
use enterprise_ai_procuremen.Invoices.Writes.{perform_frame, perform_absent, perform-IsKeyed}
use enterprise_ai_procuremen.Invoices.Lifecycle.{
  Request, perform, Outcome, invoice-Outcome, IsSound,
}

-- a request on an invoice, by a caller, or the creation of one
pub data Call : Type 0 where
  names : Caller → ℕ → Request → Call
  creates : Surroundings → Caller → CreateInvoiceDto → Call

abbrev pub caller_of : Call → Caller
caller_of (names caller id r) = caller
caller_of (creates env caller dto) = caller

unfoldable pub answer : Call → Database → Database
answer (names caller id r) db = perform caller id r db
answer (creates env caller dto) db = (create env caller dto db).1

unfoldable pub run : List Call → Database → Database
run [] db = db
run (call ∷ calls) db = run calls (answer call db)

answer-IsKeyed :
    (call : Call) (db : Database) → IsKeyed db.invoices → IsKeyed (answer call db).invoices
unfolding answer
answer-IsKeyed (names caller id r) db h = perform-IsKeyed caller id r db h
answer-IsKeyed (creates env caller dto) db h =
    create_elim env caller dto db (λ after. IsKeyed after.invoices) h
      λ i after (e, absent, own, draft). rw e (insert-IsKeyed env.new_id i db.invoices h)

-- A creation leaves every row that is there.
create_frame :
    (env : Surroundings) (caller : Caller) (dto : CreateInvoiceDto) (db : Database) (k : ℕ)
    (i : Invoice)
    → lookup k db.invoices ≡ some i
    → lookup k (create env caller dto db).1.invoices ≡ some i
create_frame env caller dto db k i e =
    create_elim env caller dto db (λ after. lookup k after.invoices ≡ some i) e
      λ j after (wrote, absent, own, draft).
        rw wrote (ground (arith, lookup-insert_ne k env.new_id j db.invoices))

perform_any :
    (caller : Caller) (id k : ℕ) (r : Request) (db : Database) (i : Invoice)
    → IsKeyed db.invoices
    → lookup k db.invoices ≡ some i
    → Outcome i (lookup k (perform caller id r db).invoices)
      ⊎ (lookup k (perform caller id r db).invoices ≡ some i)
perform_any caller id k r db i keyed e = elim (Bool-cases (k == id)) [
  | inl same ↦ inl (
      rw ((==_iff k id).0 same)
        (invoice-Outcome caller id db i (rw (← (==_iff k id).0 same) e) keyed r))
  | inr other ↦ inr (perform_frame caller id k r db i e (inl (ground arith)))
]

abbrev pub IsTerminal : Invoice → Type 0
IsTerminal i = (i.status ≡ InvoiceStatus.rejected) ⊎ (i.status ≡ InvoiceStatus.paid)

Outcome-terminal :
    (i : Invoice) (after : Option Invoice) → IsTerminal i → Outcome i after → after ≡ some i
Outcome-terminal i none t h = ground arith
Outcome-terminal i (some i') t h = ground arith

answer_terminal :
    (call : Call) (db : Database) (k : ℕ) (i : Invoice)
    → IsKeyed db.invoices
    → lookup k db.invoices ≡ some i
    → IsTerminal i
    → lookup k (answer call db).invoices ≡ some i
unfolding answer
answer_terminal (names caller id r) db k i keyed e t =
    elim (perform_any caller id k r db i keyed e) [
      | inl h ↦ Outcome-terminal i _ t h
      | inr same ↦ same
    ]
answer_terminal (creates env caller dto) db k i keyed e t = create_frame env caller dto db k i e

-- No sequence of requests to the invoice service, creations included, changes or removes an invoice
-- that is rejected or paid. The requests of other services are not among them.
pub closed_invoice_stays :
    (calls : List Call) (db : Database) (k : ℕ) (i : Invoice)
    → IsKeyed db.invoices
    → lookup k db.invoices ≡ some i
    → IsTerminal i
    → lookup k (run calls db).invoices ≡ some i
unfolding run
closed_invoice_stays [] db k i keyed e t = e
closed_invoice_stays (call ∷ calls) db k i keyed e t =
    closed_invoice_stays calls (answer call db) k i (answer-IsKeyed call db keyed)
      (answer_terminal call db k i keyed e t) t

-- The row of every key is sound, if there is one.
abbrev pub AllSound : Database → Type 0
AllSound db = (k : ℕ) (i : Invoice) → lookup k db.invoices ≡ some i → IsSound i

Outcome-IsSound :
    (i : Invoice) (after : Option Invoice) (i' : Invoice)
    → IsSound i
    → Outcome i after
    → after ≡ some i'
    → IsSound i'
Outcome-IsSound i none i' s h e = absurd (ground arith)
Outcome-IsSound i (some j) i' s h e = ground arith

none-some : {after : Option Invoice} {i : Invoice} → after ≡ none → after ≡ some i → ⊥
none-some n e = cc

same_row :
    {after : Option Invoice} {i i' : Invoice}
    → after ≡ some i
    → after ≡ some i'
    → IsSound i
    → IsSound i'
same_row e e' s = ground arith

perform-AllSound :
    (caller : Caller) (id : ℕ) (r : Request) (db : Database)
    → IsKeyed db.invoices
    → AllSound db
    → AllSound (perform caller id r db)
perform-AllSound caller id r db keyed sound k i' e' = elim (Option-cases (lookup k db.invoices)) [
  | inl n ↦ absurd (none-some (perform_absent caller id k r db n) e')
  | inr (i, e) ↦ elim (perform_any caller id k r db i keyed e) [
    | inl h ↦ Outcome-IsSound i _ i' (sound k i e) h e'
    | inr same ↦ same_row same e' (sound k i e)
  ]
]

-- A draft at a free key leaves every row sound.
added-IsSound :
    (db : Database) (id k : ℕ) (i i' : Invoice)
    → AllSound db
    → i.status ≡ InvoiceStatus.draft
    → lookup k (insert id i db.invoices) ≡ some i'
    → IsSound i'
added-IsSound db id k i i' sound draft e = elim (Bool-cases (k == id)) [
  | inl same ↦
      same_row {i = i} (rw ((==_iff k id).0 same) (lookup-insert_self id i db.invoices)) e
        (ground arith)
  | inr other ↦ sound k i' (sym (lookup-insert_ne k id i db.invoices (ground arith)) ∙ e)
]

answer-AllSound :
    (call : Call) (db : Database) → IsKeyed db.invoices → AllSound db → AllSound (answer call db)
unfolding answer
answer-AllSound (names caller id r) db keyed sound = perform-AllSound caller id r db keyed sound
answer-AllSound (creates env caller dto) db keyed sound =
    create_elim env caller dto db AllSound sound λ i after (wrote, absent, own, draft).
      λ k i' e. added-IsSound db env.new_id k i i' sound draft (rw wrote at e)

-- From a state where it holds, whatever the requests to the invoice service are, creations included,
-- every invoice that is matched, approved or paid has a recorded match.
pub run-AllSound :
    (calls : List Call) (db : Database)
    → IsKeyed db.invoices
    → AllSound db
    → AllSound (run calls db)
unfolding run
run-AllSound [] db keyed sound = sound
run-AllSound (call ∷ calls) db keyed sound =
    run-AllSound calls (answer call db) (answer-IsKeyed call db keyed)
      (answer-AllSound call db keyed sound)

-- Every caller of the sequence belongs to another organisation than `org`.
abbrev pub IsForeign : ℕ → List Call → Type 0
IsForeign org [] = Unit
IsForeign org (call ∷ calls) = ¬ (org ≡ (caller_of call).organisation_id) × IsForeign org calls

answer_foreign :
    (call : Call) (db : Database) (k : ℕ) (i : Invoice)
    → lookup k db.invoices ≡ some i
    → ¬ (i.organisation_id ≡ (caller_of call).organisation_id)
    → lookup k (answer call db).invoices ≡ some i
unfolding answer
answer_foreign (names caller id r) db k i e ne = perform_frame caller id k r db i e (inr ne)
answer_foreign (creates env caller dto) db k i e ne = create_frame env caller dto db k i e

-- No sequence of requests to the invoice service, creations included, by callers of other
-- organisations changes or removes an invoice. The requests of other services are not among them.
pub foreign_calls_keep_invoice :
    (calls : List Call) (db : Database) (k : ℕ) (i : Invoice)
    → lookup k db.invoices ≡ some i
    → IsForeign i.organisation_id calls
    → lookup k (run calls db).invoices ≡ some i
unfolding run
foreign_calls_keep_invoice [] db k i e f = e
foreign_calls_keep_invoice (call ∷ calls) db k i e (ne, f) =
    foreign_calls_keep_invoice calls (answer call db) k i (answer_foreign call db k i e ne) f

-- ===== src/Ledger/AtMostOnce.antt =====
-- DirectLedger of src/acp_proxy/direct_state.py: an operation ID is bound once, to one identity, and
-- stays bound through any history of admissions and settlements.
use acp_test.Base.{
  String, ◌≡◌, refl, ap, ◌∙◌, Bool, true, false, inl, inr, ◌⊎◌, ◌<◌, Option, none, some, List, [],
  ◌∷◌, arith, eq_iff, is_refl, is_cases, if◌then◌else◌,
}
use acp_test.Dict
use acp_test.Dict.{Dict, get-put, get-modify}
use acp_test.Json.{Value}
use acp_test.State.{
  conflict, Result, ok, err, OperationState, terminal, OperationRecord, set_terminal,
}
use acp_test.Ledger.{Ledger, Candidate, same_identity, new_record, admit, update}

-- What admission compares of a record.
abbrev pub identity : OperationRecord → Candidate
identity r = record {
  digest = r.digest;
  kind = r.kind;
  logical_session_id = r.logical_session_id;
  invocation_id = r.invocation_id;
  target_operation_id = r.target_operation_id;
}

-- After an admission, created or replayed, a request under the same ID finds that record: the same
-- identity gives the record back with nothing written, and any other identity is a conflict.
pub admit-admit :
    (l : Ledger) (op : String) (c d : Candidate) {r : OperationRecord} {b : Bool} {m : Ledger}
    → admit l op c ≡ ok (r, b, m)
    → admit m op d ≡ (if same_identity r d then ok (r, false, m) else err conflict)
unfolding admit
admit-admit l op c d h = ground (arith, get-put l.records op op (new_record op c), is_refl op)

-- One thing that happens to a ledger: a request, or a settlement of a record.
pub data Event : Type 0 where
  admits : String → Candidate → Event
  settles : String → OperationState → Option Value → Option Value → Event

abbrev pub after {ℓ} : {A : Type ℓ} → Ledger → Result (A × Bool × Ledger) → Ledger
after l (ok (r, b, m)) = m
after l (err e) = l

abbrev pub or_same : OperationRecord → Result OperationRecord → OperationRecord
or_same r (ok q) = q
or_same r (err e) = r

unfoldable pub happen : Ledger → Event → Ledger
happen l (admits op c) = after l (admit l op c)
happen l (settles op state result error) =
    update l op (λ r. or_same r (set_terminal r state result error))

unfoldable pub history : Ledger → List Event → Ledger
unfolding happen
history l [] = l
history l (e ∷ es) = history (happen l e) es

-- What stays of a record: its identity, and everything once it is terminal.
pub record Follows (r q : OperationRecord) : Type 0 where
  pub same : identity q ≡ identity r
  pub frozen : terminal r.state ≡ true → q ≡ r

Follows-refl : (r : OperationRecord) → Follows r r
Follows-refl r = record { same = refl; frozen = λ _. refl }

Follows-trans : {r q p : OperationRecord} → Follows r q → Follows q p → Follows r p
Follows-trans a b = record {
  same = b.same ∙ a.same;
  frozen =
      λ t. b.frozen (ap (λ (x : OperationRecord). terminal x.state) (a.frozen t) ∙ t) ∙ a.frozen t;
}

abbrev settle_or_same :
    OperationState → Option Value → Option Value → OperationRecord → OperationRecord
settle_or_same state result error r = or_same r (set_terminal r state result error)

settle-Follows :
    (state : OperationState) (result error : Option Value) (r : OperationRecord)
    → Follows r (settle_or_same state result error r)
unfolding set_terminal
settle-Follows state result error r = record { same = ground arith; frozen = λ t. ground arith }

-- The record under an ID, after one more event.
happen-Follows :
    (l : Ledger) (e : Event) (op : String) (r : OperationRecord)
    → Dict.get l.records op ≡ some r
    → (q : OperationRecord) × (Dict.get (happen l e).records op ≡ some q) × Follows r q
unfolding happen update admit
happen-Follows l (admits k c) op r h =
    (r, ground (arith, get-put l.records k op (new_record k c), eq_iff k op), Follows-refl r)
happen-Follows l (settles k state result error) op r h = elim (is_cases k op) [
  | inl e ↦ (
    settle_or_same state result error r,
    ground (arith, get-modify l.records k op (settle_or_same state result error), eq_iff k op),
    settle-Follows state result error r,
  )
  | inr e ↦ (
    r,
    ground (arith, get-modify l.records k op (settle_or_same state result error)),
    Follows-refl r,
  )
]

-- Whatever is admitted and settled later, a record that the ledger holds is never evicted, keeps its
-- identity, and does not change at all once its state is terminal.
pub history-Follows :
    (l : Ledger) (es : List Event) (op : String) (r : OperationRecord)
    → Dict.get l.records op ≡ some r
    → (q : OperationRecord) × (Dict.get (history l es).records op ≡ some q) × Follows r q
unfolding history
history-Follows l [] op r h = (r, h, Follows-refl r)
history-Follows l (e ∷ es) op r h =
    let (q, hq, fq) = happen-Follows l e op r h in
    let (p, hp, fp) = history-Follows (happen l e) es op q hq in (p, hp, Follows-trans fq fp)

-- What admission found and wrote when it created a record.
pub admit_created :
    (l : Ledger) (op : String) (c : Candidate) {r : OperationRecord} {b : Bool} {m : Ledger}
    → admit l op c ≡ ok (r, b, m)
    → ((b ≡ false) × (m ≡ l) × (Dict.get l.records op ≡ some r))
      ⊎ ((b ≡ true)
          × (Dict.get l.records op ≡ none)
          × (Dict.size l.records < l.max_operations)
          × (r ≡ new_record op c)
          × (m ≡ record l { records = Dict.put l.records op (new_record op c) }))
unfolding admit
admit_created l op c h = ground arith

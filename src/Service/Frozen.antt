-- ===== src/Service/Frozen.antt =====
-- src/acp_proxy/direct_service.py: a record that is terminal stays as it is in every generation that the
-- service has, whatever step is taken.
pub mod Admissions
pub mod Tasks
pub mod Deadlines
pub mod Steps
use acp_test.Base.{
  String, ◌≡◌, refl, ap, ◌∙◌, inl, inr, Bool, true, false, Option, none, some, List, [], ◌∷◌, arith,
  is_cases, eq_iff,
}
use acp_test.Dict
use acp_test.Dict.{get-put, get-modify, get-modify_all}
use acp_test.Json.{Value}
use acp_test.State.{OperationRecord, OperationState, terminal, set_terminal}
use acp_test.Ledger
use acp_test.Ledger.{Ledger, Candidate, new_record}
use acp_test.Service.{Generation, settle_record, set_state, or_same}
use acp_test.Service.Loss.{quarantine, lose_record, settle_all, DeferredSettlement}

-- Every terminal record of a generation is the same record of another.
unfoldable pub Frozen : Generation → Generation → Type 0
Frozen g h =
    (op : String) (r : OperationRecord)
    → Dict.get g.ledger.records op ≡ some r
    → terminal r.state ≡ true
    → Dict.get h.ledger.records op ≡ some r

-- The same records, or a change of ledger-free fields.
pub same-Frozen : (g h : Generation) → h.ledger ≡ g.ledger → Frozen g h
unfolding Frozen
same-Frozen g h e op r found over = ap (λ (l : Ledger). Dict.get l.records op) e ∙ found

pub Frozen-trans : (g h k : Generation) → Frozen g h → Frozen h k → Frozen g k
unfolding Frozen
Frozen-trans g h k a b op r found over = b op r (a op r found over) over

-- A write that leaves the terminal record under its own ID alone.
pub update-Frozen :
    (g h : Generation) (op : String) (f : OperationRecord → OperationRecord)
    → h.ledger ≡ Ledger.update g.ledger op f
    → ((r : OperationRecord)
        → Dict.get g.ledger.records op ≡ some r
        → terminal r.state ≡ true
        → f r ≡ r)
    → Frozen g h
unfolding Frozen Ledger.update
update-Frozen g h op f e keeps j r found over =
    ap (λ (l : Ledger). Dict.get l.records j) e
    ∙ get-modify g.ledger.records op j f
    ∙ elim (is_cases op j) [
      | inl own ↦ ground (arith, found, keeps r (ap (Dict.get g.ledger.records) own ∙ found) over)
      | inr other ↦ rw (other, found) refl
    ]

pub settle_record-Frozen :
    (state : OperationState) (result error : Option Value) (op : String) (g : Generation)
    → Frozen g (settle_record state result error op g)
unfolding settle_record set_terminal
settle_record-Frozen state result error op g =
    update-Frozen g _ op (λ r. or_same r (set_terminal r state result error)) refl
      (λ r found over. ground arith)

pub set_state-Frozen :
    (state : OperationState) (op : String) (g : Generation)
    → ((r : OperationRecord) → Dict.get g.ledger.records op ≡ some r → terminal r.state ≡ false)
    → Frozen g (set_state state op g)
unfolding set_state
set_state-Frozen state op g live =
    update-Frozen g _ op (λ r. record r { state = state }) refl
      (λ r found over. absurd (clash (live r found) over))
  where
    clash : {b : Bool} → b ≡ false → b ≡ true → ⊥
    clash p q = cc

-- A record under a new ID.
pub put-Frozen :
    (g h : Generation) (op : String) (c : Candidate)
    → Dict.get g.ledger.records op ≡ none
    → h.ledger ≡ record g.ledger { records = Dict.put g.ledger.records op (new_record op c) }
    → Frozen g h
unfolding Frozen
put-Frozen g h op c fresh e j r found over =
    ap (λ (l : Ledger). Dict.get l.records j) e
    ∙ get-put g.ledger.records op j (new_record op c)
    ∙ ground (arith, eq_iff op j)

pub quarantine-Frozen : (defer : List String) (g : Generation) → Frozen g (quarantine defer g)
unfolding Frozen quarantine
quarantine-Frozen defer g op r found over =
    ground (arith, get-modify_all g.ledger.records (lose_record defer) op)

pub settle_all-Frozen : (ds : List DeferredSettlement) (g : Generation) → Frozen g (settle_all ds g)
unfolding settle_all
settle_all-Frozen [] g = same-Frozen g g refl
settle_all-Frozen (d ∷ ds) g =
    Frozen-trans g _ _ (settle_record-Frozen d.state d.result d.error d.operation_id g)
      (settle_all-Frozen ds _)

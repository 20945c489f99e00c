-- ===== src/Ledger/Capacity.antt =====
-- DirectLedger of src/acp_proxy/direct_state.py: the ledger is bounded, and it refuses a new ID only
-- when it is full.
use acp_test.Base.{ℕ, String, ◌≡◌, ◌≤◌, ◌↔◌, none, List, [], ◌∷◌, arith}
use acp_test.Dict
use acp_test.Dict.{size-put, size-modify, size-empty}
use acp_test.State.{limit_exceeded, ok, err, OperationRecord}
use acp_test.Ledger.{Ledger, Candidate, new_ledger, new_record, admit, update}
use acp_test.Ledger.AtMostOnce.{Event, admits, settles, happen, history, after}

abbrev pub IsBounded : Ledger → Type 0
IsBounded l = Dict.size l.records ≤ l.max_operations

admit-IsBounded :
    (l : Ledger) (op : String) (c : Candidate) → IsBounded l → IsBounded (after l (admit l op c))
unfolding admit
admit-IsBounded l op c h = ground (arith, size-put l.records op (new_record op c))

happen-IsBounded : (l : Ledger) (e : Event) → IsBounded l → IsBounded (happen l e)
unfolding happen update
happen-IsBounded l (admits op c) h = admit-IsBounded l op c h
happen-IsBounded l (settles op state result error) h = rw size-modify h

history-IsBounded : (l : Ledger) (es : List Event) → IsBounded l → IsBounded (history l es)
unfolding history
history-IsBounded l [] h = h
history-IsBounded l (e ∷ es) h = history-IsBounded (happen l e) es (happen-IsBounded l e h)

-- A fresh ledger of positive capacity holds at most that many records after any history.
pub new_ledger-history-IsBounded :
    (n : ℕ) {l : Ledger} (es : List Event) → new_ledger n ≡ ok l → IsBounded (history l es)
unfolding new_ledger
new_ledger-history-IsBounded n {l} es e =
    history-IsBounded l es (ground (arith, size-empty OperationRecord))

-- Capacity is the reason for refusal exactly when the ID is new and no room is left.
pub admit_refused :
    (l : Ledger) (op : String) (c : Candidate)
    → (admit l op c ≡ err limit_exceeded)
      ↔ ((Dict.get l.records op ≡ none) × (l.max_operations ≤ Dict.size l.records))
unfolding admit
admit_refused l op c = (λ h. ground arith, λ h. ground arith)

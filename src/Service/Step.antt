-- ===== src/Service/Step.antt =====
-- src/acp_proxy/direct_service.py: the runs of DirectService. Python's tasks are cooperative, so a run is
-- a sequence of the stretches of code between two awaits, in any order that the guards allow. A body
-- under the state lock may come after any check that preceded it: a commit takes any digest and
-- reference. The tasks of a generation run while the service is available and the generation not
-- quarantined; then they have been cancelled, and only the `finally` blocks of prompts are left.
use acp_test.Base.{ℕ, String, ◌≡◌, Bool, true, false, Option, some, []}
use acp_test.Dict
use acp_test.State.{ok, create, prompt, cancel, accepted, OperationRecord, DirectSession}
use acp_test.Protocol.{
  Wire, DirectLimits, CreateSessionRequest, PromptRequest, CancelRequest, RetireSessionRequest,
}
use acp_test.Service.{Generation, Service, AcpClient, Host, new_generation, on_generation}
use acp_test.Service.Create.{commit_create}
use acp_test.Service.Prompt.{commit_prompt}
use acp_test.Service.Retire.{admit_retire}
use acp_test.Service.Cancel.{admit_cancel, begin_cancel, settle_cancel, CancelOutcome}
use acp_test.Service.Loss.{contains, mark_generation_lost}
use acp_test.Service.Execute.{begin_prompt, finalize_prompt, is_dispatched}
use acp_test.Service.Creation.{CreateOutcome, begin_create, settle_create}
use acp_test.Service.Settlement.{Dump, PromptOutcome, settle_prompt}

-- The records and the sessions of the current generation.
abbrev pub record_at : Service → String → Option OperationRecord
record_at s op = Dict.get (s.store s.current).ledger.records op

abbrev pub session_at : Service → String → Option DirectSession
session_at s k = Dict.get (s.store s.current).sessions k

-- __init__, without its checks of the secret and of the client.
abbrev pub init : Host → String → DirectLimits → String → Service
init host workspace limits id = record {
  canonical_workspace = workspace;
  limits = limits;
  available = true;
  current = 0;
  store = λ q. new_generation id limits.max_operations;
  next_ref = 1;
}

pub data Step (host : Host) (w : Wire) (d : Dump) (s : Service) : Service → Type 0 where
  creates :
      (g : ℕ) (digest : String) (r : CreateSessionRequest) {rec : OperationRecord} {b : Bool}
      {t : Service}
      → commit_create s g digest r ≡ ok (rec, b, t)
      → Step host w d s t
  prompts :
      (g : ℕ) (digest k : String) (r : PromptRequest) {rec : OperationRecord} {b : Bool}
      {t : Service}
      → commit_prompt w s g digest k r ≡ ok (rec, b, t)
      → Step host w d s t
  cancels :
      (client : AcpClient) (r : CancelRequest) {rec : OperationRecord} {b : Bool} {t : Service}
      → admit_cancel w s client r ≡ ok (rec, b, t)
      → Step host w d s t
  retires :
      (client : AcpClient) (r : RetireSessionRequest) {rec : OperationRecord} {b : Bool}
      {t : Service}
      → admit_retire w s client r ≡ ok (rec, b, t)
      → Step host w d s t
  starts_create :
      (op : String) (rec : OperationRecord)
      → s.available ≡ true
      → record_at s op ≡ some rec
      → rec.kind ≡ create
      → rec.state ≡ accepted
      → Step host w d s (begin_create s.current op s)
  ends_create :
      (client : AcpClient) (op k : String) (rec : OperationRecord) (x : DirectSession)
      (outcome : CreateOutcome)
      → s.available ≡ true
      → record_at s op ≡ some rec
      → rec.kind ≡ create
      → session_at s k ≡ some x
      → Step host w d s (settle_create host client s.current op k x outcome s)
  starts_prompt :
      (op : String) (rec : OperationRecord)
      → s.available ≡ true
      → record_at s op ≡ some rec
      → rec.kind ≡ prompt
      → Step host w d s (on_generation s s.current (begin_prompt op))
  ends_prompt :
      (client : AcpClient) (op k : String) (r : PromptRequest) (rec : OperationRecord)
      (x : DirectSession) (outcome : PromptOutcome)
      → s.available ≡ true
      → (s.store s.current).quarantined ≡ false
      → contains (s.store s.current).collector_tasks op ≡ true
      → record_at s op ≡ some rec
      → session_at s k ≡ some x
      → Step host w d s (settle_prompt host client w d s.current op k r rec x outcome s)
  finalizes :
      (g : ℕ) (op k : String) {h : Generation}
      → ((s.store g).quarantined ≡ false
          → is_dispatched (Dict.get (s.store g).ledger.records op) ≡ false)
      → finalize_prompt op k (s.store g) ≡ ok h
      → Step host w d s (on_generation s g (λ _. h))
  starts_cancel :
      (op : String) (rec : OperationRecord)
      → s.available ≡ true
      → record_at s op ≡ some rec
      → rec.kind ≡ cancel
      → rec.state ≡ accepted
      → Step host w d s (begin_cancel s.current op s)
  ends_cancel :
      (op target k : String) (rec : OperationRecord) (outcome : CancelOutcome)
      → s.available ≡ true
      → record_at s op ≡ some rec
      → rec.kind ≡ cancel
      → Step host w d s (settle_cancel host s.current op target k outcome s)
  -- The owner of the ACP child reports that its transport has closed.
  loses : Step host w d s (mark_generation_lost host [] s)

pub data Reach (host : Host) (w : Wire) (d : Dump) (s : Service) : Service → Type 0 where
  here : Reach host w d s s
  next : {t u : Service} → Reach host w d s t → Step host w d t u → Reach host w d s u

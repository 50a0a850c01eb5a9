-- ===== src/Durable.antt =====
-- The durable execution contract (durable/backend.go, durable/errors.go): the values that a Backend
-- stores and the requests that it is given. Time is a number of nanoseconds; hashes and claim
-- identifiers are their bytes. Counters are uint64 and wrap at 2^64.
pub mod Testbackend
pub mod Runtime
use go_hydaelyn.Prelude.{ℕ, ◌+◌, ◌%◌, ◌^◌, Bool, Option, List, Text, replicate}
use go_hydaelyn.Prelude.Int.{ℤ}
use go_hydaelyn.Agent.{Request, OutputPolicy, Continuation, AgentResult}

-- `version++` and `token++` on a uint64
abbrev pub u64_mod : ℕ
u64_mod = 2 ^ 64

abbrev pub next_u64 : ℕ → ℕ
next_u64 n = (n + 1) % u64_mod

abbrev pub Hash : Type 0
Hash = List ℕ

abbrev pub zero_hash : Hash
zero_hash = replicate 32 0

abbrev pub ClaimId : Type 0
ClaimId = List ℕ

abbrev pub zero_claim : ClaimId
zero_claim = replicate 16 0

pub data ExecutionStatus : Type 0 where
  running suspended completed failed : ExecutionStatus

pub record ExecutionSpec : Type 0 where
  pub request : Request
  pub output_policy : OutputPolicy

pub record Checkpoint : Type 0 where
  pub sequence : ℕ
  pub continuation : Continuation
  pub continuation_hash : Hash

pub record Lease : Type 0 where
  pub owner_id : Text
  pub claim_id : ClaimId
  pub token : ℕ
  pub expires_at : ℕ

pub record LeaseRef : Type 0 where
  pub owner_id : Text
  pub token : ℕ

pub record Execution : Type 0 where
  pub id : Text
  pub spec : ExecutionSpec
  pub spec_hash : Hash
  pub status : ExecutionStatus
  pub version : ℕ
  pub lease : Option Lease
  pub checkpoint : Option Checkpoint
  pub result : Option AgentResult
  pub result_hash : Hash

pub data AttemptKind : Type 0 where
  model tool : AttemptKind
  other_kind : Text → AttemptKind

pub data AttemptStatus : Type 0 where
  running succeeded failed unknown abandoned : AttemptStatus

pub data AttemptDecision : Type 0 where
  execute replay reconcile : AttemptDecision

pub record FailureRecord : Type 0 where
  pub code : Text
  pub message : Text

pub record Attempt : Type 0 where
  pub execution_id : Text
  pub operation_id : Text
  pub kind : AttemptKind
  pub number : ℕ
  pub input_hash : Hash
  pub status : AttemptStatus
  pub lease : Option LeaseRef
  pub version : ℕ
  pub payload : List ℕ
  pub failure : Option FailureRecord

pub record AttemptStart : Type 0 where
  pub attempt : Attempt
  pub decision : AttemptDecision

pub record StartResult : Type 0 where
  pub execution : Execution
  pub created : Bool
  pub reconcile : List Attempt

pub record ResumeResult : Type 0 where
  pub execution : Execution
  pub reconcile : List Attempt

pub record ReleaseResult : Type 0 where
  pub execution : Execution
  pub reconcile : List Attempt

pub data ReconcileResolution : Type 0 where
  succeed fail retry : ReconcileResolution
  other_resolution : Text → ReconcileResolution

-- The sentinel errors of durable/errors.go that a Backend returns.
pub data Sentinel : Type 0 where
  invalid_argument not_found conflict busy lease_lost corrupt_checkpoint : Sentinel
  reconcile_required : Sentinel

pub data ContextError : Type 0 where
  canceled deadline_exceeded : ContextError

-- `ExecutionError`, `AttemptError`, or the context's own error.
pub data DurableError : Type 0 where
  context_error : ContextError → DurableError
  execution_error : Text → Sentinel → DurableError
  attempt_error : Text → Text → ℕ → Sentinel → DurableError

pub record StartExecutionRequest : Type 0 where
  pub execution_id : Text
  pub owner_id : Text
  pub claim_id : ClaimId
  pub lease_ttl : ℤ
  pub spec : ExecutionSpec
  pub spec_hash : Hash

pub record ResumeExecutionRequest : Type 0 where
  pub execution_id : Text
  pub owner_id : Text
  pub claim_id : ClaimId
  pub lease_ttl : ℤ

pub record RenewExecutionRequest : Type 0 where
  pub execution_id : Text
  pub lease : LeaseRef
  pub lease_ttl : ℤ

pub record SaveCheckpointRequest : Type 0 where
  pub execution_id : Text
  pub lease : LeaseRef
  pub expected_version : ℕ
  pub checkpoint : Checkpoint

pub record SuspendExecutionRequest : Type 0 where
  pub execution_id : Text
  pub lease : LeaseRef
  pub expected_version : ℕ

pub record FinishExecutionRequest : Type 0 where
  pub execution_id : Text
  pub lease : LeaseRef
  pub expected_version : ℕ
  pub result : AgentResult
  pub result_hash : Hash

pub record ReleaseExecutionRequest : Type 0 where
  pub execution_id : Text
  pub lease : LeaseRef

pub record StartAttemptRequest : Type 0 where
  pub execution_id : Text
  pub lease : LeaseRef
  pub operation_id : Text
  pub kind : AttemptKind
  pub input_hash : Hash

-- `FinishAttemptRequest` and `MarkAttemptUnknownRequest`, which have the same fields
pub record SettleAttemptRequest : Type 0 where
  pub execution_id : Text
  pub lease : LeaseRef
  pub operation_id : Text
  pub attempt_number : ℕ
  pub expected_attempt_version : ℕ
  pub payload : List ℕ
  pub failure : Option FailureRecord

pub record ReconcileAttemptRequest : Type 0 where
  pub execution_id : Text
  pub operation_id : Text
  pub attempt_number : ℕ
  pub expected_attempt_version : ℕ
  pub resolution : ReconcileResolution
  pub payload : List ℕ
  pub failure : Option FailureRecord

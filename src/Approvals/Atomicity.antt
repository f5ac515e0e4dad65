-- ===== src/Approvals/Atomicity.antt =====
-- src/modules/approvals/approval-service.ts: a decision that is refused leaves no trace.
use institutional_tokenizati.Base.{ℕ}
use institutional_tokenizati.Domain.Canonical.{Host}
use institutional_tokenizati.Domain.Roles.{Actor}
use institutional_tokenizati.Domain.ApprovalState.{ApprovalDecisionKind}
use institutional_tokenizati.Db.Atomic.{IsReadOnly, IsAtomic, atomic_rules, IsReadOnly-gets}
use institutional_tokenizati.Repo.Operations.{find_operation_by_id}
use institutional_tokenizati.Repo.Approvals.{find_approval_request_by_id}
use institutional_tokenizati.Approvals.Defs.{record_decision}

find_operation_by_id-IsReadOnly : (id : ℕ) → IsReadOnly (find_operation_by_id id)
unfolding find_operation_by_id
find_operation_by_id-IsReadOnly id = IsReadOnly-gets _

find_approval_request_by_id-IsReadOnly : (id : ℕ) → IsReadOnly (find_approval_request_by_id id)
unfolding find_approval_request_by_id
find_approval_request_by_id-IsReadOnly id = IsReadOnly-gets _

-- A decision that is refused, for whatever reason, leaves the whole store as it was.
pub record_decision-IsAtomic :
    (host : Host) (actor : Actor) (request_id : ℕ) (decision : ApprovalDecisionKind)
    → IsAtomic (record_decision host actor request_id decision)
unfolding record_decision
record_decision-IsAtomic host actor request_id decision =
    search (atomic_rules, find_operation_by_id-IsReadOnly, find_approval_request_by_id-IsReadOnly)
      depth 20

-- ===== src/AppError.antt =====
-- packages/ai-shared/src/errors/app-error.ts, and the HTTP status that the exception filters of
-- ai-gateway and chat-orchestrator give each code.
use gen_xtaxi_ai.Common.{ℕ}

pub data ErrorCode : Type 0 where
  validation unauthorized forbidden not_found rate_limited budget_exceeded provider_unavailable
        conflict internal :
      ErrorCode

-- `CODE_STATUS`
unfoldable pub code_status : ErrorCode → ℕ
code_status validation = 400
code_status unauthorized = 401
code_status forbidden = 403
code_status not_found = 404
code_status rate_limited = 429
code_status budget_exceeded = 429
code_status provider_unavailable = 503
code_status conflict = 409
code_status internal = 500

-- ===== src/Library/WriteAnswers.antt =====
-- The answers to a write that failed: `artifactWriteErrorResponse` of lib/artifact-write-http.ts.
use artifact_dev_toolkit.Common.{ℕ}
use artifact_dev_toolkit.Library.Requests.{
  RepositoryError, unavailable, bad_configuration, access_denied, write_validation, too_large,
  secret_rejected, duplicate, write_conflict, write_permission, write_authentication, not_found,
}

pub data WriteErrorCode : Type 0 where
  artifact_too_large validation_failed secret_found repository_authentication_failed :
      WriteErrorCode
  write_permission_required artifact_not_found duplicate_artifact conflict : WriteErrorCode
  repository_unavailable repository_configuration internal_error : WriteErrorCode

pub record WriteAnswer : Type 0 where
  pub code : WriteErrorCode
  pub status : ℕ

abbrev pub answer : WriteErrorCode → ℕ → WriteAnswer
answer code status = record { code = code; status = status }

unfoldable pub artifact_write_error_response : RepositoryError → WriteAnswer
artifact_write_error_response too_large = answer artifact_too_large 413
artifact_write_error_response write_validation = answer validation_failed 400
artifact_write_error_response secret_rejected = answer secret_found 400
artifact_write_error_response write_authentication = answer repository_authentication_failed 401
artifact_write_error_response access_denied = answer repository_authentication_failed 401
artifact_write_error_response write_permission = answer write_permission_required 403
artifact_write_error_response not_found = answer artifact_not_found 404
artifact_write_error_response duplicate = answer duplicate_artifact 409
artifact_write_error_response write_conflict = answer conflict 409
artifact_write_error_response (unavailable status) = answer repository_unavailable 503
artifact_write_error_response bad_configuration = answer repository_configuration 500
artifact_write_error_response _ = answer internal_error 500

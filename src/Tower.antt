-- ===== src/Tower.antt =====
-- crates/firq-tower/src/lib.rs: what a call of the service is refused with, and the mapping of
-- rejections to answers.
pub mod Builder
pub mod Calls
pub mod Worker
use Prim.Native.String.{String}
use firq.Prelude.{ℕ}
use firq.Api.{EnqueueRejectReason, tenant_full, global_full, timed_out}

pub record FirqHttpRejection : Type 0 where
  pub status : ℕ
  pub code : String
  pub message : String
  pub reason : EnqueueRejectReason

abbrev pub RejectionMapper : Type 0
RejectionMapper = EnqueueRejectReason → FirqHttpRejection

unfoldable pub default_rejection_mapper : RejectionMapper
default_rejection_mapper tenant_full = record {
  status = 429;
  code = "tenant_full";
  message = "tenant queue limit reached";
  reason = tenant_full;
}
default_rejection_mapper global_full = record {
  status = 503;
  code = "global_full";
  message = "scheduler global capacity reached";
  reason = global_full;
}
default_rejection_mapper timed_out = record {
  status = 503;
  code = "timeout";
  message = "request timed out waiting for scheduler capacity";
  reason = timed_out;
}

pub data FirqError (E : Type 0) : Type 0 where
  service : E → FirqError E
  rejected : FirqHttpRejection → FirqError E
  closed permit_error : FirqError E

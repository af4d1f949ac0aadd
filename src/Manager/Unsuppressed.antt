-- ===== src/Manager/Unsuppressed.antt =====
-- internal/application/updates/manager.go, `StartupApply`: the startup after a rollback.
use filelist_streaming_servi.Manager.{Manager}

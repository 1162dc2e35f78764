-- ===== src/Daemon/Report/Init.antt =====
-- The state file from the start of the daemon on.
use wg_ondemand.State as State
use wg_ondemand.StateFile.Report.{Report}
use wg_ondemand.Daemon.{Daemon}

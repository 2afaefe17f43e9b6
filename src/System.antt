-- ===== src/System.antt =====
-- The server as a whole: the operations that touch the table of passes, called in any order by
-- anybody (server/go/internal/scheduling/service.go, server/go/internal/workerapi/upload.go). An
-- operation that fails on the way leaves what it has written outside a transaction.
pub mod Safety
pub mod Calendar
pub mod History
pub mod Deployed
use project_dia.Prelude.{Option, List, [], ◌∷◌, String}
use project_dia.Domain.{Uuid, User, SchedulingConfig}
use project_dia.Store.World.{World, Action}
use project_dia.Scheduling.Service.{Service, RequestInput}
use project_dia.Scheduling.Service.Booking.{request_pass, request_pass_with_root_override}
use project_dia.Scheduling.Service.Decisions.{Decision, decide, cancel, update_scheduling_config}
use project_dia.WorkerApi.Reports.{ExecutionRecord, report_executions}

pub record Server : Type 0 where
  pub service : Service
  pub parse_uuid : String → Option Uuid

pub data Call : Type 0 where
  requests overrides : User → RequestInput → Call
  decides : User → Uuid → Decision → Call
  cancels : User → Uuid → Call
  configures : User → SchedulingConfig → Call
  reports : List ExecutionRecord → Call

-- The world after a call; its answer goes to the caller.
unfoldable pub step : Server → World → Call → World
step s w (requests actor input) = (request_pass s.service actor input w).1
step s w (overrides actor input) = (request_pass_with_root_override s.service actor input w).1
step s w (decides actor id d) = (decide s.service actor id d w).1
step s w (cancels actor id) = (cancel actor id w).1
step s w (configures actor config) = (update_scheduling_config actor config w).1
step s w (reports rs) = (report_executions s.parse_uuid rs w).1

unfoldable pub run : Server → World → List Call → World
run s w [] = w
run s w (c ∷ cs) = run s (step s w c) cs

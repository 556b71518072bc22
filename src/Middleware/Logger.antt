-- ===== src/Middleware/Logger.antt =====
-- api/internal/middleware/logger.go. `write` is the log; the time that the request took is left out.
use zaas.Prelude.{ℕ, String, ◌||◌, str_eq, default_to, if◌then◌else◌}
use zaas.Http.{Request, Response, Middleware, header}

pub record LogEntry : Type 0 where
  pub method : String
  pub path : String
  pub status : ℕ
  pub request_id : String
  pub remote_addr : String
  pub x_forwarded_for : String

-- `ww.Status()` is 0 where the handler has written no header.
abbrev pub log_entry : Request → Response → LogEntry
log_entry r w = record {
  method = r.method;
  path = r.path;
  status = default_to w.status 0;
  request_id = r.request_id;
  remote_addr = r.remote_addr;
  x_forwarded_for = header "X-Forwarded-For" r;
}

unfoldable pub logger : {S : Type 0} → (LogEntry → S → S) → Middleware S
logger write next r w s =
    if str_eq r.path "/healthz" || str_eq r.path "/readyz"
    then next r w s
    else (let (w', s') = next r w s in (w', write (log_entry r w') s'))

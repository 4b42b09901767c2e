-- ===== src/Echo/Unreadable.antt =====
-- When a run of apps/worker/jobs/whatsapp_echo.py raises ValueError: numeric replies that `int` refuses.
use talap_ml.Common.{◌≢◌, err}
use talap_ml.Common.Text.{Text}
use talap_ml.Echo.{EchoResult}
use talap_ml.Echo.World.{World, Run, value_error}

-- The run does not end in a ValueError.
abbrev NoValueError : Run EchoResult → Type 0
NoValueError run = run.0 ≢ err value_error

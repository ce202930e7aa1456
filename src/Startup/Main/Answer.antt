-- ===== src/Startup/Main/Answer.antt =====
-- From the files that main reads to the answer of a request.
use koala_v.Config.{Config}
use koala_v.Api.Context.{Context}

-- ===== src/Api/Context.antt =====
-- What the middlewares and the handlers share: gin's context, the answer that is sent, and what
-- requests change. A handler gets the context and the world, and gives both back with the answer.
use koala_v.Prelude.{
  ℕ, ℤ, Text, Bool, Table, insert, delete, List, [], ◌∷◌, ◌++◌, Option, none, some,
}
use koala_v.Logger.{Line}
use koala_v.Api.Types.{ApiResponse, BatchResult}
use koala_v.Api.Metrics.{MetricsMiddleware}

pub record HealthResponse : Type 0 where
  pub status : Text
  pub timestamp : Text

pub record ReadyResponse : Type 0 where
  pub ready : Bool
  pub message : Text
  pub timestamp : Text

pub data Body : Type 0 where
  api : ApiResponse → Body
  batch_results : List BatchResult → Body
  health : HealthResponse → Body
  ready_status : ReadyResponse → Body
  page : Text → Body
  no_body : Body

-- A status with a body; a panic; or the end of the process, by the panic of a goroutine.
pub data Reply : Type 0 where
  wrote : ℤ → Body → Reply
  panicked died : Reply

-- What is read of the request, with the pattern of its route (empty if there is none); and what is
-- set on the way: the headers of the answer, and the keys "request_id" and "deadline".
pub record Context : Type 0 where
  pub method : Text
  pub path : Text
  pub full_path : Text
  pub origin : Text
  pub request_id_header : Text
  pub client_ip : Text
  pub body : Option Text
  pub headers : Table Text
  pub request_id : Option Text
  pub deadline : Option ℤ

-- `c.Header`: an empty value removes the header.
unfoldable pub set_header : Text → Text → Table Text → Table Text
set_header key [] headers = delete key headers
set_header key (v ∷ vs) headers = insert key (v ∷ vs) headers

-- The values of a line of the log; `runtime` stands for a recovered value and for a stack.
pub data Field : Type 0 where
  text : Text → Field
  number : ℤ → Field
  duration : ℤ → Field
  runtime : Field

-- The counter of request identifiers, the lines that the middlewares have logged, the metrics, and
-- the state that the engine changes.
pub record World (W S : Type 0) : Type 0 where
  pub request_id_counter : ℕ
  pub lines : List (Line W Field)
  pub metrics : MetricsMiddleware
  pub state : S

abbrev pub Handling : Type 0 → Type 0 → Type 0
Handling W S = Context → World W S → Reply × Context × World W S

-- What the clock says during a request: the formatted time, the instant, the two latencies that are
-- measured, and the timestamp of the health handlers.
pub record Clock : Type 0 where
  pub stamp : Text
  pub now : ℤ
  pub logged_latency : ℤ
  pub metered_latency : ℤ
  pub timestamp : Text

-- `logger.Info` and the like.
abbrev pub with_line : {W S : Type 0} → Option (Line W Field) → World W S → World W S
with_line none w = w
with_line (some line) w = record w { lines = w.lines ++ line ∷ [] }

-- ===== src/Http.antt =====
-- What the handlers use of `net/http`: requests, `http.ResponseWriter` as an interface, the writer of
-- the server itself, and `http.Error`.
use server_watch.Base.{
  ℕ, Bool, false, not, Option, none, some, String, str_eq, Result, ok, err, if◌then◌else◌,
}
use Prim.Native.String.{◌++◌}

-- `header` and `query` give the empty text for what is missing; `request_id` is the value of the
-- context under `requestIDKey`. The logger in the context has no effect but logging.
pub record Request : Type 0 where
  pub method : String
  pub path : String
  pub pattern : String
  pub header : String → String
  pub query : String → String
  pub body : String
  pub request_id : Option String

-- `write` tells whether it succeeded.
pub record ResponseWriter : Type 1 where
  pub W : Type 0
  pub set_header : String → String → W → W
  pub write_header : ℕ → W → W
  pub write : String → W → Bool × W

abbrev pub http_error : (rw : ResponseWriter) → String → ℕ → rw.W → rw.W
http_error rw text code w =
    let plain =
      rw.set_header "X-Content-Type-Options" "nosniff"
        (rw.set_header "Content-Type" "text/plain; charset=utf-8" w) in
    (rw.write (text ++ "\n") (rw.write_header code plain)).1

-- `json.NewEncoder(rw).Encode(v)`: the text is made before anything is written.
abbrev pub encode_json : (rw : ResponseWriter) → Result String → rw.W → Bool × rw.W
encode_json rw (err e) w = (false, w)
encode_json rw (ok text) w = rw.write (text ++ "\n") w

-- The server's writer: the first status counts, the first `Write` sends 200, and later headers are
-- not sent. `broken` is a connection on which writing fails.
pub record Response : Type 0 where
  pub headers : String → String
  pub sent : Option ℕ
  pub body : String
  pub broken : Bool

abbrev pub fresh_response : Bool → Response
fresh_response b = record { headers = λ k. ""; sent = none; body = ""; broken = b }

-- The status of the response: a handler that returns without one sends 200.
abbrev pub status_of : Response → ℕ
status_of r = elim r.sent [ none ↦ 200 | some code ↦ code ]

abbrev pub with_header : String → String → (String → String) → String → String
with_header k v headers j = if str_eq j k then v else headers j

abbrev pub response_writer : ResponseWriter
response_writer = record {
  W = Response;
  set_header = λ k v r. elim r.sent [
    | none ↦ record r { headers = with_header k v r.headers }
    | some code ↦ r
  ];
  write_header = λ code r. elim r.sent [ none ↦ record r { sent = some code } | some _ ↦ r ];
  write = λ text r. (
    not r.broken,
    record r { sent = some (status_of r); body = if r.broken then r.body else r.body ++ text },
  );
}

-- ===== src/TargetEnvironment/Server.antt =====
-- `class Server` of Target Environment/Server/Server.cpp. Each handler and each call is one function of
-- the state; what the operating system answers, and what the catalog's file holds, are inputs.
pub mod Slots
pub mod Runs
pub mod Replies
use radar_software.Prelude.{
  ℕ, zero, suc, ◌+◌, ◌%◌, ◌^◌, ◌==◌, String, Bool, true, false, not, ◌&&◌, Option, none, some, List,
  [], ◌∷◌, ◌++◌, map, if◌then◌else◌, add32, sub32,
}
use radar_software.Double.{Double}
use radar_software.Storage.{Values, Kind}
use radar_software.ConfigManager.{Error, system_exception, config_exception}
use radar_software.ConfigManager.Values.{Answer, returns, throws, get_section, get_value}
use radar_software.Utils.GetValue as Wrapper
use radar_software.TargetEnvironment.{
  ErrorCode, ok, system_failure, config_failure, request_fail, Ended, code, escapes, aborts,
}
use radar_software.TargetEnvironment.Messages.{
  register_fail_msg, register_success_msg, request_fail_msg,
}
use radar_software.TargetEnvironment.Request.{Sky, process_request, read_request}

-- A connection, and whether an `async_read_until` of it is pending.
pub record Connection : Type 0 where
  pub id : ℕ
  pub reading : Bool

pub record Server (Satellite : Type 0) : Type 0 where
  pub stopped : Bool
  pub config_loaded : Bool
  pub port : ℕ
  pub max_connections : ℕ
  pub tle_path : String
  pub satellites : List Satellite
  -- Whether the acceptor is open, and whether an `async_accept` of it is pending.
  pub acceptor_open : Bool
  pub accepting : Bool
  pub clients : List Connection
  pub clients_counter : ℕ
  -- The number of the next connection, which tells the connections apart.
  pub next : ℕ

abbrev pub new_server : {Satellite : Type 0} → Server Satellite
new_server = record {
  stopped = true;
  config_loaded = false;
  port = 0;
  max_connections = 0;
  tle_path = "";
  satellites = [];
  acceptor_open = false;
  accepting = false;
  clients = [];
  clients_counter = 0;
  next = 0;
}

-- How an `async_accept` and an `async_read_until` end.
pub data Accepted : Type 0 where
  accepted : Accepted
  operation_aborted : Accepted
  accept_error : Accepted

pub data Reading : Type 0 where
  line : String → Reading
  eof : Reading
  connection_reset : Reading
  read_error : Reading

-- The pending reads: that of one connection begins or ends.
abbrev pub set_reading : Bool → ℕ → List Connection → List Connection
set_reading reading id [] = []
set_reading reading id (c ∷ cs) =
    if c.id == id
    then record c { reading = reading } ∷ set_reading reading id cs
    else c ∷ set_reading reading id cs

-- `_clients.erase(conn)`
abbrev pub erase : ℕ → List Connection → List Connection
erase id [] = []
erase id (c ∷ cs) = if c.id == id then cs else c ∷ erase id cs

-- The code for an exception that `load_config` catches.
abbrev pub caught : Error → ErrorCode
caught system_exception = system_failure
caught config_exception = config_failure

module _ {Satellite : Type 0} where
  abbrev pub start_read : ℕ → Server Satellite → Server Satellite
  start_read id s = record s { clients = set_reading true id s.clients }

  abbrev pub start_accept : Server Satellite → Server Satellite
  start_accept s = record s { accepting = true }

  -- `on_accept`, by whether the connection could be inserted, with what it sends to the new socket.
  unfoldable pub on_accept :
      Accepted → (inserted : Bool) → Server Satellite → Server Satellite × List String
  on_accept operation_aborted inserted s = (record s { accepting = false }, [])
  on_accept accept_error inserted s = (record s { accepting = false }, [])
  on_accept accepted inserted s =
      if s.clients_counter == s.max_connections
      then (start_accept s, register_fail_msg ∷ [])
      else if inserted
      then (
        start_accept (
            start_read s.next (record s {
              clients = s.clients ++ (record { id = s.next; reading = false } ∷ []);
              clients_counter = add32 s.clients_counter 1;
              next = suc s.next;
            })),
        register_success_msg ∷ [],
      )
      else (start_accept s, [])

  -- A connection that the client closed.
  unfoldable pub drop_client : ℕ → Server Satellite → Server Satellite
  drop_client id s = record s {
    clients = erase id s.clients;
    clients_counter = sub32 s.clients_counter 1;
  }

  -- `stop`, by whether the acceptor could be cancelled and closed, and the sockets shut down.
  unfoldable pub stop : (cancelled closed shut : Bool) → Server Satellite → Server Satellite × Ended
  stop cancelled closed shut s =
      let s' = record s { satellites = [] } in
      if s.acceptor_open && not cancelled
      then (s', code system_failure)
      else if s.acceptor_open && not closed
      then (s', code system_failure)
      else if not shut
      then (record s' { acceptor_open = false; accepting = false }, escapes)
      else (
        record s' { acceptor_open = false; accepting = false; clients = []; stopped = true },
        code ok,
      )

  -- `start`, by the satellites that the catalog's file gave and whether it could be read to its end,
  -- and by whether the acceptor could be opened, bound, closed again, and listened on, where the last
  -- throws.
  unfoldable pub start :
      List Satellite
      → (parsed opened bound closed listened : Bool) → Server Satellite
      → Server Satellite × Ended
  start entries parsed opened bound closed listened s =
      let s' = record s { satellites = s.satellites ++ entries } in
      if not s.stopped
      then (s, code system_failure)
      else if not s.config_loaded
      then (s, code system_failure)
      else if not parsed
      then (s', code config_failure)
      else if not opened
      then (s', code system_failure)
      else if not bound
      then (record s' { acceptor_open = not closed }, code system_failure)
      else if not listened
      then (record s' { acceptor_open = true }, escapes)
      else (start_accept (record s' { acceptor_open = true; stopped = false }), code ok)

  -- What `load_config` does with the answer to one `get_value`.
  abbrev pub settle :
      {T : Type 0}
      → Answer T
      → Server Satellite
      → (T → Server Satellite × Ended)
      → Server Satellite × Ended
  settle (returns t) s f = f t
  settle (throws e) s f = (s, code (caught e))
  settle Answer.aborts s f = (s, aborts)

  -- The port becomes an `unsigned short`. What was taken before an exception stays.
  unfoldable pub load_config :
      (values : Values) (text : Kind values.Value String) (uint : Kind values.Value ℕ)
      → Bool
      → values.Value
      → Server Satellite
      → Server Satellite × Ended
  load_config values text uint loaded conf s =
      if not s.stopped
      then (s, code system_failure)
      else settle (get_section values loaded conf "te_settings") s (λ section.
        settle (get_value values uint section (some "port")) s (λ port.
          let s1 = record s { port = port % 2 ^ 16 } in
          settle (get_value values uint section (some "max_connections")) s1 (λ max_connections.
            let s2 = record s1 { max_connections = max_connections } in
            settle (get_value values text section (some "tle_catalog")) s2
              (λ tle_path. (record s2 { tle_path = tle_path; config_loaded = true }, code ok)))))

module _ {double : Double} (sky : Sky double) (values : Values) (text : Kind values.Value String)
    (uint64 : Kind values.Value ℕ) (number : Kind values.Value double.D)
    (parse : String → Option values.Value) where
  -- What is sent for a line, and the satellites afterwards; `none` is the end of the program, by an assert or undefined.
  unfoldable pub reply : List sky.Satellite → String → Option (List sky.Satellite × List String)
  unfolding read_request process_request
  reply satellites msg = elim (parse msg) [
    | none ↦ some (satellites, request_fail_msg ∷ [])
    | some root ↦
        if not (values.is_object root)
        then some (satellites, request_fail_msg ∷ [])
        else elim (read_request values text uint64 number root) [
          | Wrapper.got request ↦ elim (process_request sky satellites request) [
            | none ↦ none
            | some (after, (ok, response)) ↦ some (after, response ∷ [])
            | some (after, (_, response)) ↦ some (after, request_fail_msg ∷ response ∷ [])
          ]
          | Wrapper.system_error ↦ some (satellites, request_fail_msg ∷ [])
          | Wrapper.aborted ↦ none
        ]
  ]

  -- `on_read` of a connection, with what it sends.
  unfoldable pub on_read :
      ℕ → Reading → Server sky.Satellite → Option (Server sky.Satellite × List String)
  unfolding reply drop_client
  on_read id eof s = some (drop_client id s, [])
  on_read id connection_reset s = some (drop_client id s, [])
  on_read id read_error s = some (record s { clients = set_reading false id s.clients }, [])
  on_read id (line msg) s = elim (reply s.satellites msg) [
    | none ↦ none
    | some (after, sent) ↦ some (start_read id (record s { satellites = after }), sent)
  ]

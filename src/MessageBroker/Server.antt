-- ===== src/MessageBroker/Server.antt =====
-- `class Server` of MessageBroker/Server.cpp: the forwarding server. What ZeroMQ answers is an input.
use radar_software.Prelude.{String, Bool, true, false, not, some, if◌then◌else◌}
use radar_software.Storage.{Values, Kind}
use radar_software.ConfigManager.{system_exception, config_exception}
use radar_software.ConfigManager.Values.{Answer, returns, throws, aborts, get_section, get_value}

-- The context, and the three sockets.
pub record Server : Type 0 where
  pub server_pub_port : String
  pub server_sub_port : String
  pub context : Bool
  pub sockets : Bool
  pub config_loaded : Bool

-- The ports are empty at first.
abbrev pub new_server : Server
new_server = record {
  server_pub_port = "";
  server_sub_port = "";
  context = false;
  sockets = false;
  config_loaded = false;
}

-- What `load_config` does with the answer to one `get_value`.
abbrev pub settle :
    {T : Type 0} → Answer T → Server → (T → Server × Answer Unit) → Server × Answer Unit
settle (returns t) s f = f t
settle (throws e) s f = (s, throws config_exception)
settle aborts s f = (s, aborts)

unfoldable pub load_config :
    (values : Values) (text : Kind values.Value String)
    → Bool
    → values.Value
    → Server
    → Server × Answer Unit
load_config values text loaded conf s =
    settle (get_section values loaded conf "message_broker_settings") s (λ section.
      settle (get_value values text section (some "server_pub_port")) s (λ pub_port.
        let s' = record s { server_pub_port = pub_port } in
        settle (get_value values text section (some "server_sub_port")) s' (λ sub_port.
          (record s' { server_sub_port = sub_port; config_loaded = true }, returns tt))))

-- `start` up to the proxy, by whether the context and the sockets could be made: on an exception
-- what was made stays. The proxy then runs until the control socket is sent `TERMINATE`.
unfoldable pub start : (context sockets : Bool) → Server → Server × Answer Unit
start context sockets s =
    if not s.config_loaded
    then (s, throws config_exception)
    else if not context
    then (s, throws system_exception)
    else if not sockets
    then (record s { context = true }, throws system_exception)
    else (record s { context = true; sockets = true }, returns tt)

-- The end of `start`, behind the proxy.
unfoldable pub finish : Server → Server
finish s = record s { context = false; sockets = false }

-- `stop`, by whether the message to the control socket could be sent. Without a context it is undefined.
unfoldable pub stop : Bool → Server → Answer Unit
stop taken s =
    if not s.context then aborts else if taken then returns tt else throws system_exception

-- ===== src/MessageBroker.antt =====
-- The client of MessageBroker/: `Message.h`, `HeartbeatMessage.h`, `Client.h` and `Client.cpp`. What the
-- ZeroMQ sockets answer is an input. `aborts` is the end of the program, by an assert or because a call
-- is undefined.
pub mod Processing
pub mod Heartbeat
pub mod Sessions
pub mod Server
mod Tests
use Prim.Native.String.{◌++◌}
use radar_software.Prelude.{
  ℕ, String, str_eq, Bool, true, false, not, ◌&&◌, ◌||◌, Option, none, some, List, [], ◌∷◌,
  if◌then◌else◌,
}
use radar_software.Storage.{Values, Kind}
use radar_software.ConfigManager.{Error, system_exception, config_exception}
use radar_software.ConfigManager.Values.{Answer, returns, throws, aborts, get_section, get_value}

-- `struct Message`
pub record Message : Type 0 where
  pub type : String
  pub text : String

unfoldable pub serialize : Message → String
serialize m = m.type ++ (" " ++ m.text)

abbrev pub make_heartbeat_message : String → String
make_heartbeat_message id = "{ \"message\" : \"hearteat\", \"from\" : \"" ++ (id ++ " \" }\n")

pub record Settings : Type 0 where
  pub server_ip_address : String
  pub client_sub_port : String
  pub client_pub_port : String
  pub buffer_size : ℕ
  pub poll_interval : ℕ
  pub heartbeat_interval : ℕ

-- The client, over the type of its handlers. The context and the sockets are made and reset together.
pub record Client (H : Type 0) : Type 0 where
  pub settings : Settings
  pub sockets : Bool
  pub handlers_tbl : List (String × H)
  pub config_loaded : Bool
  pub heartbeat_start : Bool
  pub connected : Bool
  pub message_processing : Bool

-- The constructor; the settings are left as they are found.
abbrev pub new_client : {H : Type 0} → Settings → Client H
new_client garbage = record {
  settings = garbage;
  sockets = false;
  handlers_tbl = [];
  config_loaded = false;
  heartbeat_start = false;
  connected = false;
  message_processing = false;
}

module _ {H : Type 0} where
  -- `_handlers_tbl.find`
  unfoldable pub find_handler : String → List (String × H) → Option H
  find_handler type [] = none
  find_handler type ((key, handler) ∷ tbl) =
      if str_eq key type then some handler else find_handler type tbl

  unfoldable pub register_handler : String → H → Client H → Client H × Answer Unit
  unfolding find_handler
  register_handler type handler c =
      if c.message_processing
      then (c, throws config_exception)
      else elim (find_handler type c.handlers_tbl) [
        | some old ↦ (c, returns tt)
        | none ↦ (record c { handlers_tbl = (type, handler) ∷ c.handlers_tbl }, returns tt)
      ]

  -- `connect`, by whether the context and the sockets could be made.
  unfoldable pub connect : Bool → Client H → Client H × Answer Unit
  connect made c =
      if not c.config_loaded
      then (c, throws config_exception)
      else if made
      then (record c { sockets = true; connected = true }, returns tt)
      else (record c { sockets = false }, throws system_exception)

  -- `connected` stays.
  unfoldable pub disconnect : Client H → Client H
  disconnect c = if not c.connected || c.message_processing then c else record c { sockets = false }

  -- `send_message`, by whether the socket takes the message, with what is sent. Without a socket it
  -- is undefined.
  unfoldable pub send_message : Bool → Message → Client H → Answer String
  unfolding serialize
  send_message taken message c =
      if not c.config_loaded
      then throws config_exception
      else if not c.connected
      then throws config_exception
      else if not c.sockets
      then aborts
      else if taken
      then returns (serialize message)
      else throws system_exception

  -- What `load_config` does with the answer to one `get_value`: any exception becomes a
  -- `ConfigException`, and what was taken before stays.
  abbrev pub settle :
      {T : Type 0} → Answer T → Client H → (T → Client H × Answer Unit) → Client H × Answer Unit
  settle (returns t) c f = f t
  settle (throws e) c f = (c, throws config_exception)
  settle aborts c f = (c, aborts)

  unfoldable pub load_config :
      (values : Values) (text : Kind values.Value String) (uint : Kind values.Value ℕ)
      → Bool
      → values.Value
      → Client H
      → Client H × Answer Unit
  load_config values text uint loaded conf c =
      let string =
        λ (section : values.Value) (key : String). get_value values text section (some key) in
      let number =
        λ (section : values.Value) (key : String). get_value values uint section (some key) in
      let s = c.settings in
      settle (get_section values loaded conf "message_broker_settings") c (λ section.
        settle (string section "server_ip") c (λ server_ip.
          let s1 = record s { server_ip_address = server_ip } in
          settle (string section "client_sub_port") (record c { settings = s1 })
            (λ sub_port.
              let s2 = record s1 { client_sub_port = sub_port } in
              settle (string section "client_pub_port") (record c { settings = s2 })
                (λ pub_port.
                  let s3 = record s2 { client_pub_port = pub_port } in
                  settle (number section "buffer_size") (record c { settings = s3 })
                    (λ size.
                      let s4 = record s3 { buffer_size = size } in
                      settle (number section "poll_interval") (record c { settings = s4 })
                        (λ poll.
                          let s5 = record s4 { poll_interval = poll } in
                          settle (number section "heartbeat_interval") (record c { settings = s5 })
                            (λ beat. (
                              record c {
                                settings = record s5 { heartbeat_interval = beat };
                                config_loaded = true;
                              },
                              returns tt,
                            ))))))))

-- ===== src/TargetEnvironment/Client.antt =====
-- `class Client` of Target Environment/Client/Client.cpp. What the socket answers is an input of each
-- call, and the JSON library a parameter.
pub mod Session
pub mod Decode
use radar_software.Prelude.{
  ℕ, ◌%◌, ◌^◌, ◌==◌, String, str_eq, Bool, true, false, not, ◌&&◌, Option, none, some, List, [],
  ◌∷◌, length, if◌then◌else◌,
}
use radar_software.Storage.{Values, Kind}
use radar_software.ConfigManager.{system_exception, config_exception}
use radar_software.ConfigManager.Values.{Answer, returns, throws}
use radar_software.ConfigManager.Values as Config
use radar_software.Utils.GetValue.{Got, got, and_then, get_value, get_array}
use radar_software.Utils.GetValue as Wrapper
use radar_software.TargetEnvironment.{
  ErrorCode, ok, system_failure, config_failure, register_fail, request_fail, Ended, code, escapes,
  aborts,
}
use radar_software.TargetEnvironment.TargetTable.{Target, TargetTable, add_target, clear}
use radar_software.TargetEnvironment.Messages.{
  register_fail_msg, register_success_msg, request_fail_msg,
}

-- `boost::asio::ip::address`, with `from_string`; `none` is its exception.
pub record Addresses : Type 1 where
  pub Address : Type 0
  pub from_string : String → Option Address

-- The client with the endpoint it was told.
pub record Client (Address : Type 0) : Type 0 where
  pub connected : Bool
  pub config_loaded : Bool
  pub server_endpoint : Option (Address × ℕ)

abbrev pub new_client : {Address : Type 0} → Client Address
new_client = record { connected = false; config_loaded = false; server_endpoint = none }

module _ {Address : Type 0} where
  -- `close_client`, by whether the socket could be shut down and closed. `disconnect` is it.
  unfoldable pub close_client : (shut closed : Bool) → Client Address → Client Address × ErrorCode
  close_client shut closed c =
      let c' = record c { connected = false } in
      if shut then (if closed then (c', ok) else (c', system_failure)) else (c', system_failure)

  -- `connect`, by whether the socket connected, and the line that the server then sent.
  unfoldable pub connect : Bool → Option String → Client Address → Client Address × ErrorCode
  connect connects reply c =
      if c.connected
      then (c, ok)
      else if not c.config_loaded
      then (c, system_failure)
      else if not connects
      then (c, system_failure)
      else elim reply [
        | none ↦ (c, system_failure)
        | some res ↦
            if str_eq res register_success_msg
            then (record c { connected = true }, ok)
            else if str_eq res register_fail_msg
            then (c, register_fail)
            else (c, system_failure)
      ]

-- `load_config`, from the sections of a configuration. The port becomes an `unsigned short`.
module _ (values : Values) (text : Kind values.Value String) (uint : Kind values.Value ℕ)
    (ip : Addresses) where
  -- The values that `load_config` asks for.
  unfoldable pub read_config : Bool → values.Value → Answer (String × ℕ)
  read_config loaded conf = elim (Config.get_section values loaded conf "te_settings") [
    | returns section ↦ elim (Config.get_value values text section (some "ip_address")) [
      | returns server_ip ↦ elim (Config.get_value values uint section (some "port")) [
        | returns server_port ↦ returns (server_ip, server_port)
        | throws e ↦ throws e
        | Answer.aborts ↦ Answer.aborts
      ]
      | throws e ↦ throws e
      | Answer.aborts ↦ Answer.aborts
    ]
    | throws e ↦ throws e
    | Answer.aborts ↦ Answer.aborts
  ]

  unfoldable pub load_config : Bool → values.Value → Client ip.Address → Client ip.Address × Ended
  unfolding read_config
  load_config loaded conf c =
      if c.connected then (c, code system_failure) else elim (read_config loaded conf) [
        | returns (server_ip, server_port) ↦ elim (ip.from_string server_ip) [
          | none ↦ (c, escapes)
          | some address ↦ (
            record c {
              server_endpoint = some (address, server_port % 2 ^ 16);
              config_loaded = true;
            },
            code ok,
          )
        ]
        | throws system_exception ↦ (c, code system_failure)
        | throws config_exception ↦ (c, code config_failure)
        | Answer.aborts ↦ (c, aborts)
      ]

module _ {D : Type 0} (values : Values) (text : Kind values.Value String)
    (uint : Kind values.Value ℕ) (number : Kind values.Value D)
    (parse : String → Option values.Value) where
  -- `get_array<double, 6>(target[key])`
  unfoldable pub get_axis : values.Value → String → Got (List D)
  get_axis target key =
      if values.has_member target key
      then get_array values number 6 (values.member target key)
      else Wrapper.aborted

  -- The entry that one element of the array describes.
  unfoldable pub read_target : values.Value → Got (Target D)
  unfolding get_axis
  read_target target = and_then (get_value values uint target (some "id")) (λ id.
      and_then (get_axis target "X") (λ x. and_then (get_axis target "Y") (λ y.
        and_then (get_axis target "Z")
          (λ z. got (record { target_id = id; x = x; y = y; z = z })))))

  -- The loop over the elements.
  unfoldable pub add_targets : List values.Value → TargetTable D → TargetTable D × Ended
  unfolding read_target
  add_targets [] tbl = (tbl, code ok)
  add_targets (target ∷ rest) tbl =
      if values.is_object target
      then elim (read_target target) [
        | got item ↦ add_targets rest (add_target item tbl)
        | Wrapper.system_error ↦ (tbl, escapes)
        | Wrapper.aborted ↦ (tbl, aborts)
      ]
      else (tbl, code request_fail)

  -- From the values of `message` and `size` on.
  unfoldable pub read_targets : values.Value → String → ℕ → TargetTable D → TargetTable D × Ended
  unfolding add_targets
  read_targets root msg_header ntargets tbl =
      if not (str_eq msg_header "TE_TargetsList")
      then (tbl, code request_fail)
      else if ntargets == 0
      then (tbl, code ok)
      else if not (values.has_member root "targets")
      then (tbl, code request_fail)
      else let targets_array = values.member root "targets" in
        if values.is_array targets_array && (length (values.elements targets_array) == ntargets)
        then add_targets (values.elements targets_array) tbl
        else (tbl, code request_fail)

  -- The two values that the first `try` asks for.
  unfoldable pub read_header : values.Value → Got (String × ℕ)
  read_header root = and_then (get_value values text root (some "message")) (λ msg_header.
      and_then (get_value values uint root (some "size")) (λ ntargets. got (msg_header, ntargets)))

  unfoldable pub deserialize : String → TargetTable D → TargetTable D × Ended
  unfolding read_header read_targets
  deserialize msg tbl = if str_eq msg "" then (tbl, code request_fail) else elim (parse msg) [
    | none ↦ (tbl, code request_fail)
    | some root ↦ elim (read_header root) [
      | got (msg_header, ntargets) ↦ read_targets root msg_header ntargets tbl
      | Wrapper.system_error ↦ (tbl, code request_fail)
      | Wrapper.aborted ↦ (tbl, aborts)
    ]
  ]

  -- `get_targets`, by whether the request was written, the line that the server then sent, and
  -- whether a socket that failed could be shut down and closed.
  unfoldable pub get_targets :
      {Address : Type 0} (written : Bool) (reply : Option String) (shut closed : Bool)
      → Client Address
      → TargetTable D
      → Client Address × (TargetTable D × Ended)
  unfolding deserialize close_client
  get_targets written reply shut closed c tbl =
      if not c.connected
      then (c, (tbl, code request_fail))
      else if not written
      then ((close_client shut closed c).0, (tbl, code system_failure))
      else elim reply [
        | none ↦ ((close_client shut closed c).0, (tbl, code system_failure))
        | some res ↦
            if str_eq res request_fail_msg
            then (c, (tbl, code request_fail))
            else (c, deserialize res (clear tbl))
      ]

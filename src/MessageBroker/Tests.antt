-- ===== src/MessageBroker/Tests.antt =====
-- The theorems about the message broker at concrete inputs.

use radar_software.Prelude.{ℕ, ◌≤◌, ◌≡◌, refl, true, some, List, [], ◌∷◌, map}
use radar_software.ConfigManager.{config_exception}
use radar_software.ConfigManager.Values.{returns, throws, aborts}
use radar_software.MessageBroker.{
  Client, Message, Settings, new_client, serialize, find_handler, connect, disconnect, send_message,
}
use radar_software.MessageBroker.Processing.{
  received, process, start_message_processing, stop_message_processing,
}
use radar_software.MessageBroker.Processing.Routes.{
  IsRouted, rounds_of, start_message_processing-IsRouted, start_message_processing_unknown,
}
use radar_software.MessageBroker.Heartbeat.{send, beats, stop_heartbeat, beats-stop_heartbeat}
use radar_software.MessageBroker.Sessions.{send_message-connect}

abbrev settings : Settings
settings = record {
  server_ip_address = "127.0.0.1";
  client_sub_port = "5001";
  client_pub_port = "5002";
  buffer_size = 64;
  poll_interval = 10;
  heartbeat_interval = 1000;
}

-- Handlers are numbers here.
abbrev client : Client ℕ
client = record (new_client settings) {
  handlers_tbl = ("scan", 1) ∷ ("stop", 2) ∷ [];
  config_loaded = true;
  connected = true;
  sockets = true;
}

abbrev scan : Message
scan = record { type = "scan"; text = "sector 7" }

abbrev unknown : Message
unknown = record { type = "scanner"; text = "on" }

abbrev routes : List (Message × ℕ)
routes = (scan, 1) ∷ []

scan-IsRouted : IsRouted client (scan, 1)
unfolding serialize find_handler
scan-IsRouted = (refl, (refl, (refl, (refl, (refl, tt)))), refl)

routed_example :
    start_message_processing (rounds_of routes) client
    ≡ (map (λ r. (r.1, r.0.text)) routes, (stop_message_processing client, some (returns tt)))
routed_example =
    start_message_processing-IsRouted client routes refl refl refl (λ e. absurd (cc))
      (scan-IsRouted, tt)

unknown_example :
    (process (received (serialize unknown) ∷ []) (record client { message_processing = true })
      ≡ ([], (record client { message_processing = true }, some (throws config_exception))))
    × (start_message_processing [] (record client { message_processing = true })
        ≡ ([], (record client { message_processing = true }, some (throws config_exception))))
unfolding serialize find_handler
unknown_example =
    start_message_processing_unknown (record client { message_processing = true }) unknown [] []
      refl refl (refl, (refl, (refl, (refl, (refl, (refl, (refl, tt))))))) refl

beats_example : beats "radar" (true ∷ true ∷ true ∷ true ∷ []) (stop_heartbeat client) send ≤ 1
beats_example = beats-stop_heartbeat "radar" (true ∷ true ∷ true ∷ true ∷ []) client send

send_message_example :
    (send_message true scan (connect true client).0 ≡ returns (serialize scan))
    × (send_message true scan (disconnect (connect true client).0) ≡ aborts)
send_message_example = send_message-connect client scan refl refl

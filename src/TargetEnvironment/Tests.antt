-- ===== src/TargetEnvironment/Tests.antt =====
-- The theorems about the server and the client of the targets at concrete inputs.
mod Samples
mod Exchanges
use radar_software.Prelude.{
  ℕ, suc, ◌+◌, ◌/◌, ◌≤◌, ◌<◌, ◌==◌, ◌≡◌, refl, ◌↔◌, inl, ◌&&◌, String, str_eq, Bool, true, false,
  Option, none, some, List, [], ◌∷◌, if◌then◌else◌, length, find?, Ensures, arith, u32_mod,
}
use radar_software.Utils.GetValue.{got, get_value, get_double}
use radar_software.TargetEnvironment.{ok, register_fail, code}
use radar_software.TargetEnvironment.TargetTable.{Target, TargetTable, get_target, clear}
use radar_software.TargetEnvironment.Messages.{
  targets_list_msg, list_msg, separated, targets_list_msg_lem,
}
use radar_software.TargetEnvironment.Client.{Client, connect, get_targets, deserialize}
use radar_software.TargetEnvironment.Client.Session.{is_some, get_targets-connected}
use radar_software.TargetEnvironment.Client.Decode.{IsTarget, deserialize-AreTargets}
use radar_software.TargetEnvironment.Request.{read_request, Request}
use radar_software.TargetEnvironment.Catalog.{
  Strings, Keo, parse_keo, result, entry_of, choose_mode,
}
use radar_software.TargetEnvironment.Catalog.Orbits.{
  Elements, Orbit, Numbers, orbit_of, read_elements, recover,
}
use radar_software.TargetEnvironment.Catalog.Epochs.{epoch_of, far_epoch}
use radar_software.Utils.Dates.{dur_data, day_time, julian_date}
use radar_software.TargetEnvironment.Catalog.Reading.{Written, lines_of, parse_keo-lines_of}
use radar_software.ConfigManager.Values.{get_section, get_value as conf_value}
use radar_software.TargetEnvironment.Server.{
  Server, accepted, line, start_read, on_accept, on_read, reply, start, stop, Accepted,
  accept_error, load_config,
}
use radar_software.TargetEnvironment.Server.Slots.{Counts}
use radar_software.TargetEnvironment.Server.Runs.{
  Step, Run, done, step, loads, stops, AllFitting, Run-Counts,
}
use radar_software.TargetEnvironment.Server.Replies.{
  first_of, connect-on_accept, on_read_line, reply-none, found,
}
use radar_software.TargetEnvironment.Tests.Samples.{
  Sample, number, text, object, array, field, end, of_items, samples, texts, numbers, texts-IsKind,
  numbers-IsKind, axis, target, axis_value, target_value, message, parse, whole, sky, running,
  configured,
}

deserialize_example :
    (after : TargetTable ℕ) × (deserialize samples texts numbers numbers parse "list" (clear [])
      ≡ (after, code ok))
    × ((id : ℕ) → get_target after id ≡ find? (λ t. t.target_id == id) (target 7 ∷ target 7 ∷ []))
deserialize_example =
    deserialize-AreTargets samples texts numbers numbers parse texts-IsKind numbers-IsKind
      numbers-IsKind "list" message (target_value 7 ∷ target_value 7 ∷ [])
      (target 7 ∷ target 7 ∷ []) [] refl refl
      (
        refl,
        (refl, refl),
        (refl, refl),
        (array (of_items (target_value 7 ∷ target_value 7 ∷ [])), (refl, refl), (refl, refl)),
      )
      (described, (described, tt))
  where
    described : IsTarget samples texts numbers numbers parse (target_value 7) (target 7)
    described = (
      refl,
      (refl, refl),
      (axis_value, (refl, refl), ((refl, refl), refl)),
      (axis_value, (refl, refl), ((refl, refl), refl)),
      (axis_value, (refl, refl), ((refl, refl), refl)),
    )

separated_example :
    targets_list_msg sky.print_size sky.print_item (target 1 ∷ target 2 ∷ [])
    ≡ some (
        list_msg sky.print_size sky.print_item 2
          (separated sky.print_size sky.print_item (target 1 ∷ target 2 ∷ [])))
separated_example =
    targets_list_msg_lem sky.print_size sky.print_item (target 1 ∷ []) (target 2) (refl, tt)

connect_example :
    if running.clients_counter == running.max_connections
    then (((on_accept accepted true running).0.clients ≡ running.clients)
        × (connect true (first_of (on_accept accepted true running).1) configured
            ≡ (configured, register_fail)))
    else ((length (on_accept accepted true running).0.clients ≡ suc (length running.clients))
        × (connect true (first_of (on_accept accepted true running).1) configured
            ≡ (record configured { connected = true }, ok)))
connect_example = connect-on_accept running configured refl refl

on_read_example :
    Ensures (on_read sky samples texts numbers numbers parse 0 (line "?") running) (λ r.
      (r.0 ≡ start_read 0 (record running { satellites = r.0.satellites })) × (length r.1 ≡ 1))
on_read_example = on_read_line sky samples texts numbers numbers parse 0 "?" running

-- A request for the targets within 100: satellite 50 is out of range, and then there is none.
abbrev request_value : Sample
request_value = object (
    field "message" (text "TE_Request") (
      field "latitude" (number 0) (
        field "longitude" (number 0) (
          field "altitude" (number 0) (
            field "X" (number 0) (
              field "Y" (number 0) (
                field "Z" (number 0) (
                  field "range" (number 100) (
                    field "azimuth_angle" (number 0) (
                      field "azimuth_width" (number 1) (
                        field "elevation_angle" (number 0) (
                          field "elevation_width" (number 1)
                            (field "time" (number 0) end)))))))))))))

abbrev request : Request ℕ
request = record {
  radar_loc = record { latitude = 0; longitude = 0; altitude = 0 };
  area = record {
    x = 0;
    y = 0;
    z = 0;
    range = 100;
    azimuth_angle = 0;
    azimuth_width = 1;
    elevation_angle = 0;
    elevation_width = 1;
  };
  time = 0;
}

request_read : read_request samples texts numbers numbers request_value ≡ got request
unfolding read_request get_value get_double
request_read = refl

reply_example :
    (reply sky samples texts numbers numbers (λ msg. some request_value) (50 ∷ []) "?" ≡ none)
    ↔ (found sky samples texts numbers numbers (λ msg. some request_value) (50 ∷ []) request ≡ [])
reply_example =
    reply-none sky samples texts numbers numbers (λ msg. some request_value) (50 ∷ []) "?"
      request_value request refl refl request_read

stop_ok : (stop true true true running).1 ≡ code ok
unfolding stop
stop_ok = refl

abbrev after : Server ℕ
after = (stop true true true running).0

abbrev settings : Sample
settings = object (
    field "te_settings"
      (object (
        field "port" (number 80)
          (field "max_connections" (number 3) (field "tle_catalog" (text "catalog") end))))
      end)

abbrev loaded : Server ℕ
loaded = (load_config samples texts numbers true settings after).0

-- The server is stopped, and a configuration with another limit is loaded.
abbrev halt : Run sky samples texts numbers numbers parse running loaded 1
halt =
    step running after loaded 1 0 (stops running true true true stop_ok)
      (step after loaded loaded 0 0 (loads after numbers true settings) (done loaded))

fitting : AllFitting sky samples texts numbers numbers parse halt
unfolding load_config get_section conf_value stop
fitting = (tt, ((omega arith, omega arith), tt))

run_example : Counts (1 + 0) loaded
run_example =
    Run-Counts sky samples texts numbers numbers parse 0 1 running loaded halt fitting
      (refl, omega arith, omega arith)

-- Every number of the two lines is taken for 1, and the cosine for its angle.
abbrev ones : Numbers ℕ
ones = record { stoi = λ s. some 1; stod = λ s. some 1; cos = λ a. a; floor = λ a. a }

abbrev zarya_strings : Strings
zarya_strings = record {
  s1 = "1 25544U 98067A   08264.51782528 -.00002182  00000-0 -11606-4 0  2927";
  s2 = "2 25544  51.6416 247.4627 0006703 130.5360 325.0288 15.72125391563537";
  name = "ZARYA";
}

abbrev zarya_elements : Elements ℕ
zarya_elements = record {
  number = 1;
  drag = 1;
  b_star = 10;
  inclination = 1;
  raan = 1;
  eccentricity = 1;
  arg_perigee = 3141592653589793 / 180;
  mean_anomaly = 3141592653589793 / 180;
  mean_motion = 1;
}

abbrev zarya_orbit : Orbit ℕ
zarya_orbit = record { elements = zarya_elements; recovered = recover whole ones zarya_elements }

abbrev zarya : Keo ℕ
zarya = record {
  name = "ZARYA";
  jd = 2451540;
  epoch = 100001;
  orbit = zarya_orbit;
  imode = choose_mode whole zarya_orbit;
}

zarya_says : entry_of whole ones zarya_strings ≡ some zarya
unfolding entry_of epoch_of far_epoch dur_data day_time julian_date orbit_of read_elements
zarya_says = refl

abbrev zarya_written : Written whole ones
zarya_written = record {
  comment = "# the station";
  strings = zarya_strings;
  keo = zarya;
  is_comment = refl;
  is_entry = (refl, refl, refl, refl, refl);
  says = zarya_says;
}

parse_keo_example :
    parse_keo whole ones
      (some (lines_of whole ones (zarya_written ∷ zarya_written ∷ [])))
      (zarya ∷ [])
    ≡ (zarya ∷ zarya ∷ zarya ∷ [], result true)
parse_keo_example = parse_keo-lines_of whole ones (zarya_written ∷ zarya_written ∷ []) (zarya ∷ [])

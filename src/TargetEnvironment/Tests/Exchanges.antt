-- ===== src/TargetEnvironment/Tests/Exchanges.antt =====
-- A request for the targets within 100, of satellites of which one is that near, and its answer.

use Prim.Native.Nat.{Ordering, compare}
use Prim.Native.Char.{Char, char, code as char_code, nul}
use radar_software.Prelude.{
  ℕ, ◌+◌, ◌≡◌, refl, ◌==◌, String, str_eq, true, Option, some, List, [], ◌∷◌, find?, if◌then◌else◌,
}
use radar_software.TargetEnvironment.{ok, code}
use radar_software.TargetEnvironment.TargetTable.{Target, TargetTable, get_target}
use radar_software.TargetEnvironment.Messages.{list_msg}
use radar_software.TargetEnvironment.Client.{Client, get_targets}
use radar_software.TargetEnvironment.Client.Decode.{IsTarget}
use radar_software.TargetEnvironment.Request.{
  Request, find_targets, points, sector_check, seen_from, describe,
}
use radar_software.CoordinateSystems.{degree_to_rad, ecef_to_enu, enu_to_sph}
use radar_software.TargetEnvironment.ComputeParams.{compute_params}
use radar_software.TargetEnvironment.RequestMsg.{request_msg}
use radar_software.TargetEnvironment.Server.{line, start_read, on_read}
use radar_software.TargetEnvironment.Server.Replies.{first_of}
use radar_software.TargetEnvironment.Exchange.{IsRead, IsReadAs, wanted, moved, get_targets-on_read}
use radar_software.TargetEnvironment.Tests.Samples.{
  Sample, number, text, object, array, field, end, of_items, samples, texts, numbers, texts-IsKind,
  numbers-IsKind, sky, running, configured,
}

abbrev request_value : Sample
request_value = object (
    field "message" (text "TE_Request") (
      field "latitude" (number 1) (
        field "longitude" (number 2) (
          field "altitude" (number 3) (
            field "type" (text "spherical_sector") (
              field "X" (number 4) (
                field "Y" (number 5) (
                  field "Z" (number 6) (
                    field "range" (number 100) (
                      field "elevation_angle" (number 0) (
                        field "elevation_width" (number 1) (
                          field "azimuth_angle" (number 0) (
                            field "azimuth_width" (number 1)
                              (field "time" (number 0) end))))))))))))))

abbrev request : Request ℕ
request = record {
  radar_loc = record { latitude = 1; longitude = 2; altitude = 3 };
  area = record {
    x = 4;
    y = 5;
    z = 6;
    range = 100;
    azimuth_angle = 0;
    azimuth_width = 1;
    elevation_angle = 0;
    elevation_width = 1;
  };
  time = 0;
}

abbrev print_number : ℕ → String
print_number n = "1"

-- A text of characters that take one byte each, and back.
abbrev bytes_of : String → List ℕ
bytes_of String.[] = []
bytes_of (String.◌∷◌ c s) = char_code c ∷ bytes_of s

abbrev character : (n : ℕ) (o : Ordering) → compare n 55296 ≡ o → Char
character n Ordering.lt e = char n (rw e tt)
character n _ e = nul

abbrev text_of_bytes : List ℕ → String
text_of_bytes [] = ""
text_of_bytes (n ∷ ns) = String.◌∷◌ (character n (compare n 55296) refl) (text_of_bytes ns)

abbrev fives : List ℕ
fives = 5 ∷ 5 ∷ 5 ∷ 5 ∷ 5 ∷ 5 ∷ []

abbrev near : Target ℕ
near = record { target_id = 5; x = fives; y = fives; z = fives }

abbrev fives_value : Sample
fives_value =
    array (of_items (number 5 ∷ number 5 ∷ number 5 ∷ number 5 ∷ number 5 ∷ number 5 ∷ []))

abbrev near_value : Sample
near_value = object (
    field "id" (number 5)
      (field "X" fives_value (field "Y" fives_value (field "Z" fives_value end))))

abbrev answer_value : Sample
answer_value = object (
    field "message" (text "TE_TargetsList")
      (field "size" (number 1) (field "targets" (array (of_items (near_value ∷ []))) end)))

abbrev answer : String
answer = list_msg sky.print_size sky.print_item (0 + 1) "target"

abbrev parse_two : String → Option Sample
parse_two msg = if str_eq msg answer then some answer_value else some request_value

abbrev client : Client ℕ
client = record configured { connected = true }

request-IsRead :
    IsRead sky samples texts numbers numbers numbers parse_two print_number print_number
      (λ n. n)
      request
request-IsRead = (
  request_value,
  refl,
  (
    refl,
    (
      (refl, refl),
      (
        (refl, refl),
        (
          (refl, refl),
          (
            (refl, refl),
            (
              (refl, refl),
              (
                (refl, refl),
                (
                  (refl, refl),
                  (
                    (refl, refl),
                    (
                      (refl, refl),
                      (
                        (refl, refl),
                        ((refl, refl), ((refl, refl), ((refl, refl), ((refl, refl), tt)))),
                      ),
                    ),
                  ),
                ),
              ),
            ),
          ),
        ),
      ),
    ),
  ),
)

answer-IsReadAs :
    IsReadAs sky samples texts numbers numbers numbers parse_two print_number print_number
      (λ n. n)
      answer
      (near ∷ [])
answer-IsReadAs = (
  answer_value,
  near_value ∷ [],
  refl,
  (
    refl,
    (refl, refl),
    (refl, refl),
    (array (of_items (near_value ∷ [])), (refl, refl), (refl, refl)),
  ),
  (described, tt),
)
  where
    described : IsTarget samples texts numbers numbers parse_two near_value near
    described = (
      refl,
      (refl, refl),
      (fives_value, (refl, refl), ((refl, refl), refl)),
      (fives_value, (refl, refl), ((refl, refl), refl)),
      (fives_value, (refl, refl), ((refl, refl), refl)),
    )

near-wanted :
    wanted sky samples texts numbers numbers numbers parse_two print_number print_number
      (λ n. n)
      running.satellites
      request
    ≡ near ∷ []
unfolding find_targets points sector_check seen_from degree_to_rad ecef_to_enu enu_to_sph describe
    compute_params
near-wanted = refl

exchange_example :
    (on_read sky samples texts numbers numbers parse_two 0
        (line (request_msg bytes_of text_of_bytes print_number print_number request))
        running
      ≡ some (
        start_read 0 (record running {
          satellites =
              moved sky samples texts numbers numbers numbers parse_two print_number print_number
                (λ n. n)
                running.satellites
                request;
        }),
        answer ∷ [],
      ))
    × ((after : TargetTable ℕ) × (get_targets samples texts numbers numbers parse_two true
            (first_of (answer ∷ []))
            true
            true
            client
            []
          ≡ (client, (after, code ok)))
        × ((n : ℕ) → get_target after n ≡ find? (λ t. t.target_id == n) (near ∷ [])))
exchange_example =
    get_targets-on_read sky samples texts numbers numbers numbers parse_two print_number
      print_number (λ n. n) texts-IsKind numbers-IsKind numbers-IsKind numbers-IsKind client [] true
      true running 0 bytes_of text_of_bytes request [] near refl refl refl request-IsRead
      near-wanted tt answer-IsReadAs

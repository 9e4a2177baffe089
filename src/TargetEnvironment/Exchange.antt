-- ===== src/TargetEnvironment/Exchange.antt =====
-- A request and its answer: the client's `get_targets` and the server's `on_read` together.
use Prim.Native.String.{◌++◌ as ◌++ₛ◌}
use radar_software.Prelude.{
  str_eq-append, str_eq-nil, ℕ, ◌==◌, ◌≡◌, refl, ap, ◌∙◌, Bool, String, str_eq, true, false, Option,
  some, List, [], ◌∷◌, ◌++◌, All, find?, map, length, ◌+◌,
}
use radar_software.Double.{Double}
use radar_software.Storage.{Values, Kind, IsKind}
use radar_software.Utils.GetValue.{got}
use radar_software.TargetEnvironment.{ok, code}
use radar_software.TargetEnvironment.Messages.{
  request_fail_msg, list_msg, separated, targets_list_msg, targets_list_msg_lem,
}
use radar_software.TargetEnvironment.TargetTable.{Target, TargetTable, differs, get_target}
use radar_software.TargetEnvironment.Client.{Client, get_targets}
use radar_software.TargetEnvironment.Client.Decode.{IsMessage, AreTargets, deserialize-AreTargets}
use radar_software.TargetEnvironment.Request.{Sky, Request, process_request, read_request}
use radar_software.TargetEnvironment.RequestMsg.{
  request_msg, IsRequest, printed, read_request-IsRequest, text_of, fields, request_msg_lem,
}
use radar_software.TargetEnvironment.Server.{Server, line, start_read, on_read, reply}
use radar_software.TargetEnvironment.Server.Replies.{found, predicted, first_of}

module _ {double : Double} (sky : Sky double) (values : Values) (text : Kind values.Value String)
    (uint uint64 : Kind values.Value ℕ) (number : Kind values.Value double.D)
    (parse : String → Option values.Value) (print_double : double.D → String)
    (print_u64 : ℕ → String) (print : double.D → double.D) where
  -- The text of a request: its numbers as they are printed, each under its key.
  abbrev pub asked_text : Request double.D → String
  asked_text request =
      text_of (fields values text uint64 number print_double print_u64 print request)

  -- The parser reads this text as an object with its members.
  abbrev pub IsRead : Request double.D → Type 0
  IsRead request =
      (root : values.Value) × (parse (asked_text request) ≡ some root)
      × IsRequest values text uint64 number print_double print_u64 print root request

  -- And the text of targets as the message that it is written as, with its targets as they are printed.
  abbrev pub IsReadAs : String → List (Target double.D) → Type 0
  IsReadAs msg targets =
      (root : values.Value) × (vs : List values.Value) × (parse msg ≡ some root)
      × IsMessage values text uint number parse root vs
      × AreTargets values text uint number parse vs targets

  -- The targets that the server finds for a request as it reads it.
  abbrev pub wanted : List sky.Satellite → Request double.D → List (Target double.D)
  wanted satellites request =
      found sky values text uint64 number parse satellites
        (printed values text uint64 number print request)

  -- The satellites after the predictions for it.
  abbrev pub moved : List sky.Satellite → Request double.D → List sky.Satellite
  moved satellites request =
      predicted sky values text uint64 number parse satellites
        (printed values text uint64 number print request)

  -- A target with its numbers as they are printed.
  abbrev pub shown : Target double.D → Target double.D
  shown t = record {
    target_id = t.target_id;
    x = map print t.x;
    y = map print t.y;
    z = map print t.z;
  }

  module _ (texts : IsKind text) (uints : IsKind uint) (uints64 : IsKind uint64)
      (numbers : IsKind number) where
    reply_found :
        (satellites : List sky.Satellite) (request : Request double.D) (response : String)
        → IsRead request
        → targets_list_msg sky.print_size sky.print_item (wanted satellites request) ≡ some response
        → reply sky values text uint64 number parse satellites (asked_text request)
          ≡ some (moved satellites request, response ∷ [])
    unfolding reply process_request
    reply_found satellites request response (root, parsed, (object, members)) e =
        let read : read_request values text uint64 number root
            ≡ got (printed values text uint64 number print request) =
          read_request-IsRequest values text uint64 number texts uints64 numbers print_double
            print_u64 root print request (object, members) in
        let processed : process_request sky satellites
              (printed values text uint64 number print request)
            ≡ some (moved satellites request, (ok, response)) =
          cc in
        cc

    abbrev rest_of : ℕ → String → String
    rest_of n items = sky.print_size n ++ₛ (", \"targets\" : [" ++ₛ (items ++ₛ "]}\n"))

    is_no_fail :
        (n : ℕ) (items : String)
        → str_eq (list_msg sky.print_size sky.print_item n items) request_fail_msg ≡ false
    is_no_fail n items =
        str_eq-append "{ \"message\" : \"TE_" "argetsList\", \"size\" : " "equestFail\" }\n"
          (rest_of n items) "T" "R" refl

    is_some_text :
        (n : ℕ) (items : String)
        → str_eq (list_msg sky.print_size sky.print_item n items) "" ≡ false
    is_some_text n items =
        str_eq-nil " \"message\" : \"TE_TargetsList\", \"size\" : " (rest_of n items) "{"

    -- A connected client sends a request whose text has not exactly 1024 bytes, and the server reads it, finds targets of which none but the
    -- last has the number of the last, and answers: the answer is one message, nothing else
    -- changes at the server but what predictions change in the satellites, and the client ends with
    -- OK and a table that gives for each number the first target found that has it, as it is printed,
    -- where the parser reads the two texts as the objects that they are written as.
    -- The text of a request is written here anew from its numbers and their keys, and its bytes give it
    -- back.
    pub get_targets-on_read :
        {Address : Type 0} (c : Client Address) (tbl : TargetTable double.D) (shut closed : Bool)
        (s : Server sky.Satellite) (id : ℕ) (bytes : String → List ℕ) (of_bytes : List ℕ → String)
        (request : Request double.D) (others : List (Target double.D)) (last_item : Target double.D)
        → of_bytes (bytes (asked_text request)) ≡ asked_text request
        → (length (bytes (asked_text request)) == 1024) ≡ false
        → c.connected ≡ true
        → IsRead request
        → wanted s.satellites request ≡ others ++ (last_item ∷ [])
        → All (λ t. differs t last_item ≡ true) others
        → let targets = others ++ (last_item ∷ []) in
          let response =
            list_msg sky.print_size sky.print_item
              (length others + 1)
              (separated sky.print_size sky.print_item targets) in
          IsReadAs response (map shown targets)
          → (on_read sky values text uint64 number parse id
                (line (request_msg bytes of_bytes print_double print_u64 request))
                s
              ≡ some (
                start_read id (record s { satellites = moved s.satellites request }),
                response ∷ [],
              ))
            × ((after : TargetTable double.D) × (get_targets values text uint number parse true
                    (first_of (response ∷ []))
                    shut
                    closed
                    c
                    tbl
                  ≡ (c, (after, code ok)))
                × ((n : ℕ)
                    → get_target after n ≡ find? (λ t. t.target_id == n) (map shown targets)))
    unfolding on_read get_targets
    get_targets-on_read c tbl shut closed s id bytes of_bytes request others last_item back free
          connected asked e h answered =
        let sent : request_msg bytes of_bytes print_double print_u64 request ≡ asked_text request =
          request_msg_lem values text uint64 number print_double print_u64 print bytes of_bytes
            request back free in
        let response =
          list_msg sky.print_size sky.print_item (length others + 1)
            (separated sky.print_size sky.print_item (others ++ (last_item ∷ []))) in
        let written : targets_list_msg sky.print_size sky.print_item (wanted s.satellites request)
            ≡ some response =
          ap (targets_list_msg sky.print_size sky.print_item) e
          ∙ targets_list_msg_lem sky.print_size sky.print_item others last_item h in
        let replied = reply_found s.satellites request response asked written in
        let (root, vs, parsed, message, targets) = answered in
        let (after, decoded, finds) =
          deserialize-AreTargets values text uint number parse texts uints numbers response root vs
            (map shown (others ++ (last_item ∷ []))) tbl (is_some_text _ _) parsed message
            targets in
        (
          cc,
          (
            after,
            rw
                (
                  connected,
                  is_no_fail (length others + 1)
                      (separated sky.print_size sky.print_item (others ++ (last_item ∷ []))),
                  decoded,
                )
                refl,
            finds,
          ),
        )

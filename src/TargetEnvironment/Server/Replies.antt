-- ===== src/TargetEnvironment/Server/Replies.antt =====
-- What the server sends: to a new client, and for each line of a client.
use radar_software.Prelude.{
  ℕ, suc, ◌≡◌, ◌≢◌, refl, inl, inr, ◌↔◌, ◌==◌, String, true, false, Option, none, some, List, [],
  ◌∷◌, length, Option-cases, Bool-cases, Ensures, Ensures-some, ◌⊎◌, if◌then◌else◌,
}
use radar_software.Double.{Double}
use radar_software.Storage.{Values, Kind}
use radar_software.Utils.GetValue.{got, Got-cases}
use radar_software.TargetEnvironment.{ok, register_fail}
use radar_software.TargetEnvironment.Messages.{targets_list_msg_cases}
use radar_software.TargetEnvironment.Client.{Client, connect}
use radar_software.TargetEnvironment.TargetTable.{Target}
use radar_software.TargetEnvironment.Request.{
  Sky, Request, read_request, process_request, find_targets, reference_time,
}
use radar_software.TargetEnvironment.Server.{
  Server, accepted, line, start_read, on_accept, on_read, reply,
}
use radar_software.TargetEnvironment.Server.Slots.{length-joined, accept_in, accept_full}

-- The first message of a handler, as the client reads it.
abbrev pub first_of : List String → Option String
first_of [] = none
first_of (msg ∷ rest) = some msg

-- A client with a configuration that is not connected, and connects to the server and reads what
-- `on_accept` sends it: the client is connected afterwards and the server has one client more, or
-- the server is full and unchanged in its clients, and the client gets `RegisterFail` and stays as it was.
pub connect-on_accept :
    {Satellite Address : Type 0} (s : Server Satellite) (c : Client Address)
    → c.connected ≡ false
    → c.config_loaded ≡ true
    → if s.clients_counter == s.max_connections
      then (((on_accept accepted true s).0.clients ≡ s.clients)
          × (connect true (first_of (on_accept accepted true s).1) c ≡ (c, register_fail)))
      else ((length (on_accept accepted true s).0.clients ≡ suc (length s.clients))
          × (connect true (first_of (on_accept accepted true s).1) c
              ≡ (record c { connected = true }, ok)))
unfolding connect
connect-on_accept s c fresh configured =
    elim (Bool-cases (s.clients_counter == s.max_connections)) [
      | inl e ↦ rw (e, accept_full true s e, fresh, configured) (refl, refl)
      | inr e ↦ rw (e, accept_in s e, fresh, configured) (length-joined s, refl)
    ]

module _ {double : Double} (sky : Sky double) (values : Values) (text : Kind values.Value String)
    (uint64 : Kind values.Value ℕ) (number : Kind values.Value double.D)
    (parse : String → Option values.Value) where
  -- The targets that `process_request` finds, and the satellites with what the predictions changed.
  abbrev pub found : List sky.Satellite → Request double.D → List (Target double.D)
  found satellites request =
      (find_targets sky (reference_time sky request.time) request.area request.radar_loc
        satellites).1

  abbrev pub predicted : List sky.Satellite → Request double.D → List sky.Satellite
  predicted satellites request =
      (find_targets sky (reference_time sky request.time) request.area request.radar_loc
        satellites).0

  -- The code is OK, and there is a message unless nothing was found.
  processed :
      (satellites : List sky.Satellite) (request : Request double.D)
      → ((found satellites request ≡ []) × (process_request sky satellites request ≡ none))
        ⊎ ((found satellites request ≢ [])
            × ((msg : String) × (process_request sky satellites request
                  ≡ some (predicted satellites request, (ok, msg)))))
  unfolding process_request
  processed satellites request =
      elim (targets_list_msg_cases sky.print_size sky.print_item (found satellites request)) [
        | inl (empty, e) ↦ inl (empty, cc)
        | inr (some_found, (msg, e)) ↦ inr (some_found, (msg, cc))
      ]

  reply_lem :
      (satellites : List sky.Satellite) (msg : String)
      → Ensures
          (reply sky values text uint64 number parse satellites msg)
          (λ sent. length sent.1 ≡ 1)
  unfolding reply
  reply_lem satellites msg = elim (Option-cases (parse msg)) [
    | inl e ↦ rw (e, Ensures) refl
    | inr (root, e) ↦ elim (Bool-cases (values.is_object root)) [
      | inr f ↦ rw (e, f, Ensures) refl
      | inl f ↦ elim (Got-cases (read_request values text uint64 number root)) [
        | inr (inl g) ↦ rw (e, f, g, Ensures) refl
        | inr (inr g) ↦ rw (e, f, g, Ensures) tt
        | inl (request, g) ↦ elim (processed satellites request) [
          | inl (empty, h) ↦ rw (e, f, g, h, Ensures) tt
          | inr (some_found, (response, h)) ↦ rw (e, f, g, h, Ensures) refl
        ]
      ]
    ]
  ]

  -- A line of a client is answered by exactly one message, the connection is read again, and nothing
  -- else changes but what predictions change in the satellites, unless the program ends.
  pub on_read_line :
      (id : ℕ) (msg : String) (s : Server sky.Satellite)
      → Ensures
          (on_read sky values text uint64 number parse id (line msg) s)
          (λ r. (r.0 ≡ start_read id (record s { satellites = r.0.satellites })) × (length r.1 ≡ 1))
  unfolding on_read
  on_read_line id msg s =
      elim (Option-cases (reply sky values text uint64 number parse s.satellites msg)) [
        | inl e ↦ rw (e, Ensures) tt
        | inr (sent, e) ↦
            rw (e, Ensures)
              (refl, Ensures-some (λ out. length out.1 ≡ 1) e (reply_lem s.satellites msg))
      ]

  -- A request of which every value is there and of its kind is answered, unless no target is found:
  -- then the message is made of the last target of an empty vector.
  pub reply-none :
      (satellites : List sky.Satellite) (msg : String) (root : values.Value)
      (request : Request double.D)
      → parse msg ≡ some root
      → values.is_object root ≡ true
      → read_request values text uint64 number root ≡ got request
      → (reply sky values text uint64 number parse satellites msg ≡ none)
        ↔ (found satellites request ≡ [])
  unfolding reply
  reply-none satellites msg root request e f g = elim (processed satellites request) [
    | inl (empty, h) ↦ (λ k. empty, λ k. cc)
    | inr (some_found, (response, h)) ↦ (λ k. absurd (cc), λ k. absurd (some_found k))
  ]

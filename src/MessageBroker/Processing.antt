-- ===== src/MessageBroker/Processing.antt =====
-- The processing of messages in MessageBroker/Client.cpp: `start_message_processing` and its loop over
-- what polling and reading the socket give, in which `stop_message_processing` may be called anywhere.
pub mod Routes
use Prim.Native.Char.{code as char_code}
use Prim.Native.String.{len}
use radar_software.Prelude.{
  split_space, NoSpace, split_space-append, ℕ, ◌==◌, leb, String, Bool, true, false, not, Option,
  none, some, List, [], ◌∷◌, map, if◌then◌else◌,
}
use radar_software.ConfigManager.{system_exception, config_exception}
use radar_software.ConfigManager.Values.{Answer, returns, throws, aborts}
use radar_software.MessageBroker.{Client, find_handler}

-- What one round of the loop meets.
pub data Polled : Type 0 where
  no_event : Polled
  received : String → Polled
  -- `zmq_recv` failed, or the socket has no input, with an error or not; by whether it is `ETERM`.
  recv_failed : (term : Bool) → Polled
  poll_error : (term : Bool) → Polled
  no_input : Polled
  -- An exception of `zmq::poll`.
  poll_throws : Polled
  stop_called : Polled

-- The calls of handlers, the client, and how the loop ended; `none` waits for a next round.
abbrev pub Processed : Type 0 → Type 0
Processed H = List (H × String) × (Client H × Option (Answer Unit))

module _ {H : Type 0} where
  -- The handler for a message and the text that it is called with. Of a message without a space, or
  -- longer than the buffer, the code reads bytes behind it: `aborts`.
  unfoldable pub dispatch : Client H → String → Answer (H × String)
  unfolding split_space find_handler
  dispatch c message =
      if not (leb (len message) c.settings.buffer_size)
      then aborts
      else elim (split_space message) [
        | none ↦ aborts
        | some (address, text) ↦ elim (find_handler address c.handlers_tbl) [
          | none ↦ throws config_exception
          | some handler ↦ returns (handler, text)
        ]
      ]

  unfoldable pub stop_message_processing : Client H → Client H
  stop_message_processing c = record c { message_processing = false }

  -- The part before the loop, with the types that are subscribed to.
  unfoldable pub begin_processing : Client H → Client H × Answer (List String)
  begin_processing c =
      if c.message_processing
      then (c, throws config_exception)
      else if not c.connected
      then (c, throws config_exception)
      else elim c.handlers_tbl [
        | [] ↦ (c, throws config_exception)
        | first ∷ rest ↦
            if not c.sockets
            then (c, aborts)
            else (record c { message_processing = true }, returns (map (λ e. e.0) (first ∷ rest)))
      ]

  unfoldable pub process : List Polled → Client H → Processed H
  unfolding dispatch stop_message_processing
  process [] c = if c.message_processing then ([], (c, none)) else ([], (c, some (returns tt)))
  process (stop_called ∷ more) c =
      let rest = process more (stop_message_processing c) in
      if c.message_processing then rest else ([], (c, some (returns tt)))
  process (no_event ∷ more) c = process more c
  process (received message ∷ more) c =
      let (calls, result) = process more c in
      if c.message_processing
      then elim (dispatch c message) [
        | returns call ↦ (call ∷ calls, result)
        | throws e ↦ ([], (c, some (throws e)))
        | aborts ↦ ([], (c, some aborts))
      ]
      else ([], (c, some (returns tt)))
  process (recv_failed term ∷ more) c =
      if c.message_processing
      then (if term
          then ([], (c, some (returns tt)))
          else ([], (c, some (throws system_exception))))
      else ([], (c, some (returns tt)))
  -- The buffer is deleted, and the next round uses it.
  process (poll_error term ∷ more) c =
      if c.message_processing
      then (if term then ([], (c, some (returns tt))) else ([], (c, some aborts)))
      else ([], (c, some (returns tt)))
  process (no_input ∷ more) c =
      if c.message_processing
      then ([], (c, some (throws system_exception)))
      else ([], (c, some (returns tt)))
  process (poll_throws ∷ more) c =
      if c.message_processing
      then ([], (c, some (throws system_exception)))
      else ([], (c, some (returns tt)))

  unfoldable pub start_message_processing : List Polled → Client H → Processed H
  unfolding begin_processing process
  start_message_processing events c =
      let (c', begun) = begin_processing c in
      elim begun [
        | returns types ↦ process events c'
        | throws e ↦ ([], (c', some (throws e)))
        | aborts ↦ ([], (c', some aborts))
      ]

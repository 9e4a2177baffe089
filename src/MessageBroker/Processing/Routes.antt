-- ===== src/MessageBroker/Processing/Routes.antt =====
-- Where the messages of a broker client go.

use Prim.Native.String.{len}
use radar_software.Prelude.{
  split_space, NoSpace, split_space-append, leb, ◌≡◌, refl, ◌∙◌, ◌≢◌, String, true, false, none,
  some, List, [], ◌∷◌, map, inl, inr, All, List-cases,
}
use radar_software.ConfigManager.{config_exception}
use radar_software.ConfigManager.Values.{returns, throws}
use radar_software.MessageBroker.{Client, Message, serialize, find_handler}
use radar_software.MessageBroker.Processing.{
  Polled, received, stop_called, dispatch, process, start_message_processing, begin_processing,
  stop_message_processing,
}

split_serialize : (m : Message) → NoSpace m.type → split_space (serialize m) ≡ some (m.type, m.text)
unfolding serialize
split_serialize m plain = split_space-append m.type m.text plain

module _ {H : Type 0} where
  process_stop :
      (c : Client H)
      → c.message_processing ≡ true
      → process (stop_called ∷ []) c ≡ ([], (stop_message_processing c, some (returns tt)))
  unfolding process stop_message_processing
  process_stop c running = rw running refl

  -- The message fits in the buffer, its type has no space, and the handler is registered for it.
  abbrev pub IsRouted : Client H → Message × H → Type 0
  IsRouted c (m, handler) =
      (leb (len (serialize m)) c.settings.buffer_size ≡ true)
      × NoSpace m.type
      × (find_handler m.type c.handlers_tbl ≡ some handler)

  dispatch_found :
      (c : Client H) (m : Message) (handler : H)
      → IsRouted c (m, handler)
      → dispatch c (serialize m) ≡ returns (handler, m.text)
  unfolding dispatch
  dispatch_found c m handler (fits, plain, found) = let split = split_serialize m plain in cc

  receive_found :
      (c : Client H) (m : Message) (handler : H) (more : List Polled)
      → c.message_processing ≡ true
      → IsRouted c (m, handler)
      → process (received (serialize m) ∷ more) c
        ≡ ((handler, m.text) ∷ (process more c).0, (process more c).1)
  unfolding process
  receive_found c m handler more running routed = simp (running, dispatch_found c m handler routed)

  -- The rounds of a list of messages, and then a call of `stop_message_processing`.
  abbrev pub rounds_of : List (Message × H) → List Polled
  rounds_of [] = stop_called ∷ []
  rounds_of ((m, handler) ∷ more) = received (serialize m) ∷ rounds_of more

  process_rounds :
      (c : Client H) (routes : List (Message × H))
      → c.message_processing ≡ true
      → All (IsRouted c) routes
      → process (rounds_of routes) c
        ≡ (map (λ r. (r.1, r.0.text)) routes, (stop_message_processing c, some (returns tt)))
  process_rounds c [] running h = process_stop c running
  process_rounds c ((m, handler) ∷ more) running (first, rest) =
      receive_found c m handler (rounds_of more) running first
      ∙ rw (process_rounds c more running rest) refl

  -- The loop takes the client as it is when the processing has begun.
  abbrev begun : Client H → Client H
  begun c = record c { message_processing = true }

  begin_found :
      (c : Client H) (first : String × H) (rest : List (String × H))
      → c.message_processing ≡ false
      → c.connected ≡ true
      → c.sockets ≡ true
      → c.handlers_tbl ≡ first ∷ rest
      → begin_processing c ≡ (begun c, returns (map (λ e. e.0) (first ∷ rest)))
  unfolding begin_processing
  begin_found c first rest idle connected made e = cc

  begin_running :
      (c : Client H)
      → c.message_processing ≡ true
      → begin_processing c ≡ (c, throws config_exception)
  unfolding begin_processing
  begin_running c running = cc

  start_found :
      (c : Client H) (events : List Polled)
      → c.message_processing ≡ false
      → c.connected ≡ true
      → c.sockets ≡ true
      → c.handlers_tbl ≢ []
      → start_message_processing events c ≡ process events (begun c)
  unfolding start_message_processing
  start_found c events idle connected made some_handler = elim (List-cases c.handlers_tbl) [
    | inl e ↦ absurd (some_handler e)
    | inr (first, rest, e) ↦ let begin = begin_found c first rest idle connected made e in cc
  ]

  -- A client that is connected, has its sockets and a handler, and is not processing, calls for the
  -- messages that it receives before `stop_message_processing` exactly their handlers, each with its
  -- message's text, in the order of the messages, and returns idle: where the messages fit in the
  -- buffer, their types have no space, and a handler is registered for each.
  pub start_message_processing-IsRouted :
      (c : Client H) (routes : List (Message × H))
      → c.message_processing ≡ false
      → c.connected ≡ true
      → c.sockets ≡ true
      → c.handlers_tbl ≢ []
      → All (IsRouted c) routes
      → start_message_processing (rounds_of routes) c
        ≡ (map (λ r. (r.1, r.0.text)) routes, (stop_message_processing c, some (returns tt)))
  unfolding stop_message_processing
  start_message_processing-IsRouted c routes idle connected made some_handler h =
      start_found c (rounds_of routes) idle connected made some_handler
      ∙ process_rounds (begun c) routes refl h

  dispatch_unknown :
      (c : Client H) (m : Message)
      → leb (len (serialize m)) c.settings.buffer_size ≡ true
      → NoSpace m.type
      → find_handler m.type c.handlers_tbl ≡ none
      → dispatch c (serialize m) ≡ throws config_exception
  unfolding dispatch
  dispatch_unknown c m fits plain unknown = let split = split_serialize m plain in cc

  -- A message of a type without a handler ends the processing with a `ConfigException`, whatever
  -- would come after it, and the client stays marked as processing: starting it again throws.
  pub start_message_processing_unknown :
      (c : Client H) (m : Message) (more again : List Polled)
      → c.message_processing ≡ true
      → leb (len (serialize m)) c.settings.buffer_size ≡ true
      → NoSpace m.type
      → find_handler m.type c.handlers_tbl ≡ none
      → (process (received (serialize m) ∷ more) c ≡ ([], (c, some (throws config_exception))))
        × (start_message_processing again c ≡ ([], (c, some (throws config_exception))))
  unfolding process start_message_processing
  start_message_processing_unknown c m more again running fits plain unknown =
      let begin = begin_running c running in
      (simp (running, dispatch_unknown c m fits plain unknown), cc)

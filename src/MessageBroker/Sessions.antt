-- ===== src/MessageBroker/Sessions.antt =====
-- The connection of a broker client and its table of handlers.
use radar_software.Prelude.{
  ◌≡◌, refl, sym, ap, ◌∙◌, inl, inr, String, str_eq, str_eq_iff, true, false, none, some, ◌∷◌,
  if◌then◌else◌, Bool-cases, Option-cases, or_else, or_else-none,
}
use radar_software.ConfigManager.Values.{returns, aborts}
use radar_software.MessageBroker.{
  Client, Message, serialize, find_handler, register_handler, connect, disconnect, send_message,
}

module _ {H : Type 0} where
  -- A client with a configuration that has connected sends its messages as they are serialized; and
  -- after `disconnect` sending is undefined, since the client stays marked as connected.
  pub send_message-connect :
      (c : Client H) (m : Message)
      → c.config_loaded ≡ true
      → c.message_processing ≡ false
      → (send_message true m (connect true c).0 ≡ returns (serialize m))
        × (send_message true m (disconnect (connect true c).0) ≡ aborts)
  unfolding send_message connect disconnect
  send_message-connect c m loaded idle =
      let made = connect_made c loaded in (rw made (simp loaded), rw made (simp (idle, loaded)))
    where
      connect_made :
          (c : Client H)
          → c.config_loaded ≡ true
          → connect true c ≡ (record c { sockets = true; connected = true }, returns tt)
      connect_made c loaded = cc

  register_new :
      (type : String) (handler : H) (c : Client H)
      → c.message_processing ≡ false
      → find_handler type c.handlers_tbl ≡ none
      → register_handler type handler c
        ≡ (record c { handlers_tbl = (type, handler) ∷ c.handlers_tbl }, returns tt)
  unfolding register_handler
  register_new type handler c idle e = cc

  register_old :
      (type : String) (handler old : H) (c : Client H)
      → c.message_processing ≡ false
      → find_handler type c.handlers_tbl ≡ some old
      → register_handler type handler c ≡ (c, returns tt)
  unfolding register_handler
  register_old type handler old c idle e = cc

  -- Registering a handler while no messages are processed adds it for its type if there was none,
  -- and changes nothing for a type that has one.
  pub find_handler-register_handler :
      (type other : String) (handler : H) (c : Client H)
      → c.message_processing ≡ false
      → find_handler other (register_handler type handler c).0.handlers_tbl
        ≡ or_else
            (find_handler other c.handlers_tbl)
            (if str_eq type other then some handler else none)
  unfolding find_handler
  find_handler-register_handler type other handler c idle =
      elim (Option-cases (find_handler type c.handlers_tbl)) [
        | inl e ↦ elim (Bool-cases (str_eq type other)) [
          | inl same ↦
              let here : find_handler other c.handlers_tbl ≡ none =
                ap (λ t. find_handler t c.handlers_tbl) (sym ((str_eq_iff type other).0 same))
                ∙ e in
              rw (register_new type handler c idle e, same, here) refl
          | inr differ ↦
              rw (register_new type handler c idle e, differ)
                (sym (or_else-none (find_handler other c.handlers_tbl)))
        ]
        | inr (old, e) ↦ elim (Bool-cases (str_eq type other)) [
          | inl same ↦
              let here : find_handler other c.handlers_tbl ≡ some old =
                ap (λ t. find_handler t c.handlers_tbl) (sym ((str_eq_iff type other).0 same))
                ∙ e in
              rw (register_old type handler old c idle e, here) refl
          | inr differ ↦
              rw (register_old type handler old c idle e, differ)
                (sym (or_else-none (find_handler other c.handlers_tbl)))
        ]
      ]

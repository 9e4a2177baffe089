-- ===== src/TargetEnvironment/Server/Slots.antt =====
-- The counter of the server's clients against the list of them, over every run of the server.
use radar_software.Prelude.{
  ℕ, suc, ◌+◌, ◌≤◌, ◌<◌, ◌≡◌, ◌≢◌, refl, ap, ◌∙◌, ◌==◌, Bool, true, false, not, ◌&&◌, List, [], ◌∷◌,
  ◌++◌, inl, inr, add32, length, length-append, Any, u32_mod, arith, Bool-cases, both_branches,
  eq→==, ==-false→ne, String, some, ◌%◌, ◌^◌, sym,
}
use radar_software.TargetEnvironment.{ok, Ended, code, aborts}
use radar_software.ConfigManager.Values.{Answer, returns, throws, get_section, get_value}
use radar_software.Storage.{Values, Kind}
use radar_software.TargetEnvironment.Messages.{register_fail_msg, register_success_msg}
use radar_software.TargetEnvironment.Server.{
  Connection, Server, start_read, start_accept, Accepted, accepted, operation_aborted, accept_error,
  set_reading, erase, on_accept, drop_client, stop, start, settle, load_config,
}

pub length-set_reading :
    (reading : Bool) (id : ℕ) (cs : List Connection)
    → length (set_reading reading id cs) ≡ length cs
length-set_reading reading id [] = refl
length-set_reading reading id (c ∷ cs) = elim (Bool-cases (c.id == id)) [
  | inl e ↦ rw e (ap suc (length-set_reading reading id cs))
  | inr e ↦ rw e (ap suc (length-set_reading reading id cs))
]

-- The connection is one of the list.
abbrev pub IsClient : ℕ → List Connection → Type 0
IsClient id cs = Any (λ c. c.id ≡ id) cs

length-erase :
    (id : ℕ) (cs : List Connection) → IsClient id cs → suc (length (erase id cs)) ≡ length cs
length-erase id [] h = absurd h
length-erase id (c ∷ cs) (inl e) = rw (eq→== _ _ e) refl
length-erase id (c ∷ cs) (inr h) = elim (Bool-cases (c.id == id)) [
  | inl e ↦ rw e refl
  | inr e ↦ rw e (ap suc (length-erase id cs h))
]

module _ {Satellite : Type 0} where
  -- The counter counts the clients and the places that were lost, within the limit.
  abbrev pub Counts : ℕ → Server Satellite → Type 0
  Counts lost s =
      (s.clients_counter ≡ length s.clients + lost)
      × (s.clients_counter ≤ s.max_connections)
      × (s.max_connections < u32_mod)

  -- The server with one more client.
  abbrev pub joined : Server Satellite → Server Satellite
  joined s = start_accept (
      start_read s.next (record s {
        clients = s.clients ++ (record { id = s.next; reading = false } ∷ []);
        clients_counter = add32 s.clients_counter 1;
        next = suc s.next;
      }))

  pub accept_full :
      (inserted : Bool) (s : Server Satellite)
      → (s.clients_counter == s.max_connections) ≡ true
      → on_accept accepted inserted s ≡ (start_accept s, register_fail_msg ∷ [])
  unfolding on_accept
  accept_full inserted s e = cc

  pub accept_in :
      (s : Server Satellite)
      → (s.clients_counter == s.max_connections) ≡ false
      → on_accept accepted true s ≡ (joined s, register_success_msg ∷ [])
  unfolding on_accept
  accept_in s e = cc

  accept_failed :
      (s : Server Satellite)
      → (s.clients_counter == s.max_connections) ≡ false
      → on_accept accepted false s ≡ (start_accept s, [])
  unfolding on_accept
  accept_failed s e = cc

  pub length-joined : (s : Server Satellite) → length (joined s).clients ≡ suc (length s.clients)
  length-joined s =
      let new = record { id = s.next; reading = false } ∷ [] in
      length-set_reading true s.next (s.clients ++ new) ∙ length-append s.clients new ∙ omega arith

  joined-Counts :
      (lost : ℕ) (s : Server Satellite)
      → (s.clients_counter == s.max_connections) ≡ false
      → Counts lost s
      → Counts lost (joined s)
  joined-Counts lost s e (counted, below, small) =
      let more = length-joined s in
      let room = ==-false→ne _ _ e in
      (
        omega (arith, more, room, counted, below, small),
        omega (arith, room, counted, below, small),
        small,
      )

  pub on_accept-Counts :
      (lost : ℕ) (ec : Accepted) (inserted : Bool) (s : Server Satellite)
      → Counts lost s
      → Counts lost (on_accept ec inserted s).0
  unfolding on_accept
  on_accept-Counts lost accepted true s h =
      elim (Bool-cases (s.clients_counter == s.max_connections)) [
        | inl e ↦ rw (accept_full true s e) h
        | inr e ↦ rw (accept_in s e) (joined-Counts lost s e h)
      ]
  on_accept-Counts lost accepted false s h =
      elim (Bool-cases (s.clients_counter == s.max_connections)) [
        | inl e ↦ rw (accept_full false s e) h
        | inr e ↦ rw (accept_failed s e) h
      ]
  on_accept-Counts lost operation_aborted inserted s h = h
  on_accept-Counts lost accept_error inserted s h = h

  pub drop_client-Counts :
      (lost id : ℕ) (s : Server Satellite)
      → IsClient id s.clients
      → Counts lost s
      → Counts lost (drop_client id s)
  unfolding drop_client
  drop_client-Counts lost id s here (counted, below, small) =
      let one_less = length-erase id s.clients here in
      (
        omega (arith, one_less, counted, below, small),
        omega (arith, one_less, counted, below, small),
        small,
      )

  pub start-Counts :
      (lost : ℕ) (entries : List Satellite) (parsed opened bound closed listened : Bool)
      (s : Server Satellite)
      → Counts lost s
      → Counts lost (start entries parsed opened bound closed listened s).0
  unfolding start
  start-Counts lost entries parsed opened bound closed listened s h =
      let P : Server Satellite × Ended → Type 0 = λ r. Counts lost r.0 in
      both_branches P (not s.stopped) h (
        both_branches P (not s.config_loaded) h (
          both_branches P (not parsed) h (
            both_branches P (not opened) h
              (both_branches P (not bound) h (both_branches P (not listened) h h)))))

  -- The same clients and the same counter.
  abbrev SameClients : Server Satellite → Server Satellite × Ended → Type 0
  SameClients s r = (r.0.clients ≡ s.clients) × (r.0.clients_counter ≡ s.clients_counter)

  settle-SameClients :
      {T : Type 0} (s s' : Server Satellite) (answer : Answer T) (f : T → Server Satellite × Ended)
      → SameClients s (s', aborts)
      → ((t : T) → SameClients s (f t))
      → SameClients s (settle answer s' f)
  settle-SameClients s s' (returns t) f same each = each t
  settle-SameClients s s' (throws e) f same each = same
  settle-SameClients s s' Answer.aborts f same each = same

  load_config-SameClients :
      (values : Values) (text : Kind values.Value String) (uint : Kind values.Value ℕ)
      (loaded : Bool) (conf : values.Value) (s : Server Satellite)
      → SameClients s (load_config values text uint loaded conf s)
  unfolding load_config
  load_config-SameClients values text uint loaded conf s =
      both_branches (SameClients s) (not s.stopped) same (
        settle-SameClients s s (get_section values loaded conf "te_settings") _ same λ section.
          settle-SameClients s s (get_value values uint section (some "port")) _ same λ port.
            settle-SameClients s (record s { port = port % 2 ^ 16 })
              (get_value values uint section (some "max_connections")) _ same
              λ limit.
                settle-SameClients s (record s { port = port % 2 ^ 16; max_connections = limit })
                  (get_value values text section (some "tle_catalog")) _ same λ path. same)
    where
      same : (s.clients ≡ s.clients) × (s.clients_counter ≡ s.clients_counter)
      same = (refl, refl)

  -- A new limit that is not below the counter keeps the count.
  pub load_config-Counts :
      (values : Values) (text : Kind values.Value String) (uint : Kind values.Value ℕ)
      (loaded : Bool) (conf : values.Value) (lost : ℕ) (s : Server Satellite)
      → let s' = (load_config values text uint loaded conf s).0 in
        s.clients_counter ≤ s'.max_connections
        → s'.max_connections < u32_mod
        → Counts lost s
        → Counts lost s'
  load_config-Counts values text uint loaded conf lost s fits small h =
      let (clients, counter) = load_config-SameClients values text uint loaded conf s in
      (counter ∙ h.0 ∙ ap (λ cs. length cs + lost) (sym clients), rw counter fits, small)

  -- A `stop` that ends with OK clears the list and leaves the counter, and any other leaves both.
  abbrev pub StopCounts : ℕ → Server Satellite → Server Satellite × Ended → Type 0
  StopCounts lost s r =
      (r.1 ≡ code ok → Counts (length s.clients + lost) r.0) × (r.1 ≢ code ok → Counts lost r.0)

  pub stop-Counts :
      (lost : ℕ) (cancelled closed shut : Bool) (s : Server Satellite)
      → Counts lost s
      → StopCounts lost s (stop cancelled closed shut s)
  unfolding stop
  stop-Counts lost cancelled closed shut s h =
      both_branches (StopCounts lost s) (s.acceptor_open && not cancelled)
        ((λ e. absurd (cc)), λ e. h)
        (both_branches (StopCounts lost s) (s.acceptor_open && not closed)
          ((λ e. absurd (cc)), λ e. h)
          (both_branches (StopCounts lost s) (not shut) ((λ e. absurd (cc)), λ e. h)
            ((λ e. (omega (arith, h.0), h.1, h.2)), λ e. absurd (e refl))))

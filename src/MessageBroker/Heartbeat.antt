-- ===== src/MessageBroker/Heartbeat.antt =====
-- The heartbeat of MessageBroker/Client.cpp: the thread that `start_heartbeat` makes, step by step.
use radar_software.Prelude.{
  ℕ, suc, ◌≤◌, ◌≡◌, refl, inl, inr, ◌⊎◌, String, Bool, true, false, not, Option, none, some, List,
  [], ◌∷◌, if◌then◌else◌, arith,
}
use radar_software.ConfigManager.{config_exception}
use radar_software.ConfigManager.Values.{Answer, Answer-cases, returns, throws, aborts}
use radar_software.MessageBroker.{Client, make_heartbeat_message, send_message}

-- Where the thread stands: at the test of the loop, at the call of `send_message`, asleep, or at its
-- end. A call that is undefined ends the program, and with it the thread.
pub data Thread : Type 0 where
  test : Thread
  send : Thread
  sleep : Thread
  ended : Thread

-- The messages that may be on their way.
abbrev pub pending : Thread → ℕ
pending send = 1
pending _ = 0

pending_one : (thread : Thread) → pending thread ≤ 1
pending_one test = omega arith
pending_one send = omega arith
pending_one sleep = omega arith
pending_one ended = omega arith

module _ {H : Type 0} where
  -- The part of `start_heartbeat` up to the thread, which starts at its test; and the part behind it.
  unfoldable pub start_heartbeat : Client H → Answer Thread
  start_heartbeat c =
      if not c.config_loaded
      then throws config_exception
      else if not c.connected
      then throws config_exception
      else returns test

  abbrev pub mark_heartbeat : Client H → Client H
  mark_heartbeat c = record c { heartbeat_start = true }

  unfoldable pub stop_heartbeat : Client H → Client H
  stop_heartbeat c = record c { heartbeat_start = false }

  -- One step of the thread, by whether the socket takes a message, with what it sends.
  unfoldable pub beat :
      (id : String) → Bool → Client H → Thread → Client H × (Thread × Option String)
  unfolding send_message
  beat id taken c test = if c.heartbeat_start then (c, (send, none)) else (c, (ended, none))
  beat id taken c send =
      elim (send_message taken (record { type = "heartbeat"; text = make_heartbeat_message id })
        c) [
          | returns sent ↦ (c, (sleep, some sent))
          | throws e ↦ (record c { heartbeat_start = false }, (ended, none))
          | aborts ↦ (c, (ended, none))
        ]
  beat id taken c sleep = (c, (test, none))
  beat id taken c ended = (c, (ended, none))

  -- The messages that the thread sends in its next steps.
  unfoldable pub beats : String → List Bool → Client H → Thread → ℕ
  unfolding beat
  beats id [] c thread = 0
  beats id (taken ∷ more) c thread =
      let (c', next) = beat id taken c thread in
      let rest = beats id more c' next.0 in elim next.1 [ none ↦ rest | some sent ↦ suc rest ]

  beats_silent :
      (id : String) (taken : Bool) (more : List Bool) (c c' : Client H) (thread next : Thread)
      → beat id taken c thread ≡ (c', (next, none))
      → beats id (taken ∷ more) c thread ≡ beats id more c' next
  unfolding beats
  beats_silent id taken more c c' thread next e = cc

  beats_sending :
      (id : String) (taken : Bool) (more : List Bool) (c c' : Client H) (thread next : Thread)
      (sent : String)
      → beat id taken c thread ≡ (c', (next, some sent))
      → beats id (taken ∷ more) c thread ≡ suc (beats id more c' next)
  unfolding beats
  beats_sending id taken more c c' thread next sent e = cc

  beat_test :
      (id : String) (taken : Bool) (c : Client H)
      → c.heartbeat_start ≡ false
      → beat id taken c test ≡ (c, (ended, none))
  unfolding beat
  beat_test id taken c off = cc

  beat_send :
      (id : String) (taken : Bool) (c : Client H)
      → ((sent : String) × (beat id taken c send ≡ (c, (sleep, some sent))))
        ⊎ ((beat id taken c send ≡ (record c { heartbeat_start = false }, (ended, none)))
            ⊎ (beat id taken c send ≡ (c, (ended, none))))
  unfolding beat
  beat_send id taken c =
      elim (Answer-cases
        (send_message taken (record { type = "heartbeat"; text = make_heartbeat_message id }) c)) [
          | inl (sent, e) ↦ inl (sent, cc)
          | inr (inl (err, e)) ↦ inr (inl cc)
          | inr (inr e) ↦ inr (inr cc)
        ]

  -- While the flag is down, the thread sends at most the message that is on its way.
  beats_off :
      (id : String) (steps : List Bool) (c : Client H) (thread : Thread)
      → c.heartbeat_start ≡ false
      → beats id steps c thread ≤ pending thread
  unfolding beats beat
  beats_off id [] c thread off = omega arith
  beats_off id (taken ∷ more) c test off = omega (
    arith,
    beats_silent id taken more c c test ended (beat_test id taken c off),
    beats_off id more c ended off,
  )
  beats_off id (taken ∷ more) c sleep off = beats_off id more c test off
  beats_off id (taken ∷ more) c ended off = beats_off id more c ended off
  beats_off id (taken ∷ more) c send off = elim (beat_send id taken c) [
    | inl (sent, e) ↦
        omega
          (arith, beats_sending id taken more c c send sleep sent e, beats_off id more c sleep off)
    | inr (inl e) ↦
        let down = record c { heartbeat_start = false } in
        omega
          (arith, beats_silent id taken more c down send ended e, beats_off id more down ended refl)
    | inr (inr e) ↦
        omega (arith, beats_silent id taken more c c send ended e, beats_off id more c ended off)
  ]

  -- After `stop_heartbeat` the thread sends at most one message more, wherever it stands and
  -- however many steps it takes, as long as the heartbeat is not started again.
  pub beats-stop_heartbeat :
      (id : String) (steps : List Bool) (c : Client H) (thread : Thread)
      → beats id steps (stop_heartbeat c) thread ≤ 1
  unfolding stop_heartbeat
  beats-stop_heartbeat id steps c thread =
      omega (arith, beats_off id steps (stop_heartbeat c) thread refl, pending_one thread)

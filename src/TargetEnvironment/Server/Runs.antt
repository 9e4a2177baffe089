-- ===== src/TargetEnvironment/Server/Runs.antt =====
-- The runs of the server: its handlers, and the calls of `load_config`, `start` and `stop`, in any
-- order.
use radar_software.Prelude.{
  ℕ, ◌+◌, ◌≡◌, ◌≢◌, inl, inr, String, Bool, true, false, Option, some, List, length, Option-cases,
  Ensures, Ensures-some, arith, ◌≤◌, ◌<◌, u32_mod,
}
use radar_software.Double.{Double}
use radar_software.Storage.{Values, Kind}
use radar_software.TargetEnvironment.{ok, code}
use radar_software.TargetEnvironment.Request.{Sky}
use radar_software.TargetEnvironment.Server.{
  Server, Accepted, Reading, line, eof, connection_reset, read_error, set_reading, on_accept,
  on_read, reply, stop, start, load_config,
}
use radar_software.TargetEnvironment.Server.Slots.{
  IsClient, Counts, on_accept-Counts, drop_client-Counts, start-Counts, stop-Counts,
  length-set_reading, load_config-Counts,
}

module _ {double : Double} (sky : Sky double) (values : Values) (text : Kind values.Value String)
    (uint64 : Kind values.Value ℕ) (number : Kind values.Value double.D)
    (parse : String → Option values.Value) where
  -- The server does one thing, with the places that it loses: a `stop` that ends with OK loses those
  -- of the clients that it clears.
  pub data Step : Server sky.Satellite → Server sky.Satellite → ℕ → Type 0 where
    accept :
        (s : Server sky.Satellite) (ec : Accepted) (inserted : Bool)
        → Step s (on_accept ec inserted s).0 0
    read :
        (s s' : Server sky.Satellite) (id : ℕ) (reading : Reading) (sent : List String)
        → IsClient id s.clients
        → on_read sky values text uint64 number parse id reading s ≡ some (s', sent)
        → Step s s' 0
    starts :
        (s : Server sky.Satellite) (entries : List sky.Satellite)
        (parsed opened bound closed listened : Bool)
        → Step s (start entries parsed opened bound closed listened s).0 0
    loads :
        (s : Server sky.Satellite) (uint : Kind values.Value ℕ) (loaded : Bool)
        (conf : values.Value)
        → Step s (load_config values text uint loaded conf s).0 0
    stops :
        (s : Server sky.Satellite) (cancelled closed shut : Bool)
        → (stop cancelled closed shut s).1 ≡ code ok
        → Step s (stop cancelled closed shut s).0 (length s.clients)
    stop_fails :
        (s : Server sky.Satellite) (cancelled closed shut : Bool)
        → (stop cancelled closed shut s).1 ≢ code ok
        → Step s (stop cancelled closed shut s).0 0

  pub data Run : Server sky.Satellite → Server sky.Satellite → ℕ → Type 0 where
    done : (s : Server sky.Satellite) → Run s s 0
    step :
        (s s' s'' : Server sky.Satellite) (m n : ℕ) → Step s s' m → Run s' s'' n → Run s s'' (m + n)

  -- If the step loads a configuration, the limit after it is not below the counter, and it is an
  -- `unsigned int`, which the value of the file is read as.
  abbrev pub IsFitting : {s s' : Server sky.Satellite} {more : ℕ} → Step s s' more → Type 0
  IsFitting (loads s uint loaded conf) =
      let s' = (load_config values text uint loaded conf s).0 in
      (s.clients_counter ≤ s'.max_connections) × (s'.max_connections < u32_mod)
  IsFitting _ = Unit

  abbrev pub AllFitting : {s s' : Server sky.Satellite} {more : ℕ} → Run s s' more → Type 0
  AllFitting (done s) = Unit
  AllFitting (step s s' s'' m n first rest) = IsFitting first × AllFitting rest

  set_reading-Counts :
      (lost id : ℕ) (reading : Bool) (s : Server sky.Satellite)
      → Counts lost s
      → Counts lost (record s { clients = set_reading reading id s.clients })
  set_reading-Counts lost id reading s (counted, below, small) =
      (omega (arith, length-set_reading reading id s.clients, counted), below, small)

  on_read-Counts :
      (lost id : ℕ) (reading : Reading) (s : Server sky.Satellite)
      → IsClient id s.clients
      → Counts lost s
      → Ensures (on_read sky values text uint64 number parse id reading s) (λ r. Counts lost r.0)
  unfolding on_read
  on_read-Counts lost id eof s here h = drop_client-Counts lost id s here h
  on_read-Counts lost id connection_reset s here h = drop_client-Counts lost id s here h
  on_read-Counts lost id read_error s here h = set_reading-Counts lost id false s h
  on_read-Counts lost id (line msg) s here h =
      elim (Option-cases (reply sky values text uint64 number parse s.satellites msg)) [
        | inl e ↦ rw (e, Ensures) tt
        | inr (sent, e) ↦ rw (e, Ensures) (set_reading-Counts lost id true s h)
      ]

  Step-Counts :
      (lost more : ℕ) (s s' : Server sky.Satellite) (first : Step s s' more)
      → IsFitting first
      → Counts lost s
      → Counts (more + lost) s'
  Step-Counts lost _ _ _ (accept s ec inserted) fit h =
      let (counted, below, small) = on_accept-Counts lost ec inserted s h in
      (omega (arith, counted), below, small)
  Step-Counts lost _ _ _ (read s s' id reading sent here e) fit h =
      let (counted, below, small) =
        Ensures-some (λ r. Counts lost r.0) e (on_read-Counts lost id reading s here h) in
      (omega (arith, counted), below, small)
  Step-Counts lost _ _ _ (starts s entries parsed opened bound closed listened) fit h =
      let (counted, below, small) =
        start-Counts lost entries parsed opened bound closed listened s h in
      (omega (arith, counted), below, small)
  Step-Counts lost _ _ _ (loads s uint loaded conf) (fits, below_mod) h =
      let (counted, below, bounded) =
        load_config-Counts values text uint loaded conf lost s fits below_mod h in
      (omega (arith, counted), below, bounded)
  Step-Counts lost _ _ _ (stops s cancelled closed shut e) fit h =
      (stop-Counts lost cancelled closed shut s h).0 e
  Step-Counts lost _ _ _ (stop_fails s cancelled closed shut e) fit h =
      let (counted, below, small) = (stop-Counts lost cancelled closed shut s h).1 e in
      (omega (arith, counted), below, small)

  -- In every run of the handlers and of `load_config`, `start` and `stop` in which each `load_config`
  -- leaves a limit that is not below the counter and is an `unsigned int`, from a server whose counter
  -- is the number of its clients and of the places lost before and not above the limit: the counter is
  -- the number of the clients and of the places lost before and in the run, and not above the limit.
  pub Run-Counts :
      (lost more : ℕ) (s s' : Server sky.Satellite) (run : Run s s' more)
      → AllFitting run
      → Counts lost s
      → Counts (more + lost) s'
  Run-Counts lost _ _ _ (done s) fit h = (omega (arith, h.0), h.1, h.2)
  Run-Counts lost _ _ _ (step s s' s'' m n first rest) (fit, later) h =
      let (counted, below, small) =
        Run-Counts (m + lost) n s' s'' rest later (Step-Counts lost m s s' first fit h) in
      (omega (arith, counted), below, small)

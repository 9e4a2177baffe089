-- ===== src/Morenos/CommandProcessor/Run.antt =====
-- What `append` and `run` do to the queue, the executed commands and the log.
use mathlib.Core.List.Perm
use mathlib.Core.List.{Perm, perm_middle}
use radar_software.Prelude.{
  ℕ, ◌+◌, ◌≤◌, ◌≡◌, refl, ap, List, [], ◌∷◌, ◌++◌, map, not, inl, inr, arith, ltb, Bool-cases, All,
  All-imp, filter, false, ltb-false→le, le→ltb-false, ◌∙◌, ◌<◌,
}
use radar_software.Double.{Double}
use radar_software.Morenos.ControlCommand.{ControlCommand, is_nop}
use radar_software.Morenos.PriorityQueue.{push, IsSorted, push-IsSorted, push-perm}
use radar_software.Morenos.CommandProcessor.{
  CommandProcessor, append_to, append, due, is_due, run_until, run, log_line,
}

-- The queue gives its commands in the order of their execution times.
abbrev pub IsOrdered : CommandProcessor → Type 0
IsOrdered p = IsSorted due p.command_queue

append_to-IsSorted :
    (queue commands : List ControlCommand)
    → IsSorted due queue
    → IsSorted due (append_to queue commands)
unfolding append_to
append_to-IsSorted queue [] h = h
append_to-IsSorted queue (c ∷ commands) h = elim (Bool-cases (is_nop c.type)) [
  | inl e ↦ rw e (append_to-IsSorted queue commands h)
  | inr e ↦ rw e (append_to-IsSorted (push due c queue) commands (push-IsSorted due c queue h))
]

-- `append` keeps a queue in the order of the execution times, whatever the order of the commands.
pub append-IsOrdered :
    (p : CommandProcessor) (commands : List ControlCommand)
    → IsOrdered p
    → IsOrdered (append p commands)
unfolding append
append-IsOrdered p commands h = append_to-IsSorted p.command_queue commands h

append_to-perm :
    (queue commands : List ControlCommand)
    → Perm (append_to queue commands) (filter (λ c. not (is_nop c.type)) commands ++ queue)
unfolding append_to
append_to-perm queue [] = Perm.refl queue
append_to-perm queue (c ∷ commands) = elim (Bool-cases (is_nop c.type)) [
  | inl e ↦ rw e (append_to-perm queue commands)
  | inr e ↦ rw e (
      Perm.trans (append_to-perm (push due c queue) commands)
        (Perm.trans (Perm.append_left kept (push-perm due c queue)) (perm_middle kept queue)))
]
  where
    kept : List ControlCommand
    kept = filter (λ other. not (is_nop other.type)) commands

-- `append` loses no command and adds none: the new queue holds the commands that are not of the type
-- nop, and what it held before.
pub append-perm :
    (p : CommandProcessor) (commands : List ControlCommand)
    → Perm
        (append p commands).command_queue
        (filter (λ c. not (is_nop c.type)) commands ++ p.command_queue)
unfolding append
append-perm p commands = append_to-perm p.command_queue commands

-- Every command comes at the limit or after it.
abbrev AllLater : ℕ → List ControlCommand → Type 0
AllLater limit = All (λ c. limit ≤ c.execution_time)

filter_later :
    (limit : ℕ) (queue : List ControlCommand)
    → AllLater limit queue
    → (filter (λ c. ltb c.execution_time limit) queue ≡ [])
      × (filter (λ c. not (ltb c.execution_time limit)) queue ≡ queue)
filter_later limit [] h = (refl, refl)
filter_later limit (c ∷ queue) h =
    rw (le→ltb-false c.execution_time limit h.0)
      ((filter_later limit queue h.1).0, ap (λ rest. c ∷ rest) (filter_later limit queue h.1).1)

-- Below 2 ^ 53 a `double` holds every whole number: it compares and adds such numbers, and reads them,
-- without rounding.
abbrev pub exact_limit : ℕ
exact_limit = 9007199254740992

pub record IsExact (double : Double) : Type 0 where
  pub less :
      (a b : ℕ)
      → a < exact_limit
      → b < exact_limit
      → double.lt (double.from_u64 a) (double.from_u64 b) ≡ ltb a b
  pub sum :
      (a b : ℕ)
      → a + b < exact_limit
      → double.add (double.from_u64 a) (double.from_u64 b) ≡ double.from_u64 (a + b)
  pub literal : (m : ℕ) → m < exact_limit → double.decimal m 0 ≡ double.from_u64 m

-- The commands come at times that a `double` holds.
abbrev pub AllExact : List ControlCommand → Type 0
AllExact = All (λ c. c.execution_time < exact_limit)

module _ (double : Double) (exact : IsExact double) (time : ℕ)
    (soon : time + 1000000 < exact_limit) where
  is_due_lem :
      (c : ControlCommand)
      → c.execution_time < exact_limit
      → is_due double time c ≡ ltb c.execution_time (time + 1000000)
  unfolding is_due
  is_due_lem c small =
      ap (λ a. double.lt (double.from_u64 c.execution_time) (double.add (double.from_u64 time) a))
        (exact.literal 1000000 (omega (arith, soon)))
      ∙ ap (double.lt (double.from_u64 c.execution_time)) (exact.sum time 1000000 soon)
      ∙ exact.less c.execution_time (time + 1000000) small soon

  run_until_lem :
      (queue : List ControlCommand)
      → AllExact queue
      → IsSorted due queue
      → run_until double time queue ≡ (
        filter (λ c. ltb c.execution_time (time + 1000000)) queue,
        map log_line (filter (λ c. ltb c.execution_time (time + 1000000)) queue),
        filter (λ c. not (ltb c.execution_time (time + 1000000))) queue,
      )
  unfolding run_until
  run_until_lem [] small h = refl
  run_until_lem (c ∷ queue) small h =
      rw (is_due_lem c small.0) (elim (Bool-cases (ltb c.execution_time (time + 1000000))) [
        | inl e ↦ rw (e, run_until_lem queue small.1 h.1)
        | inr e ↦ rw e (rw ((filter_later _ queue (later e)).0, (filter_later _ queue (later e)).1))
      ])
    where
      later : ltb c.execution_time (time + 1000000) ≡ false → AllLater (time + 1000000) queue
      later e =
          All-imp (λ other. c.execution_time ≤ other.execution_time)
            (λ other. time + 1000000 ≤ other.execution_time) queue
            (λ other k. omega (arith, ltb-false→le _ _ e)) h.0

  -- On an ordered queue `run` executes exactly the commands whose execution time is before `time` plus
  -- one millisecond, also those from before `time`, in their order, writes a line for each of them at
  -- the end of the log, and keeps exactly the others: for times, and a `time` with a millisecond more,
  -- below 2 ^ 53, where `double` is exact.
  pub run_lem :
      (p : CommandProcessor)
      → AllExact p.command_queue
      → IsOrdered p
      → let due_now = filter (λ c. ltb c.execution_time (time + 1000000)) p.command_queue in
        run double p time ≡ record {
          command_queue = filter (λ c. not (ltb c.execution_time (time + 1000000))) p.command_queue;
          execed_commands = due_now;
          log = p.log ++ map log_line due_now;
        }
  unfolding run
  run_lem p small h = rw (run_until_lem p.command_queue small h)

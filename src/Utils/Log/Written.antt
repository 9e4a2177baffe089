-- ===== src/Utils/Log/Written.antt =====
-- The log of Utils/Logger.h as one list of lines.
use Prim.Native.String.{String}
use radar_software.Prelude.{
  ℕ, zero, suc, ◌+◌, ◌-◌, ◌≤◌, ◌<◌, ◌≡◌, refl, sym, ap, ◌∙◌, inl, inr, List, [], ◌∷◌, ◌++◌, true,
  false, ◌==◌, Bool-cases, ==→eq, ==-false→ne, arith,
}
use mathlib.Core.List.{append_assoc, append-nil}
use radar_software.Utils.Log.{
  buffer_size, Logger, new_logger, write_at, lines, flush, swap_buffers, log, reset, finish,
}

-- What a program does with the log, between its construction and its destruction.
pub data Call : Type 0 where
  log_call : String → Call
  reset_call : Call

-- The calls in turn, with every new file opened.
unfoldable pub calls : List Call → Logger → Logger
unfolding log reset
calls [] l = l
calls (log_call entry ∷ more) l = calls more (log entry l)
calls (reset_call ∷ more) l = calls more (reset true l)

-- The abstract log: the entries.
abbrev pub logged : List Call → List String
logged [] = []
logged (log_call entry ∷ more) = entry ∷ logged more
logged (reset_call ∷ more) = logged more

abbrev pub concat : List (List String) → List String
concat [] = []
concat (file ∷ files) = file ++ concat files

-- The lines of all the files.
abbrev pub written : Logger → List String
written l = concat l.closed ++ l.out_file

-- The written lines, and those that wait in the buffer.
abbrev all_of : Logger → List String
all_of l = written l ++ lines l.current_buffer 0 l.buffer_ptr

abbrev Ready : Logger → Type 0
Ready l = (l.is_open ≡ true) × (l.buffer_ptr < buffer_size)

concat-append :
    (files : List (List String)) (file : List String)
    → concat (files ++ (file ∷ [])) ≡ concat files ++ file
concat-append [] file = append-nil file
concat-append (f ∷ files) file =
    ap (λ r. f ++ r) (concat-append files file) ∙ sym (append_assoc f (concat files) file)

-- A line behind the others.
lines_last :
    (buffer : ℕ → String) (from left : ℕ)
    → lines buffer from (suc left) ≡ lines buffer from left ++ (buffer (from + left) ∷ [])
unfolding lines
lines_last buffer from zero = ap (λ k. buffer k ∷ []) (sym add_zero)
  where
    add_zero : from + 0 ≡ from
    add_zero = omega arith
lines_last buffer from (suc left) =
    ap (λ r. buffer from ∷ r)
      (lines_last buffer (suc from) left
        ∙ ap (λ k. lines buffer (suc from) left ++ (buffer k ∷ [])) next)
  where
    next : suc from + left ≡ from + suc left
    next = omega arith

-- An entry that is written behind the lines leaves them.
lines-write_at :
    (buffer : ℕ → String) (from left k : ℕ) (entry : String)
    → from + left ≤ k
    → lines (write_at buffer k entry) from left ≡ lines buffer from left
unfolding lines
lines-write_at buffer from zero k entry h = refl
lines-write_at buffer from (suc left) k entry h =
    let other : (from == k) ≡ false = ground arith in
    rw (other, lines-write_at buffer (suc from) left k entry (omega (arith, h))) refl

-- An entry at the end of the lines that wait.
lines_written :
    (buffer : ℕ → String) (k : ℕ) (entry : String)
    → lines (write_at buffer k entry) 0 (suc k) ≡ lines buffer 0 k ++ (entry ∷ [])
lines_written buffer k entry =
    let same : (0 + k == k) ≡ true = ground arith in
    lines_last (write_at buffer k entry) 0 k
    ∙ rw (lines-write_at buffer 0 k k entry (omega arith), same) refl

log_room :
    (entry : String) (l : Logger)
    → (suc l.buffer_ptr == buffer_size) ≡ false
    → log entry l ≡ record l {
      current_buffer = write_at l.current_buffer l.buffer_ptr entry;
      buffer_ptr = suc l.buffer_ptr;
    }
unfolding log
log_room entry l e = rw e refl

log_full :
    (entry : String) (l : Logger)
    → l.is_open ≡ true
    → (suc l.buffer_ptr == buffer_size) ≡ true
    → log entry l ≡ record l {
      current_buffer = l.second_buffer;
      second_buffer = write_at l.current_buffer l.buffer_ptr entry;
      buffer_ptr = 0;
      out_file =
          l.out_file ++ lines (write_at l.current_buffer l.buffer_ptr entry) 0 (suc l.buffer_ptr);
    }
unfolding log flush swap_buffers
log_full entry l open_ e =
    rw (e, open_)
      (ap
        (λ entries. record l {
          current_buffer = l.second_buffer;
          second_buffer = write_at l.current_buffer l.buffer_ptr entry;
          buffer_ptr = 0;
          out_file = l.out_file ++ lines (write_at l.current_buffer l.buffer_ptr entry) 0 entries;
          is_open = true;
        })
        full)
  where
    full : 50 ≡ suc l.buffer_ptr
    full = sym (==→eq _ _ e)

no_lines : (buffer : ℕ → String) (from : ℕ) → lines buffer from 0 ≡ []
unfolding lines
no_lines buffer from = refl

minus_zero : (n : ℕ) → n - 0 ≡ n
minus_zero n = omega arith

-- The step keeps the file open and room in the buffer, and puts the entry behind all others.
abbrev Appends : Logger → Logger → List String → Type 0
Appends l' l entries =
    (l'.is_open ≡ true) × (l'.buffer_ptr < buffer_size) × (all_of l' ≡ all_of l ++ entries)

log-Appends : (entry : String) (l : Logger) → Ready l → Appends (log entry l) l (entry ∷ [])
log-Appends entry l (open_, room) = elim (Bool-cases (suc l.buffer_ptr == buffer_size)) [
  | inl e ↦
      rw (log_full entry l open_ e, no_lines l.second_buffer 0)
        (
          open_,
          omega arith,
          append-nil (
                concat l.closed
                ++ (l.out_file
                    ++ lines (write_at l.current_buffer l.buffer_ptr entry) 0 (suc l.buffer_ptr)))
              ∙ ap (λ r. concat l.closed ++ (l.out_file ++ r)) new
              ∙ regroup,
        )
  | inr e ↦ rw (log_room entry l e) (
    open_,
    omega (arith, room, ==-false→ne _ _ e),
    ap (λ r. written l ++ r) new ∙ sym (append_assoc (written l) waiting (entry ∷ [])),
  )
]
  where
    waiting : List String
    waiting = lines l.current_buffer 0 l.buffer_ptr

    new :
        lines (write_at l.current_buffer l.buffer_ptr entry) 0 (suc l.buffer_ptr)
        ≡ waiting ++ (entry ∷ [])
    new = lines_written l.current_buffer l.buffer_ptr entry

    regroup :
        concat l.closed ++ (l.out_file ++ (waiting ++ (entry ∷ []))) ≡ all_of l ++ (entry ∷ [])
    regroup =
        sym (append_assoc (concat l.closed) l.out_file (waiting ++ (entry ∷ [])))
        ∙ sym (append_assoc (written l) waiting (entry ∷ []))

reset-Appends : (l : Logger) → Ready l → Appends (reset true l) l []
unfolding reset flush swap_buffers
reset-Appends l (open_, room) =
    let same = minus_zero l.buffer_ptr in
    let file = l.out_file ++ lines l.current_buffer 0 l.buffer_ptr in
    rw (open_, same, no_lines l.second_buffer 0)
      (
        refl,
        omega arith,
        append-nil (concat (l.closed ++ (file ∷ [])) ++ [])
            ∙ append-nil (concat (l.closed ++ (file ∷ [])))
            ∙ concat-append l.closed file
            ∙ sym
                (append_assoc (concat l.closed) l.out_file (lines l.current_buffer 0 l.buffer_ptr))
            ∙ sym (append-nil (all_of l)),
      )

-- The destructor writes what waits.
written-finish : (l : Logger) → l.is_open ≡ true → written (finish l) ≡ all_of l
unfolding finish flush swap_buffers
written-finish l open_ =
    let same = minus_zero l.buffer_ptr in
    rw (open_, same)
      (sym (append_assoc (concat l.closed) l.out_file (lines l.current_buffer 0 l.buffer_ptr)))

written-calls :
    (more : List Call) (l : Logger)
    → Ready l
    → written (finish (calls more l)) ≡ all_of l ++ logged more
unfolding calls
written-calls [] l ready = written-finish l ready.0 ∙ sym (append-nil (all_of l))
written-calls (log_call entry ∷ more) l ready =
    let (open_, room, same) = log-Appends entry l ready in
    written-calls more (log entry l) (open_, room)
    ∙ ap (λ r. r ++ logged more) same
    ∙ append_assoc (all_of l) (entry ∷ []) (logged more)
written-calls (reset_call ∷ more) l ready =
    let (open_, room, same) = reset-Appends l ready in
    written-calls more (reset true l) (open_, room)
    ∙ ap (λ r. r ++ logged more) same
    ∙ append_assoc (all_of l) [] (logged more)

-- Where every file can be opened, the files of a log hold after its destruction exactly the entries
-- that were logged, each once and in their order, whatever calls of `log` and `reset` came before.
pub written-finish-calls :
    (more : List Call) → written (finish (calls more (new_logger true))) ≡ logged more
unfolding lines
written-finish-calls more = written-calls more (new_logger true) (refl, omega arith)

-- ===== src/Utils/Log.antt =====
-- `class Logger` of Utils/Logger.h, the log with two buffers: its steps, and the file that they leave.
-- `log`, `reset` and the destructor hold the mutex or run alone, and the writer that `flush` starts
-- ends before they do, as the future of `std::async` waits for it: each operation is one step.
pub mod Written
use Prim.Native.String.{String}
use radar_software.Prelude.{
  ℕ, zero, suc, ◌+◌, ◌-◌, ◌<◌, ◌≡◌, refl, List, [], ◌∷◌, ◌++◌, Bool, true, false, ◌==◌,
  if◌then◌else◌,
}

abbrev pub buffer_size : ℕ
buffer_size = 50

-- The buffers have `buffer_size` entries; a file is the list of its lines.
pub record Logger : Type 0 where
  pub current_buffer : ℕ → String
  pub second_buffer : ℕ → String
  pub buffer_ptr : ℕ
  pub out_file : List String
  pub is_open : Bool
  -- The files that `reset` closed.
  pub closed : List (List String)

-- The constructor, by whether the file could be opened: `bad` does not tell.
abbrev pub new_logger : Bool → Logger
new_logger opens = record {
  current_buffer = λ idx. "Init buffer value, for memory preallocation";
  second_buffer = λ idx. "Init buffer value, for memory preallocation";
  buffer_ptr = 0;
  out_file = [];
  is_open = opens;
  closed = [];
}

-- `current_buffer[idx] = entry`
abbrev pub write_at : (ℕ → String) → ℕ → String → ℕ → String
write_at buffer idx entry k = if k == idx then entry else buffer k

-- The loop of `flush`, with the number of entries left.
unfoldable pub lines : (ℕ → String) → ℕ → ℕ → List String
lines buffer from zero = []
lines buffer from (suc left) = buffer from ∷ lines buffer (suc from) left

-- What is written to a stream that is not open is lost.
unfoldable pub flush : ℕ → ℕ → Logger → Logger
flush from to l =
    if l.is_open
    then record l { out_file = l.out_file ++ lines l.second_buffer from (to - from) }
    else l

unfoldable pub swap_buffers : Logger → Logger
swap_buffers l = record l { current_buffer = l.second_buffer; second_buffer = l.current_buffer }

unfoldable pub log : String → Logger → Logger
unfolding flush swap_buffers
log entry l =
    let l' = record l {
      current_buffer = write_at l.current_buffer l.buffer_ptr entry;
      buffer_ptr = suc l.buffer_ptr;
    } in
    if suc l.buffer_ptr == buffer_size
    then flush 0 buffer_size (record (swap_buffers l') { buffer_ptr = 0 })
    else l'

-- `reset`, by whether the new file can be opened.
unfoldable pub reset : Bool → Logger → Logger
unfolding flush swap_buffers
reset opens l =
    let l' = if l.is_open then flush 0 l.buffer_ptr (swap_buffers l) else l in
    record l' {
      out_file = [];
      is_open = opens;
      closed = if l.is_open then l.closed ++ (l'.out_file ∷ []) else l.closed;
      buffer_ptr = 0;
    }

-- The destructor.
unfoldable pub finish : Logger → Logger
unfolding flush swap_buffers
finish l = flush 0 l.buffer_ptr (swap_buffers l)

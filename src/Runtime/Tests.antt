-- ===== src/Runtime/Tests.antt =====
-- Concrete runtimes: one that was closed, and one that takes over the process 42.
use omni_orchestration.Prelude.{ℕ, ◌≡◌, refl, true, false, some, List, [], ◌∷◌, ◌++◌, codes, All}
use omni_orchestration.Session.{ok}
use omni_orchestration.Runtime.{
  Runtime, Host, ExitEvent, ends, new, new_with_id, start, begin_write, begin_close, close,
}
use omni_orchestration.Runtime.Trace.{
  Steps, Stays, Steps-Stays, begins_write, begins_close, done, then_step,
}
use omni_orchestration.Runtime.Lines.{read_output, newline, read_fails, context_done}
use omni_orchestration.Runtime.Lines.Whole.{
  join, printed, unlines, HasNone, last_line, read_output_whole, read_output_chunks,
}
use omni_orchestration.Runtime.Attach.{AttachIdentity, Processes, attach, taken_over}

abbrev host : Host
host = record { is_dir = λ path. true; spawn = λ group command cwd. some 42 }

abbrev clean_exit : ExitEvent
clean_exit = record { exit_code = some 0; signaled = false }

abbrev started : Runtime
started = record new { process = some 42; gen = 1; started = true; has_terminal = true }

abbrev closed : Runtime
closed = record started { closed = true; exit = some clean_exit }

start_new : start host "worker" "/" new ≡ (ok tt, started)
unfolding start
start_new = refl

-- A Write passes its checks, a Close begins, and the Write ends after it.
abbrev writing : Runtime
writing = record started { writing = "more" ∷ [] }

abbrev shut : Runtime
shut = record writing { closed = true; closing = true }

abbrev drained : Runtime
drained = record shut { writing = []; written = "more" ∷ [] }

begins : writing ≡ (begin_write 1 "more" started).1
unfolding begin_write
begins = refl

shuts : shut ≡ (begin_close 1 writing).1
unfolding begin_close
shuts = refl

closing : Steps host started shut
closing = then_step (then_step done (begins_write 1 "more" begins)) (begins_close 1 shuts)

closes : close (ends clean_exit) 1 started ≡ (ok tt, closed)
unfolding close
closes = refl

Steps-Stays_example : Stays started shut
Steps-Stays_example = Steps-Stays host started shut closing

-- `ab`, a newline with its carriage return, and `c`, in two chunks.
abbrev chunks : List (List ℕ)
chunks = (97 ∷ []) ∷ (98 ∷ 13 ∷ 10 ∷ 99 ∷ []) ∷ []

lines : read_output read_fails chunks ≡ (97 ∷ 98 ∷ []) ∷ (99 ∷ []) ∷ []
unfolding read_output
lines = refl

cut_lines : read_output context_done chunks ≡ (97 ∷ 98 ∷ []) ∷ []
unfolding read_output
cut_lines = refl

read_output_whole_example :
    (ended : List (List ℕ)) × (rest : List ℕ) × (read_output read_fails chunks
      ≡ ended ++ last_line rest)
    × (unlines ended ++ rest ≡ printed (join chunks))
    × All (HasNone newline) ended
    × HasNone newline rest
read_output_whole_example = read_output_whole read_fails chunks

abbrev one_chunk : List (List ℕ)
one_chunk = (97 ∷ 98 ∷ 13 ∷ 10 ∷ 99 ∷ []) ∷ []

same_output : join chunks ≡ join one_chunk
unfolding join
same_output = refl

read_output_chunks_example : read_output read_fails chunks ≡ read_output read_fails one_chunk
read_output_chunks_example = read_output_chunks read_fails chunks one_chunk same_output

abbrev stored : AttachIdentity
stored = record {
  pid = 42;
  executable = codes "nohup worker --loop";
  cwd = codes "/trees/T1";
  start_time_ms = 5000;
  start_time_sec = 0;
  pgid = 0;
}

abbrev os : Processes
os = record {
  is_alive = λ pid. true;
  ps = λ pid. some (codes "Mon Jan 2 15:04:05 2006 worker");
  parse_time = λ words. some 5;
}

takes_over :
    attach os 42 "attached-42" stored 3 (new_with_id "w" 3)
    ≡ (ok tt, taken_over 42 "attached-42" 3 (new_with_id "w" 3))
unfolding attach
takes_over = refl

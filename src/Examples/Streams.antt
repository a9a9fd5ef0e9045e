-- ===== src/Examples/Streams.antt =====
-- The loops and buffers of core/src/io at concrete inputs: a reader and a writer of a list of bytes.
use occams_rpc.Base.{
  ℕ, sym, ap, List, [], ◌∷◌, ◌++◌, arith, length, take, drop, take-append-drop, length-take,
  take-all, min,
}
use occams_rpc.Base.Result.{ok}
use occams_rpc.Io.{Source, Sink, Reads, Accepts}
use occams_rpc.Io.Read.{
  Got, bytes_of, read_exact, read_at_least, AsyncBufRead, new_read, read_buffered, content_buffered,
}
use occams_rpc.Io.Read.Loops.{Ran, read_exact_total}
use occams_rpc.Io.Read.Front.{ValidBuffered, read_buffered_lem}
use occams_rpc.Io.Write.{write_all, flush, write_buffered}
use occams_rpc.Io.Write.Loops.{Wrote, write_all_lem, write_all_total}
use occams_rpc.Io.Write.Front.{Flushed, flush_lem, write_buffered_lem}
use occams_rpc.Io.Write
use occams_rpc.Io.Read

-- It gives at most two bytes at a time.
abbrev two_at_a_time : Source (List ℕ)
two_at_a_time = record {
  read = λ n s. (ok (take (min n 2) s), drop (min n 2) s);
  content = λ s. s;
  Valid = λ s. Unit {0};
  reads = λ n s v. (omega (arith, length-take (min n 2) s), sym (take-append-drop (min n 2) s), tt);
}

-- It takes all that it is given.
abbrev pub keeper : Sink (List ℕ)
keeper = record {
  write = λ b s. (ok (length b), s ++ b);
  content = λ s. s;
  Valid = λ s. Unit {0};
  writes = λ b s v. (omega arith, ap (λ x. s ++ x) (sym (take-all (length b) b (omega arith))), tt);
}

abbrev five : List ℕ
five = 1 ∷ 2 ∷ 3 ∷ 4 ∷ 5 ∷ []

read_exact_total_example : Ran two_at_a_time (read_exact two_at_a_time 3 3 [] five).0
read_exact_total_example =
    read_exact_total two_at_a_time (λ s. 0) (λ n s. omega arith) 3 3 [] five (omega arith)

abbrev fresh_read : Read.Buffered (List ℕ)
fresh_read = record { front = record { mem = 0 ∷ 0 ∷ 0 ∷ 0 ∷ []; pos = 0; cap = 0 }; inner = five }

read_buffered_lem_example :
    Reads
      (content_buffered two_at_a_time)
      (ValidBuffered two_at_a_time)
      1
      fresh_read
      (read_buffered two_at_a_time 1 fresh_read)
read_buffered_lem_example =
    read_buffered_lem two_at_a_time 1 fresh_read
      (record { ordered = omega arith; inside = omega arith }, tt)

abbrev half_full : Write.Buffered (List ℕ)
half_full = record { front = record { mem = 7 ∷ 8 ∷ 0 ∷ 0 ∷ []; pos = 2 }; inner = five }

write_all_total_example : Write.Loops.Ran keeper (write_all keeper 5 five []).0
write_all_total_example =
    write_all_total keeper (λ s. 0) (λ b s. omega arith) 5 five [] (omega arith)

write_buffered_lem_example :
    Accepts
      (Write.content_buffered keeper 9)
      (Write.Front.ValidBuffered keeper 9)
      (1 ∷ 2 ∷ 3 ∷ [])
      half_full
      (write_buffered keeper 9 (1 ∷ 2 ∷ 3 ∷ []) half_full)
write_buffered_lem_example =
    write_buffered_lem keeper 9 (1 ∷ 2 ∷ 3 ∷ []) half_full (record { inside = omega arith }, tt)

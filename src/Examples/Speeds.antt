-- ===== src/Examples/Speeds.antt =====
-- The theorem on the output of the speed test, applied.
use constelfs.Prelude.{ℕ, List, none, some, pos, length, ◌≡◌, refl}
use constelfs.Agent.SpeedTest.{Numbers, bytes, reading, reading_int, find_submatch, parse_output}
use constelfs.Agent.SpeedTest.Parsing.{parse_output_lem, find_submatch-Finds}

-- A number stands for the length of its text.
abbrev lengths : Numbers
lengths = record { parse_float = λ text. some (length text); to_int = λ x. pos x }

abbrev report : List ℕ
report = bytes "Idle Latency: 12.5 ms, Download:  940.25 Mbps"

parse_output_lem_example : parse_output lengths 7 report ≡ record {
  upload_speed = reading lengths none;
  download_speed = reading lengths (some (bytes "940.25"));
  latency = reading_int lengths (some (bytes "12.5"));
  test_time = 7;
}
unfolding find_submatch
parse_output_lem_example =
    parse_output_lem lengths 7 report none (some (bytes "940.25")) (some (bytes "12.5"))
      (find_submatch-Finds (bytes "Upload:") (bytes "bps") b'M' refl report)
      (find_submatch-Finds (bytes "Download:") (bytes "bps") b'M' refl report)
      (find_submatch-Finds (bytes "Idle Latency:") (bytes "s") b'm' refl report)

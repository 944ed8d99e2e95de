-- ===== src/Capture/Session.antt =====
-- sidecar/reviewer/transcript.py, `Transcript`: the capture of one run.
use fuko_pr.Prelude.{
  ℕ, ◌+◌, String, Bool, true, false, not, ◌&&◌, ◌||◌, Option, none, some, List, [], ◌∷◌, ◌==◌,
  nat_eq, text_eq, has_text, strip, if◌then◌else◌,
}
use fuko_pr.Capture.Scrub.{ends_with, scrub, scrub_partial}
use fuko_pr.Capture.Meter.{Parsed, Meter, fresh_meter, feed, repeated_read_files}
use fuko_pr.Capture.Sinks.{
  WriteAnswer, CloseAnswer, Sink, fresh_sink, write_sink, write_file, close_sink,
}

pub record Transcript : Type 0 where
  pub sink : Sink
  pub failed : Bool
  pub closed : Bool
  pub stored : ℕ
  pub meter : Meter
  pub reports : ℕ

abbrev pub fresh_transcript : Bool → Transcript
fresh_transcript ships = record {
  sink = fresh_sink ships;
  failed = false;
  closed = false;
  stored = 0;
  meter = fresh_meter;
  reports = 0;
}

-- `_fail`: the first failure is reported.
unfoldable pub fail : Transcript → Transcript
fail t = if t.failed then t else record t { failed = true; reports = t.reports + 1 }

pub record TranscriptIndex : Type 0 where
  pub complete : Bool
  pub tool_calls : List (String × ℕ)
  pub tool_result_bytes : ℕ
  pub repeated_read_files : ℕ

abbrev pub is_stored : Option Bool → Bool
is_stored (some true) = true
is_stored (some false) = false
is_stored none = false

unfoldable pub figures : Meter → TranscriptIndex
unfolding repeated_read_files
figures m = record {
  complete = m.complete;
  tool_calls = m.tool_calls;
  tool_result_bytes = m.tool_result_bytes;
  repeated_read_files = repeated_read_files m.reads;
}

-- `index`, without the key. Only a shipping sink has the attribute `stored`.
unfoldable pub index : Transcript → Option TranscriptIndex
unfolding figures
index t =
    if t.failed || (t.meter.broken || (t.stored == 0))
    then none
    else (if not (t.sink.ships && is_stored t.sink.stored) then none else some (figures t.meter))

-- What a run does with its capture.
pub data Event : Type 0 where
  write : WriteAnswer → String → Event
  close : CloseAnswer → Event

-- A line without a newline may have been cut.
unfoldable pub scrubbed : List (String × String) → String → String
unfolding ends_with scrub scrub_partial
scrubbed rules line = if ends_with line "\n" then scrub rules line else scrub_partial rules line

abbrev pub after_close : Transcript → Sink × Bool → Transcript
after_close t (sink, true) = fail (record t { sink = sink })
after_close t (sink, false) = record t { sink = sink }

-- `Transcript.close`
unfoldable pub close_transcript : CloseAnswer → Transcript → Transcript
unfolding close_sink fail
close_transcript answer t =
    if t.closed then t else after_close (record t { closed = true }) (close_sink answer t.sink)

module _ (rules : List (String × String)) (loads : String → Parsed)
    (encoded_size : String → Option ℕ) where
  -- A line that the sink has taken, or has raised on.
  abbrev pub after_write : Transcript → String → Sink × Bool → Transcript
  after_write t line (sink, true) = fail (record t { sink = sink })
  after_write t line (sink, false) = record t {
    sink = sink;
    stored = t.stored + 1;
    meter = feed loads encoded_size t.meter line;
  }

  -- `Transcript.write`
  unfoldable pub write_line : WriteAnswer → String → Transcript → Transcript
  unfolding strip scrubbed write_file feed fail
  write_line answer line t =
      if t.failed || (t.closed || not (has_text line))
      then t
      else after_write t (scrubbed rules line) (write_sink answer (scrubbed rules line) t.sink)

  unfoldable pub step : Transcript → Event → Transcript
  unfolding write_line close_transcript
  step t (write answer line) = write_line answer line t
  step t (close answer) = close_transcript answer t

  unfoldable pub run : Transcript → List Event → Transcript
  unfolding step
  run t [] = t
  run t (e ∷ es) = run (step t e) es

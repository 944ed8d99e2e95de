-- ===== src/Capture/Sinks.antt =====
-- sidecar/reviewer/transcript.py, the sinks: a local file, and one whose file is shipped on close.
-- What the operating system and the upload answer is an argument of each call.
use fuko_pr.Prelude.{
  String, ◌<+>◌, Bool, true, false, Option, none, some, List, [], ◌∷◌, ◌++◌, if◌then◌else◌,
}
use fuko_pr.Capture.Scrub.{ends_with}

-- A write goes through, fails before the file is open, or fails once it is.
pub data WriteAnswer : Type 0 where
  written no_file write_error : WriteAnswer

-- What the upload makes of the file: it returns False, returns anything else, or raises.
pub data ShipAnswer : Type 0 where
  refused accepted ship_error : ShipAnswer

pub record CloseAnswer : Type 0 where
  pub file_closes : Bool
  pub ship : ShipAnswer

-- `FileTranscriptSink`, without its path: the lines of the file.
pub record FileSink : Type 0 where
  pub lines : List String
  pub opened : Bool
  pub handle : Bool

abbrev pub fresh_file : FileSink
fresh_file = record { lines = []; opened = false; handle = false }

-- `line if line.endswith("\n") else line + "\n"`
unfoldable pub whole_line : String → String
unfolding ends_with
whole_line line = if ends_with line "\n" then line else line <+> "\n"

-- `FileTranscriptSink.write`; an operation also says whether it raises. One that raises is taken to
-- leave the lines of the file as they were.
unfoldable pub write_file : WriteAnswer → String → FileSink → FileSink × Bool
unfolding whole_line
write_file written line s =
    (record { lines = s.lines ++ whole_line line ∷ []; opened = true; handle = true }, false)
write_file no_file line s = (s, true)
write_file write_error line s = (record s { handle = true }, true)

-- `FileTranscriptSink.close`
unfoldable pub close_file : Bool → FileSink → FileSink × Bool
close_file file_closes s =
    if s.handle
    then (if file_closes then (record s { handle = false }, false) else (s, true))
    else (s, false)

-- `FileTranscriptSink`, or `ShippingTranscriptSink` around one.
pub record Sink : Type 0 where
  pub file : FileSink
  pub ships : Bool
  pub ship_closed : Bool
  pub stored : Option Bool
  pub shipped : List (List String)

abbrev pub fresh_sink : Bool → Sink
fresh_sink ships = record {
  file = fresh_file;
  ships = ships;
  ship_closed = false;
  stored = none;
  shipped = [];
}

abbrev pub write_sink : WriteAnswer → String → Sink → Sink × Bool
write_sink answer line s =
    let (file, raises) = write_file answer line s.file in (record s { file = file }, raises)

-- The upload of a file that a line has reached; `shipped` has what was sent.
unfoldable pub ship_file : ShipAnswer → Sink → Sink × Bool
ship_file refused s = (record s { stored = some false; shipped = s.file.lines ∷ s.shipped }, false)
ship_file accepted s = (record s { stored = some true; shipped = s.file.lines ∷ s.shipped }, false)
ship_file ship_error s = (record s { shipped = s.file.lines ∷ s.shipped }, true)

-- `ShippingTranscriptSink.close` once its file is closed
abbrev pub ship_closed_file : ShipAnswer → Sink → Bool → Sink × Bool
ship_closed_file answer s true = (s, true)
ship_closed_file answer s false = if s.file.opened then ship_file answer s else (s, false)

-- `close` of either sink
unfoldable pub close_sink : CloseAnswer → Sink → Sink × Bool
unfolding close_file ship_file
close_sink answer s =
    let (file, raises) = close_file answer.file_closes s.file in
    if s.ships
    then (if s.ship_closed
        then (s, false)
        else ship_closed_file answer.ship (record s { file = file; ship_closed = true }) raises)
    else (record s { file = file }, raises)

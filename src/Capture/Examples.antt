-- ===== src/Capture/Examples.antt =====
-- The results of Capture at two credentials and a short feed.
use fuko_pr.Prelude.{
  ℕ, ◌-◌, String, ◌<+>◌, ◌≡◌, ◌⊎◌, refl, true, false, Option, some, List, [], ◌∷◌, map, length,
  ◌==◌, text_eq, take_text, text_length, if◌then◌else◌,
}
use text.Mathlib.TextLemmas.{cons≢nil}
use fuko_pr.Capture.Scrub.{scrub, scrub_partial, for_secrets, json_body, strip_replacement}
use fuko_pr.Capture.Cells.{erase, marked, redact}
use fuko_pr.Capture.Clean.{is_left}
use fuko_pr.Capture.Secrets.{scrub-clean}
use fuko_pr.Capture.Partial.{IsFrom, IsLongest, scrub_partial-IsLongest}
use fuko_pr.Capture.Meter.{Parsed, json, not_json, object, field, end, str, fresh_meter, feed_all}
use fuko_pr.Capture.Sinks.{written, write_error, accepted, whole_line}
use fuko_pr.Capture.Session.{
  TranscriptIndex, figures, index, fresh_transcript, Event, write, close, run,
}
use fuko_pr.Capture.Prefix.{taken, IsHeld, run-IsHeld, index-IsStored}

abbrev secrets : List (String × String)
secrets = ("EMPTY", "") ∷ ("TOKEN", "to\"ken") ∷ ("KEY", "abcdef") ∷ []

-- Both spellings of a credential go, and a longer one first.
both_spellings :
    scrub (for_secrets secrets) "{\"a\": \"to\\\"ken\", b: to\"ken abcdef}"
    ≡ "{\"a\": \"[REDACTED:TOKEN]\", b: [REDACTED:TOKEN] [REDACTED:KEY]}"
unfolding scrub for_secrets
both_spellings = refl

-- A line cut in a credential.
cut_line : scrub_partial (for_secrets secrets) "x abcde" ≡ "x [REDACTED:KEY]"
unfolding scrub_partial for_secrets
cut_line = refl

scrub-clean_example :
    (scrub (for_secrets secrets) "k=abcdef"
      ≡ erase (redact (for_secrets secrets) (marked true "k=abcdef")))
    × (is_left "abcdef" (redact (for_secrets secrets) (marked true "k=abcdef")) ≡ false)
    × (is_left (json_body "abcdef") (redact (for_secrets secrets) (marked true "k=abcdef")) ≡ false)
scrub-clean_example = scrub-clean secrets "k=abcdef" "KEY" "abcdef" (λ e. cons≢nil e) refl

scrub_partial-IsLongest_example :
    ((scrub_partial (for_secrets secrets) "x abcde" ≡ scrub (for_secrets secrets) "x abcde")
      × IsLongest
          (strip_replacement (scrub (for_secrets secrets) "x abcde"))
          (for_secrets secrets)
          0)
    ⊎ ((n : ℕ) × (marker : String) × IsFrom
          (strip_replacement (scrub (for_secrets secrets) "x abcde"))
          (for_secrets secrets)
          n
          marker
        × IsLongest
            (strip_replacement (scrub (for_secrets secrets) "x abcde"))
            (for_secrets secrets)
            n
        × (scrub_partial (for_secrets secrets) "x abcde"
            ≡ take_text
                (text_length (strip_replacement (scrub (for_secrets secrets) "x abcde")) - n)
                (strip_replacement (scrub (for_secrets secrets) "x abcde"))
              <+> marker))
scrub_partial-IsLongest_example = scrub_partial-IsLongest (for_secrets secrets) "x abcde"

-- A feed of an event, a blank line and the result, of which the last is the end.
abbrev loads : String → Parsed
loads line =
    if line == "result\n" then json (object (field "type" (str "result") end)) else not_json

abbrev events : List Event
events =
    write written "key abcdef\n"
    ∷ write written " \n"
    ∷ write written "result\n"
    ∷ close (record { file_closes = true; ship = accepted })
    ∷ write written "late\n"
    ∷ []

abbrev sizes : String → Option ℕ
sizes s = some (text_length s)

shipped_feed :
    (run (for_secrets secrets) loads sizes (fresh_transcript true) events).sink.shipped
    ≡ ("key [REDACTED:KEY]\n" ∷ "result\n" ∷ []) ∷ []
unfolding run for_secrets
shipped_feed = refl

-- A write that fails ends the capture.
failed_feed :
    (run
      (for_secrets secrets)
      loads
      sizes
      (fresh_transcript true)
      (write written "a\n" ∷ write write_error "b\n" ∷ write written "c\n" ∷ [])).sink.file.lines
    ≡ "a\n" ∷ []
unfolding run for_secrets
failed_feed = refl

run-IsHeld_example :
    IsHeld
      (for_secrets secrets)
      loads
      sizes
      (map whole_line (taken (for_secrets secrets) loads sizes events))
      (length (taken (for_secrets secrets) loads sizes events))
      (feed_all loads sizes fresh_meter (taken (for_secrets secrets) loads sizes events))
      (run (for_secrets secrets) loads sizes (fresh_transcript true) events)
run-IsHeld_example = run-IsHeld (for_secrets secrets) loads sizes true events

abbrev full_index : TranscriptIndex
full_index = record {
  complete = true;
  tool_calls = [];
  tool_result_bytes = 0;
  repeated_read_files = 0;
}

gives_index :
    index (run (for_secrets secrets) loads sizes (fresh_transcript true) events) ≡ some full_index
unfolding index run for_secrets
gives_index = refl

index-IsStored_example :
    (full_index
      ≡ figures (feed_all loads sizes fresh_meter (taken (for_secrets secrets) loads sizes events)))
    × ((run (for_secrets secrets) loads sizes (fresh_transcript true) events).sink.stored
        ≡ some true)
    × ((run (for_secrets secrets) loads sizes (fresh_transcript true) events).sink.shipped
        ≡ map whole_line (taken (for_secrets secrets) loads sizes events) ∷ [])
index-IsStored_example =
    index-IsStored (for_secrets secrets) loads sizes true events full_index gives_index

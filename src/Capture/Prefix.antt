-- ===== src/Capture/Prefix.antt =====
-- What a capture holds is a prefix of the feed, scrubbed (sidecar/reviewer/transcript.py).
use fuko_pr.Prelude.{
  ◌==◌, nat_eq, subst, ℕ, ◌+◌, String, ◌≡◌, refl, sym, ap, ◌∙◌, Bool, true, false, not, ◌&&◌, ◌||◌,
  Option, none, some, List, [], ◌∷◌, ◌++◌, map, arith, length, has_text, if◌then◌else◌, if-both,
  Bool-cases, inl, inr,
}
use mathlib.Core.Option
use mathlib.Core.List.{append_assoc, append-nil}
use fuko_pr.Capture.Meter.{Parsed, Meter, fresh_meter, feed_all}
use fuko_pr.Capture.Sinks.{
  WriteAnswer, written, no_file, write_error, FileSink, whole_line, write_file, write_sink,
}
use fuko_pr.Capture.Session.{
  TranscriptIndex, figures, index, is_stored, Transcript, fresh_transcript, fail, Event, write,
  close, scrubbed, after_write, write_line, step, run,
}
use fuko_pr.Capture.Over.{IsTidy, IsOver, fail-IsOver, close_transcript-IsOver}

-- What an index needs.
two_tests :
    (a b : Bool) (f i : TranscriptIndex)
    → (if a then none else (if b then none else some f)) ≡ some i
    → (b ≡ false) × (i ≡ f)
two_tests true b f i h = cc
two_tests false true f i h = cc
two_tests false false f i h = (refl, sym (Option.some-injective f i h))

is_stored-eq : (o : Option Bool) → is_stored o ≡ true → o ≡ some true
is_stored-eq none h = cc
is_stored-eq (some true) h = refl
is_stored-eq (some false) h = cc

index_given :
    (t : Transcript) (i : TranscriptIndex)
    → index t ≡ some i
    → (i ≡ figures t.meter) × (t.sink.stored ≡ some true)
unfolding index
index_given t i h =
    let (passed, same) =
      two_tests (t.failed || (t.meter.broken || (t.stored == 0)))
        (not (t.sink.ships && is_stored t.sink.stored)) (figures t.meter) i h in
    (same, is_stored-eq t.sink.stored (ground (arith, passed)))

module _ (rules : List (String × String)) (loads : String → Parsed)
    (encoded_size : String → Option ℕ) where
  -- The lines, scrubbed, that the sink takes before it first fails or is closed.
  unfoldable pub taken : List Event → List String
  taken [] = []
  taken (close answer ∷ es) = []
  taken (write written line ∷ es) =
      let rest = taken es in if has_text line then scrubbed rules line ∷ rest else rest
  taken (write no_file line ∷ es) = let rest = taken es in if has_text line then [] else rest
  taken (write write_error line ∷ es) = let rest = taken es in if has_text line then [] else rest

  -- Nothing happens to such a capture but that it is closed.
  step-IsOver :
      (lines : List String) (n : ℕ) (m : Meter) (t : Transcript) (e : Event)
      → IsOver lines n m t
      → IsOver lines n m (step rules loads encoded_size t e)
  unfolding step write_line
  step-IsOver lines n m t (write answer line) o =
      if-both (IsOver lines n m) (t.failed || (t.closed || not (has_text line))) t _ (λ _. o)
        (λ going. absurd (ground (arith, going, o.is_over)))
  step-IsOver lines n m t (close answer) o =
      close_transcript-IsOver lines n m t answer o.same_lines o.same_count o.same_meter o.one_report
        o.tidy

  run-IsOver :
      (lines : List String) (n : ℕ) (m : Meter) (t : Transcript) (es : List Event)
      → IsOver lines n m t
      → IsOver lines n m (run rules loads encoded_size t es)
  unfolding run
  run-IsOver lines n m t [] o = o
  run-IsOver lines n m t (e ∷ es) o =
      run-IsOver lines n m (step rules loads encoded_size t e) es (step-IsOver lines n m t e o)

  -- What a capture holds, whether it goes on or not.
  pub record IsHeld (lines : List String) (n : ℕ) (m : Meter) (t : Transcript) : Type 0 where
    pub same_lines : t.sink.file.lines ≡ lines
    pub same_count : t.stored ≡ n
    pub same_meter : t.meter ≡ m
    pub one_report : t.reports ≡ (if t.failed then 1 else 0)
    pub tidy : IsTidy t.sink

  IsOver-IsHeld :
      {lines : List String} {n : ℕ} {m : Meter} {t : Transcript}
      → IsOver lines n m t
      → IsHeld lines n m t
  IsOver-IsHeld o = record {
    same_lines = o.same_lines;
    same_count = o.same_count;
    same_meter = o.same_meter;
    one_report = o.one_report;
    tidy = o.tidy;
  }

  -- A capture that goes on.
  record IsLive (t : Transcript) : Type 0 where
    going : t.failed ≡ false
    still_open : t.closed ≡ false
    no_report : t.reports ≡ 0
    none_shipped : t.sink.shipped ≡ []
    none_stored : t.sink.stored ≡ none

  live_report : (t : Transcript) → IsLive t → t.reports ≡ (if t.failed then 1 else 0)
  live_report t v = ground (arith, v.no_report, v.going)

  -- A capture holds what it held before, and some more lines.
  abbrev HeldBy : Transcript → List String → Transcript → Type 0
  HeldBy t ls t' =
      IsHeld (t.sink.file.lines ++ map whole_line ls) (t.stored + length ls)
        (feed_all loads encoded_size t.meter ls) t'

  abbrev Held : Transcript → List Event → Type 0
  Held t es = HeldBy t (taken es) (run rules loads encoded_size t es)

  -- A write that raises ends the capture with what it holds.
  failed-Held :
      (t : Transcript) (file : FileSink) (es : List Event)
      → IsLive t
      → file.lines ≡ t.sink.file.lines
      → IsHeld (t.sink.file.lines ++ []) (t.stored + 0) t.meter (
          run rules loads encoded_size
            (fail (record t { sink = record t.sink { file = file } }))
            es)
  failed-Held t file es v same = IsOver-IsHeld (
      run-IsOver _ _ _ _ es (
        fail-IsOver (t.sink.file.lines ++ []) (t.stored + 0) t.meter
          (record t { sink = record t.sink { file = file } })
          (same ∙ sym (append-nil t.sink.file.lines)) (omega arith) refl (live_report t v)
          (inl (v.none_shipped, v.none_stored))))

  -- A write of a live capture, of a line that has text and of a blank one.
  write-text :
      (t : Transcript) (answer : WriteAnswer) (line : String)
      → IsLive t
      → has_text line ≡ true
      → step rules loads encoded_size t (write answer line)
        ≡ after_write rules loads encoded_size t
            (scrubbed rules line)
            (write_sink answer (scrubbed rules line) t.sink)
  unfolding step write_line
  write-text t answer line v h =
      let goes_on : (t.failed || (t.closed || not (has_text line))) ≡ false =
        ground (arith, v.going, v.still_open, h) in
      ap
        (λ b.
          if b
          then t
          else after_write rules loads encoded_size t (scrubbed rules line)
              (write_sink answer (scrubbed rules line) t.sink))
        goes_on

  write-blank :
      (t : Transcript) (answer : WriteAnswer) (line : String)
      → has_text line ≡ false
      → step rules loads encoded_size t (write answer line) ≡ t
  unfolding step write_line
  write-blank t answer line h =
      let skips : (t.failed || (t.closed || not (has_text line))) ≡ true = ground (arith, h) in
      ap
        (λ b.
          if b
          then t
          else after_write rules loads encoded_size t (scrubbed rules line)
              (write_sink answer (scrubbed rules line) t.sink))
        skips

  taken-blank :
      (answer : WriteAnswer) (line : String) (es : List Event)
      → has_text line ≡ false
      → taken (write answer line ∷ es) ≡ taken es
  unfolding taken
  taken-blank written line es h = rw h refl
  taken-blank no_file line es h = rw h refl
  taken-blank write_error line es h = rw h refl

  -- The capture after a line that the sink took.
  abbrev took : Transcript → String → Transcript
  took t line =
      after_write rules loads encoded_size t (scrubbed rules line)
        (write_sink written (scrubbed rules line) t.sink)

  took-Held :
      (t : Transcript) (line : String) (ls : List String) (t' : Transcript)
      → HeldBy (took t line) ls t'
      → HeldBy t (scrubbed rules line ∷ ls) t'
  unfolding write_file feed_all
  took-Held t line ls t' o = record {
    same_lines =
        o.same_lines
        ∙ append_assoc t.sink.file.lines (whole_line (scrubbed rules line) ∷ [])
            (map whole_line ls);
    same_count = omega (arith, o.same_count);
    same_meter = o.same_meter;
    one_report = o.one_report;
    tidy = o.tidy;
  }

  took-IsLive : (t : Transcript) (line : String) → IsLive t → IsLive (took t line)
  unfolding write_file
  took-IsLive t line v = record {
    going = v.going;
    still_open = v.still_open;
    no_report = v.no_report;
    none_shipped = v.none_shipped;
    none_stored = v.none_stored;
  }

  -- The run after a line that has text, as the sink answers.
  write-Held :
      (t : Transcript) (answer : WriteAnswer) (line : String) (es : List Event)
      → IsLive t
      → has_text line ≡ true
      → Held (took t line) es
      → HeldBy t (taken (write answer line ∷ es)) (
          run rules loads encoded_size
            (after_write rules loads encoded_size t
              (scrubbed rules line)
              (write_sink answer (scrubbed rules line) t.sink))
            es)
  unfolding taken write_file feed_all
  write-Held t written line es v h o = rw h (took-Held t line (taken es) _ o)
  write-Held t no_file line es v h o = rw h (failed-Held t t.sink.file es v refl)
  write-Held t write_error line es v h o =
      rw h (failed-Held t (record t.sink.file { handle = true }) es v refl)

  run-Held : (t : Transcript) (es : List Event) → IsLive t → Held t es
  unfolding run taken feed_all
  run-Held t [] v = record {
    same_lines = sym (append-nil t.sink.file.lines);
    same_count = omega arith;
    same_meter = refl;
    one_report = live_report t v;
    tidy = inl (v.none_shipped, v.none_stored);
  }
  run-Held t (close answer ∷ es) v = IsOver-IsHeld (
      run-IsOver _ _ _ _ es (
        close_transcript-IsOver (t.sink.file.lines ++ []) (t.stored + 0) t.meter t answer
          (sym (append-nil t.sink.file.lines)) (omega arith) refl (live_report t v)
          (inl (v.none_shipped, v.none_stored))))
  run-Held t (write answer line ∷ es) v = elim (Bool-cases (has_text line)) [
    | inl has ↦
        subst (λ t'. HeldBy t (taken (write answer line ∷ es)) (run rules loads encoded_size t' es))
          (sym (write-text t answer line v has))
          (write-Held t answer line es v has (run-Held (took t line) es (took-IsLive t line v)))
    | inr blank ↦
        subst
          (λ ls.
            HeldBy t ls (
              run rules loads encoded_size (step rules loads encoded_size t (write answer line))
                es))
          (sym (taken-blank answer line es blank))
          (subst (λ t'. HeldBy t (taken es) (run rules loads encoded_size t' es))
            (sym (write-blank t answer line blank)) (run-Held t es v))
  ]

  fresh_transcript-IsLive : (ships : Bool) → IsLive (fresh_transcript ships)
  fresh_transcript-IsLive ships = record {
    going = refl;
    still_open = refl;
    no_report = refl;
    none_shipped = refl;
    none_stored = refl;
  }

  -- Whatever the feed is, whichever calls of the sink fail and whenever it is closed, the file of a
  -- capture holds, in order, the scrubbed lines that have text and were taken before the first
  -- failure or the close; it counts and meters those and no other, reports one failure at most, and
  -- ships nothing but those lines, and once.
  pub run-IsHeld :
      (ships : Bool) (es : List Event)
      → IsHeld
          (map whole_line (taken es))
          (length (taken es))
          (feed_all loads encoded_size fresh_meter (taken es))
          (run rules loads encoded_size (fresh_transcript ships) es)
  run-IsHeld ships es =
      let held = run-Held (fresh_transcript ships) es (fresh_transcript-IsLive ships) in
      record {
        same_lines = held.same_lines;
        same_count = omega (arith, held.same_count);
        same_meter = held.same_meter;
        one_report = held.one_report;
        tidy = held.tidy;
      }

  -- An index row is given only for a capture whose lines have all been shipped, once and together,
  -- and accepted by the shared storage; its figures are those of these lines.
  pub index-IsStored :
      (ships : Bool) (es : List Event) (i : TranscriptIndex)
      → index (run rules loads encoded_size (fresh_transcript ships) es) ≡ some i
      → (i ≡ figures (feed_all loads encoded_size fresh_meter (taken es)))
        × ((run rules loads encoded_size (fresh_transcript ships) es).sink.stored ≡ some true)
        × ((run rules loads encoded_size (fresh_transcript ships) es).sink.shipped
            ≡ map whole_line (taken es) ∷ [])
  index-IsStored ships es i h =
      let t = run rules loads encoded_size (fresh_transcript ships) es in
      let held = run-IsHeld ships es in
      let (same, stored) = index_given t i h in
      (
        same ∙ ap figures held.same_meter,
        stored,
        elim held.tidy [
          | inl (none_shipped, none_stored) ↦
              absurd (Option.none-ne-some true (sym none_stored ∙ stored))
          | inr (again, once) ↦ once ∙ ap (λ l. l ∷ []) held.same_lines
        ],
      )

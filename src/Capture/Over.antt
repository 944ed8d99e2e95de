-- ===== src/Capture/Over.antt =====
-- A capture that has failed or is closed keeps what it holds (sidecar/reviewer/transcript.py).
use fuko_pr.Prelude.{
  ℕ, ◌+◌, String, ◌≡◌, ◌⊎◌, refl, sym, ap, ◌∙◌, Bool, true, false, ◌||◌, none, List, [], ◌∷◌, arith,
  if◌then◌else◌, if-both, Bool-cases, inl, inr,
}
use fuko_pr.Capture.Meter.{Meter}
use fuko_pr.Capture.Sinks.{
  CloseAnswer, FileSink, Sink, close_file, ship_file, ShipAnswer, refused, accepted, ship_error,
  ship_closed_file, close_sink,
}
use fuko_pr.Capture.Session.{Transcript, fail, after_close, close_transcript}

-- Nothing has been shipped, or the lines of the file once.
abbrev pub IsTidy : Sink → Type 0
IsTidy s =
    ((s.shipped ≡ []) × (s.stored ≡ none))
    ⊎ ((s.ship_closed ≡ true) × (s.shipped ≡ s.file.lines ∷ []))

-- What closing a sink keeps.
pub record IsClosing (s s' : Sink) : Type 0 where
  pub same_lines : s'.file.lines ≡ s.file.lines
  pub tidy : IsTidy s'

close_file-lines : (b : Bool) (f : FileSink) → (close_file b f).0.lines ≡ f.lines
unfolding close_file
close_file-lines b f = elim (Bool-cases f.handle) [
  | inl open_handle ↦ elim (Bool-cases b) [
    | inl closes ↦ rw (open_handle, closes) refl
    | inr fails ↦ rw (open_handle, fails) refl
  ]
  | inr no_handle ↦ rw no_handle refl
]

ship_file-IsClosing :
    (answer : ShipAnswer) (s : Sink)
    → s.ship_closed ≡ true
    → s.shipped ≡ []
    → IsClosing s (ship_file answer s).0
unfolding ship_file
ship_file-IsClosing refused s c h = record {
  same_lines = refl;
  tidy = inr (c, ap (λ t. s.file.lines ∷ t) h);
}
ship_file-IsClosing accepted s c h = record {
  same_lines = refl;
  tidy = inr (c, ap (λ t. s.file.lines ∷ t) h);
}
ship_file-IsClosing ship_error s c h = record {
  same_lines = refl;
  tidy = inr (c, ap (λ t. s.file.lines ∷ t) h);
}

ship_closed_file-IsClosing :
    (answer : ShipAnswer) (s : Sink) (raises : Bool)
    → s.ship_closed ≡ true
    → s.shipped ≡ []
    → s.stored ≡ none
    → IsClosing s (ship_closed_file answer s raises).0
ship_closed_file-IsClosing answer s true c h k = record { same_lines = refl; tidy = inl (h, k) }
ship_closed_file-IsClosing answer s false c h k =
    if-both (λ (r : Sink × Bool). IsClosing s r.0) s.file.opened (ship_file answer s) (s, false)
      (λ _. ship_file-IsClosing answer s c h) (λ _. record { same_lines = refl; tidy = inl (h, k) })

close_sink-IsClosing :
    (answer : CloseAnswer) (s : Sink) → IsTidy s → IsClosing s (close_sink answer s).0
unfolding close_sink
close_sink-IsClosing answer s h =
    let closed = close_file answer.file_closes s.file in
    let same = close_file-lines answer.file_closes s.file in
    let shipping = record s { file = closed.0; ship_closed = true } in
    let local = record s { file = closed.0 } in
    if-both (λ (r : Sink × Bool). IsClosing s r.0) s.ships _ (local, closed.1)
      (λ _.
        if-both (λ (r : Sink × Bool). IsClosing s r.0) s.ship_closed (s, false)
          (ship_closed_file answer.ship shipping closed.1)
          (λ _. record { same_lines = refl; tidy = h })
          (λ first. elim h [
            | inl (none_shipped, none_stored) ↦
                let c =
                  ship_closed_file-IsClosing answer.ship shipping closed.1 refl none_shipped
                    none_stored in
                record { same_lines = c.same_lines ∙ same; tidy = c.tidy }
            | inr (again, once) ↦ cc (sym first ∙ again)
          ]))
      (λ _. record {
        same_lines = same;
        tidy = elim h [
          | inl nothing ↦ inl nothing
          | inr (again, once) ↦ inr (again, once ∙ ap (λ l. l ∷ []) (sym same))
        ];
      })

-- A capture that takes no more lines, and what it holds.
pub record IsOver (lines : List String) (n : ℕ) (m : Meter) (t : Transcript) : Type 0 where
  pub is_over : (t.failed || t.closed) ≡ true
  pub same_lines : t.sink.file.lines ≡ lines
  pub same_count : t.stored ≡ n
  pub same_meter : t.meter ≡ m
  pub one_report : t.reports ≡ (if t.failed then 1 else 0)
  pub tidy : IsTidy t.sink

pub fail-IsOver :
    (lines : List String) (n : ℕ) (m : Meter) (t : Transcript)
    → t.sink.file.lines ≡ lines
    → t.stored ≡ n
    → t.meter ≡ m
    → t.reports ≡ (if t.failed then 1 else 0)
    → IsTidy t.sink
    → IsOver lines n m (fail t)
unfolding fail
fail-IsOver lines n m t h p q e k =
    if-both (IsOver lines n m) t.failed t (record t { failed = true; reports = t.reports + 1 })
      (λ failed. record {
        is_over = ground (arith, failed);
        same_lines = h;
        same_count = p;
        same_meter = q;
        one_report = e;
        tidy = k;
      })
      (λ going. record {
        is_over = refl;
        same_lines = h;
        same_count = p;
        same_meter = q;
        one_report = ground (arith, e, going);
        tidy = k;
      })

after_close-IsOver :
    (lines : List String) (n : ℕ) (m : Meter) (t : Transcript) (r : Sink × Bool)
    → t.closed ≡ true
    → IsClosing t.sink r.0
    → t.sink.file.lines ≡ lines
    → t.stored ≡ n
    → t.meter ≡ m
    → t.reports ≡ (if t.failed then 1 else 0)
    → IsOver lines n m (after_close t r)
after_close-IsOver lines n m t (sink, true) c k h p q e =
    fail-IsOver lines n m (record t { sink = sink }) (k.same_lines ∙ h) p q e k.tidy
after_close-IsOver lines n m t (sink, false) c k h p q e = record {
  is_over = ground (arith, c);
  same_lines = k.same_lines ∙ h;
  same_count = p;
  same_meter = q;
  one_report = e;
  tidy = k.tidy;
}

pub close_transcript-IsOver :
    (lines : List String) (n : ℕ) (m : Meter) (t : Transcript) (answer : CloseAnswer)
    → t.sink.file.lines ≡ lines
    → t.stored ≡ n
    → t.meter ≡ m
    → t.reports ≡ (if t.failed then 1 else 0)
    → IsTidy t.sink
    → IsOver lines n m (close_transcript answer t)
unfolding close_transcript
close_transcript-IsOver lines n m t answer h p q e k =
    if-both (IsOver lines n m) t.closed t _
      (λ closed. record {
        is_over = ground (arith, closed);
        same_lines = h;
        same_count = p;
        same_meter = q;
        one_report = e;
        tidy = k;
      })
      (λ _.
        after_close-IsOver lines n m (record t { closed = true }) (close_sink answer t.sink) refl
          (close_sink-IsClosing answer t.sink k) h p q e)

-- ===== src/Lib.antt =====
-- fuko-pr: the sidecar of an automatic pull-request reviewer. Several models ("seats") review a
-- branch in rounds; what a seat found is kept in two ledgers, carried into its next round, and
-- settled by that round's verdicts.
--
-- The ledgers (Ledger):
--   * sidecar/review_state.py is the store: the two tables of migrations/009_review_state.sql and
--     010_review_finding_reopen.sql, and one function per SQL statement. Ledger/Rows has the rows
--     and the database, Ledger/Writes `record_findings`, `transition`, `reopen` and
--     `touch_findings`, Ledger/Reads `open_findings`, `settled_findings` and `next_round`,
--     Ledger/Coverage `record_coverage`, `live_coverage` and `expire_coverage`. A call is an
--     `Action`, a function from the database to a result and a database (Ledger/Actions); a call
--     that cannot reach the store gives the default of its `_best_effort` decorator.
--   * sidecar/reviewer/prompt.py decides which ids a round may cite and which of its verdicts count
--     (Ledger/Prior: `render_prior_state`, without the layout of its text, and `accepted_status`).
--   * sidecar/reviewer/ledger.py drives the store: `carry_in` before a round (Ledger/Tree for the
--     checkout's paths, Ledger/Carry) and `settle` after it (Ledger/Settle).
--   A proof about every transaction is one record of Ledger/Steps, which Ledger/Rounds lifts to
--   `carry_in` and `settle`; Ledger/Lanes, Ledger/History and Ledger/Ids are three such relations.
--   Ledger/Keeps, OpenRows, NoLoss, Verdicts, Settled, Published, CarriedRows, Carried and Round
--   follow one claim through a round, and Ledger/Closing follows one open row.
--   Ledger/Window, Ledger/Expiry, Ledger/Transitions, Ledger/Shown, Ledger/Accepted,
--   Ledger/Retiring and Ledger/Modes are about single calls, about what a round is shown and may
--   say, and about switched-off ledgers.
--
-- The fleet (Fleet): which models review a branch, in what order and under which ledger.
--   * Fleet/Models has the entries of sidecar/fukoconfig.py, with `resolve_models` and
--     `partition_roles` of sidecar/pool.py; Fleet/Pool its `order_pool`.
--   * Fleet/Seats, Fleet/Failover and Fleet/Escalation are parts of sidecar/runner.py:
--     `_slot_of` and `_branch_seats`; `_ledger_owner`, `_with_branch_ledger` and `_run_pool`;
--     `_compatible_backups`, `_has_identity`, `fleet_sequential_cost_minutes` and
--     `plan_escalation`.
--   * Fleet/Breaker is sidecar/circuit_breaker.py with `_cb_cooldowns` and `_cb_trip` of the runner:
--     what a failover trips, the next run's `order_pool` is given as cooled.
--   Fleet/Tiers, OwnLanes, OwnSlots, FirstServed, Switches, Backends, Accounted, Promotions, Cooling
--   and Roles are about them.
-- A seat that Fleet/Seats gives is the lane of the ledgers of its branch.
--
-- The knowledge base (Knowledge): Knowledge/Dedup is `partition` of sidecar/dedup.py, which both
-- stores call before they embed a batch; Knowledge/Batches and Knowledge/Distinct are about it.
-- sidecar/chunking.py splits a document before it is sent: Knowledge/Markdown is `chunk_markdown`,
-- Knowledge/Chunks the `_split_paragraphs` that it calls for each section. Knowledge/ChunkBounds and
-- Knowledge/Content are about the latter, the modules MarkdownBounds and MarkdownContent about the
-- former.
--
-- The pull request (Checkout): sidecar/reviewer/checkout.py. Checkout/Diff is `parse_diff`, whose
-- positions are where a finding may be anchored; Checkout/Context is `fetch_pr_context`, with the cut
-- of an over-long diff. Checkout/Unified is a diff as git writes it, of which Checkout/Numbers,
-- Checkout/Targets, Checkout/Hunks and Checkout/ReadBack are; Checkout/Truncation is about the cut.
--
-- The capture (Capture): sidecar/reviewer/transcript.py, which writes the event feed of a review down
-- without the credentials of the run. Capture/Scrub is `Scrubber`, Capture/Meter `_Meter`,
-- Capture/Sinks the file and the shipping sink, Capture/Session `Transcript`, whose calls are a
-- sequence of events. Capture/Cells follows each character of a line through the scrubber, for
-- Capture/Clean and Capture/Secrets; Capture/Partial is about lines that are cut, Capture/Over and
-- Capture/Prefix about whole captures.
--
-- The file indexes (Digest): sidecar/digest.py, which maps a large file by the lines of its
-- declarations. Digest/Scan is `scan` with the pattern of a declaration, Digest/Index the rest;
-- Digest/Spans, Digest/Ends and Digest/Ranges are about the ranges of lines, Digest/Fitting about
-- what is kept under a budget, Digest/Bounds about the length, Digest/Topics about the topic.
--
-- The other reviewers (Reviewers): sidecar/status.py, of which Reviewers/Rows is `copilot_state` and
-- `escalation_needed`, Reviewers/Coderabbit `coderabbit_state` with a definition for each of its
-- variables, Reviewers/Receipts `fuko_states`; Reviewers/Done and Reviewers/Coverage are about when a
-- review of CodeRabbit's and of fuko's own counts as done.
--
-- The console (Web): sidecar/web/security.py, which guards the routes of the browser console that
-- write. Web/Session is the whole of it but the rendering; Web/Values and Web/Signed are about the
-- cookie, Web/Redirects about where a sign-in leads, Web/SignIn about what it opens.
--
-- Parameters: `Env`, what the database and its clock answer; `Tree`, what the file system answers;
-- `casefold`, `lower` and `digit_value`, tables of the Unicode standard; `getenv`; `loads` and
-- `encoded_size`, the JSON parser and UTF-8 encoder; `hexdigest`, HMAC-SHA256; `sha256`; `parse`,
-- of `ast`; `Patterns` and `says_quota`, what the patterns of status.py find in a text, and
-- `receipts_in`, the receipts in one; `quote`, of urllib; and `invoke`, what a review backend does.
-- Texts are sequences of code points. Rows, rounds, seconds and costs are natural numbers; a UUID
-- is the number that it writes.
--
-- Bounds: a read returns at most 200 findings or 500 coverage entries, and the retention is 90
-- days. Five functions run on fuel: `after_words`, where each turn goes past a word, so that the
-- length of the text is enough (Digest/Modifiers); `free_seat`, the loop that makes a seat unlike
-- the seats taken, where each turn adds a character, so one turn more than the longest of them has
-- characters is enough; `decimal`, where each digit divides by ten; `split_blank`, the split at
-- blank lines, where each turn goes past a character; and `cut`, the loop that cuts a long text,
-- where each turn makes it shorter, as long as `max_len` is above 0.
--
-- Not modelled: the layout of prompts and pages, logs, HTTP and SQL drivers, subprocesses, the
-- stores of the knowledge base and the metrics.
pub mod Prelude
pub mod Capture
pub mod Checkout
pub mod Digest
pub mod Fleet
pub mod Knowledge
pub mod Ledger
pub mod Reviewers
pub mod Web

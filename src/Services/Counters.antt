-- ===== src/Services/Counters.antt =====
-- services/paper_cycle.py: what the rows and the counters of some items have to do with each other.
use hermes_personal_options.Common.{ℕ, suc, ◌+◌, ◌≡◌, arith}
use hermes_personal_options.Services.Paper.{PaperCounters, count_rejected}
use hermes_personal_options.Services.Tally.{Rows}
use hermes_personal_options.Services.Endings.{Ended, deferred, skipped, failed, reported}

-- The counters that are raised after the gateway's approval.
abbrev pub approved_count : PaperCounters → ℕ
approved_count c = c.deferred + c.submitted + c.submit_failed + c.duplicate_skipped

abbrev pub total : PaperCounters → ℕ
total c = c.gateway_rejected + approved_count c

-- What n items add to the rows and to the counters.
abbrev pub Counted : ℕ → Rows → Rows → PaperCounters → PaperCounters → Type 0
Counted n s t c d =
    (total d ≡ total c + n)
    × (t.requests ≡ s.requests + n)
    × (t.validated + approved_count c ≡ s.validated + approved_count d)
    × (t.submissions + (c.submitted + c.submit_failed)
        ≡ s.submissions + (d.submitted + d.submit_failed))
    × (t.reports + c.submitted ≡ s.reports + d.submitted)
    × (t.duplicates + c.duplicate_skipped ≡ s.duplicates + d.duplicate_skipped)

pub Counted-trans :
    (n : ℕ) (s t u : Rows) (c d e : PaperCounters)
    → Counted 1 s t c d
    → Counted n t u d e
    → Counted (suc n) s u c e
Counted-trans n s t u c d e (a1, a2, a3, a4, a5, a6) (b1, b2, b3, b4, b5, b6) =
    (omega arith, omega arith, omega arith, omega arith, omega arith, omega arith)

abbrev pub one_request : Rows → Rows
one_request t = record t { requests = suc t.requests }

abbrev pub one_validated : Rows → Rows
one_validated t = record t { validated = suc t.validated }

pub Ended-Counted :
    (s t : Rows) (c d : PaperCounters)
    → Ended (one_validated (one_request s)) t c d
    → Counted 1 s t c d
Ended-Counted s t c d (deferred rows counts) =
    rw rows
      (rw counts (omega arith, omega arith, omega arith, omega arith, omega arith, omega arith))
Ended-Counted s t c d (skipped rows counts) =
    rw rows
      (rw counts (omega arith, omega arith, omega arith, omega arith, omega arith, omega arith))
Ended-Counted s t c d (failed rows counts) =
    rw rows
      (rw counts (omega arith, omega arith, omega arith, omega arith, omega arith, omega arith))
Ended-Counted s t c d (reported rows counts) =
    rw rows
      (rw counts (omega arith, omega arith, omega arith, omega arith, omega arith, omega arith))

pub rejected-Counted :
    (s t : Rows) (c d : PaperCounters)
    → t ≡ one_request s
    → d ≡ count_rejected c
    → Counted 1 s t c d
rejected-Counted s t c d rows counts =
    rw rows
      (rw counts (omega arith, omega arith, omega arith, omega arith, omega arith, omega arith))

-- ===== src/Aggregator/Zipkin.antt =====
-- `pushZipkin`: the Zipkin spans of a distributed trace, and the export of each trace id once. The
-- hash with its hexadecimal digits (`hexID`) and the text of an instant are parameters.
use for_visibility.Prelude.{
  ℕ, suc, ◌+◌, ◌-◌, ◌*◌, ◌/◌, ◌≡◌, refl, Bool, true, false, ◌||◌, Option, none, some, List, [], ◌∷◌,
  ◌++◌, ltb, if◌then◌else◌, Bool-cases, inl, inr,
}
use for_visibility.Prelude.Assoc.{Map}
use for_visibility.Text.{Bytes, text, bytes_beq, bytes_beq_refl, join}
use for_visibility.Text.Decimal.{itoa}
use for_visibility.Exporter.{is_empty}
use for_visibility.Aggregator.{Dspan, Dtrace}

-- `hex_id seed n` is hexID, `rfc3339 t` is t.Format(time.RFC3339Nano)
pub record Formats : Type 0 where
  pub hex_id : Bytes → ℕ → Bytes
  pub rfc3339 : ℕ → Bytes

pub record Zspan : Type 0 where
  pub trace_id : Bytes
  pub id : Bytes
  pub parent_id : Bytes
  pub name : Bytes
  pub timestamp : ℕ
  pub duration : ℕ
  pub service : Bytes
  pub tags : Map Bytes Bytes

unfoldable pub trace_seed : Formats → Dtrace → Bytes
unfolding join text
trace_seed f dt = f.rfc3339 dt.start ++ text "|" ++ dt.link ++ text "|" ++ join dt.roots (text ";")

unfoldable pub trace_id_of : Formats → Dtrace → Bytes
unfolding trace_seed
trace_id_of f dt = f.hex_id (trace_seed f dt) 16

unfoldable pub root_id : Formats → Bytes → Bytes
root_id f trace_id = f.hex_id (trace_id ++ text "|root") 8

unfoldable pub root_span : Formats → Dtrace → Bytes → Zspan
root_span f dt trace_id = record {
  trace_id = trace_id;
  id = root_id f trace_id;
  parent_id = [];
  name = if is_empty dt.link then text "convergence" else text "convergence " ++ dt.link;
  timestamp = dt.start / 1000;
  duration = dt.span_ms * 1000 + 1;
  service = text "network";
  tags =
      (text "link", dt.link)
      ∷ (text "nodes", join dt.nodes (text ","))
      ∷ (text "roots", join dt.roots (text " | "))
      ∷ [];
}

-- up to the next span, at least a millisecond; a step back in time is no time
abbrev pub span_duration : Dspan → List Dspan → ℕ
span_duration s [] = 1000
span_duration s (next ∷ spans) =
    let gap = (next.offset_ms - s.offset_ms) * 1000 in if ltb 1000 gap then gap else 1000

unfoldable pub child_spans : Formats → Dtrace → Bytes → ℕ → List Dspan → List Zspan
child_spans f dt trace_id i [] = []
child_spans f dt trace_id i (s ∷ spans) =
    record {
      trace_id = trace_id;
      id = f.hex_id (trace_id ++ text "|" ++ itoa i) 8;
      parent_id = root_id f trace_id;
      name = s.bus ++ text "/" ++ s.kind;
      timestamp = (dt.start + s.offset_ms * 1000000) / 1000;
      duration = span_duration s spans;
      service = s.node;
      tags = (text "key", s.key) ∷ (text "detail", s.detail) ∷ [];
    }
    ∷ child_spans f dt trace_id (suc i) spans

-- pushed[traceID]
unfoldable pub was_pushed : Bytes → List Bytes → Bool
was_pushed trace_id [] = false
was_pushed trace_id (p ∷ pushed) = bytes_beq p trace_id || was_pushed trace_id pushed

-- The ids pushed afterwards, and what is posted. `posted` says whether the post returned no error.
unfoldable pub push_zipkin : Formats → Bool → Dtrace → List Bytes → List Bytes × Option (List Zspan)
unfolding trace_id_of root_span child_spans was_pushed
push_zipkin f posted dt pushed =
    let trace_id = trace_id_of f dt in
    let spans = root_span f dt trace_id ∷ child_spans f dt trace_id 0 dt.spans in
    if was_pushed trace_id pushed
    then (pushed, none)
    else (if posted then trace_id ∷ pushed else pushed, some spans)

was_pushed-here : (id : Bytes) (pushed : List Bytes) → was_pushed id (id ∷ pushed) ≡ true
unfolding was_pushed
was_pushed-here id pushed = rw (bytes_beq_refl id) refl

push-known :
    (f : Formats) (posted : Bool) (dt : Dtrace) (pushed : List Bytes)
    → was_pushed (trace_id_of f dt) pushed ≡ true
    → push_zipkin f posted dt pushed ≡ (pushed, none)
unfolding push_zipkin
push-known f posted dt pushed e = rw (push_zipkin, e) refl

pub push-marks :
    (f : Formats) (dt : Dtrace) (pushed : List Bytes)
    → was_pushed (trace_id_of f dt) (push_zipkin f true dt pushed).0 ≡ true
unfolding push_zipkin was_pushed
push-marks f dt pushed = elim (Bool-cases (was_pushed (trace_id_of f dt) pushed)) [
  | inl e ↦ rw (push-known f true dt pushed e) e
  | inr e ↦ rw (push_zipkin, e) (was_pushed-here (trace_id_of f dt) pushed)
]

-- A trace that was posted without an error, or was there before, is not posted again.
pub push_zipkin-once :
    (f : Formats) (posted : Bool) (dt : Dtrace) (pushed : List Bytes)
    → push_zipkin f posted dt (push_zipkin f true dt pushed).0
      ≡ ((push_zipkin f true dt pushed).0, none)
push_zipkin-once f posted dt pushed =
    push-known f posted dt (push_zipkin f true dt pushed).0 (push-marks f dt pushed)

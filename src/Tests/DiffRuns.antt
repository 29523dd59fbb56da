-- ===== src/Tests/DiffRuns.antt =====
-- internal/diff on small inputs.
use graybox_core.Dict.{keys, lookup}
use graybox_core.Dict.Laws.{SameDict}
use graybox_core.Diff.Body.Values.Reported.{Reported, compare_json_values-Reported}
use graybox_core.Diff.Body.Values.Same.{SameJson}
use graybox_core.Diff.Body.Values.Verdict.{compare_json_values_iff}
use graybox_core.Diff.Body.Values.{compare_json_values}
use graybox_core.Diff.Compare.Verdict.{Available, Alike, compare-err_iff, compare-Alike}
use graybox_core.Diff.Compare.{compare_status, compare}
use graybox_core.Diff.Body.{ensure_comparable_body, compare_contents, compare_body}
use graybox_core.Diff.Domain.{outcome_equivalent, outcome}
use graybox_core.Diff.Headers.Normal.{gather, normalize_headers-values}
use graybox_core.Diff.Headers.Report.{compare_headers_iff, compare_headers-SameDict}
use graybox_core.Diff.Headers.{values_of, name_less, normalize_headers, compare_headers}
use graybox_core.Diff.Location.Ignore.{AnyCovers, ignores_iff}
use graybox_core.Diff.Location.{headers, body, Rules, ignores, header_location, body_location}
use graybox_core.Diff.Number.Equality.{SameNumber, json_numbers_equal_iff}
use graybox_core.Diff.Number.Token.{Token, minus, token_text, IsToken}
use graybox_core.Diff.Number.{json_numbers_equal}
use graybox_core.Diff.Runner.Results.{result_of, run_lem, compare_execution-equivalent}
use graybox_core.Diff.Runner.{execution_verdict, compare_execution, run}
use graybox_core.Failure.{Error}
use graybox_core.Json.Codec.{Codec}
use graybox_core.Json.{Json, null, number, object, end, field}
use graybox_core.Prelude.{
  ℕ, true, false, ◌≡◌, ◌↔◌, ◌⊎◌, inl, inr, refl, [], ◌∷◌, Option, none, some, arith, map, length,
  All,
}
use graybox_core.Recording.{Headers, Response, Exchange}
use graybox_core.Replay.Execution.{Execution, visit_all, Replayer}
use graybox_core.Sort.Laws.{Distinct}
use graybox_core.Sort.{sort_by}
use graybox_core.Text.Laws.{equal_iff}
use graybox_core.Text.{Str, codes, equal}
use graybox_core.Url.{Url}

-- A reader to whom every text is one number.
abbrev plain : Codec
plain = record { valid = λ s. true; decode = λ s. some (number s) }

abbrev digest : Str → Str
digest s = s

abbrev no_rules : Rules
no_rules = record { ignore = [] }

-- 1 and 100e-2.
abbrev one : Token
one = record { negative = false; whole = codes "1"; part = []; power = none }

abbrev hundred : Token
hundred = record {
  negative = false;
  whole = codes "100";
  part = [];
  power = some (record { mark = b'e'; sign = minus; digits = codes "2" });
}

IsToken-one : IsToken one
IsToken-one = record { whole = refl; part = tt; power = tt }

IsToken-hundred : IsToken hundred
IsToken-hundred = record {
  whole = (omega arith, (refl, (refl, (refl, tt))));
  part = tt;
  power = (refl, ((refl, tt), λ e. cc));
}

numbers_run : json_numbers_equal plain (codes "1.50e1") (codes "15") ≡ true
unfolding json_numbers_equal
numbers_run = refl

json_numbers_equal_iff_example :
    (json_numbers_equal plain (token_text one) (token_text hundred) ≡ true) ↔ SameNumber one hundred
json_numbers_equal_iff_example =
    json_numbers_equal_iff plain one hundred IsToken-one IsToken-hundred refl refl

abbrev total : ℕ → Json
total n = object (field (codes "total") (number (n ∷ [])) end)

compare_json_values_iff_example :
    (compare_json_values plain no_rules [] (total b'4') (total b'5') ≡ [])
    ↔ SameJson plain (total b'4') (total b'5')
compare_json_values_iff_example = compare_json_values_iff plain [] (total b'4') (total b'5')

compare_json_values-Reported_example :
    All (Reported no_rules []) (compare_json_values plain no_rules [] (total b'4') null)
compare_json_values-Reported_example =
    compare_json_values-Reported plain no_rules [] (total b'4') null

-- Two responses that differ in the spelling of a header name.
abbrev etag : Str → Headers
etag name = (name, codes "v1" ∷ []) ∷ []

abbrev answer : Str → Str → Response
answer name content = record {
  status_code = 200;
  headers = etag name;
  body = content;
  observed_size = length content;
  truncated = false;
  complete = true;
}

abbrev cut_off : Response
cut_off = record (answer (codes "Etag") (codes "1")) { complete = false }

compare-Alike_example :
    (((compare digest plain (answer (codes "Etag") (codes "1")) cut_off no_rules).0.differences
        ≡ [])
      × ((compare digest plain (answer (codes "Etag") (codes "1")) cut_off no_rules).1 ≡ none))
    ↔ Alike plain (answer (codes "Etag") (codes "1")) cut_off
compare-Alike_example = compare-Alike digest plain (answer (codes "Etag") (codes "1")) cut_off

compare-err_iff_example :
    ((compare digest plain (answer (codes "Etag") (codes "1")) cut_off no_rules).1 ≡ none) ↔ (
      (ignores no_rules (body_location []) ≡ true)
      ⊎ (Available (answer (codes "Etag") (codes "1")) × Available cut_off))
compare-err_iff_example =
    compare-err_iff digest plain (answer (codes "Etag") (codes "1")) cut_off no_rules

compare_headers_iff_example :
    (compare_headers (etag (codes "Etag")) (etag (codes "ETAG")) no_rules ≡ []) ↔ (
      (name : Str)
      → ignores no_rules (header_location name) ≡ false
      → lookup name (normalize_headers (etag (codes "Etag")))
        ≡ lookup name (normalize_headers (etag (codes "ETAG"))))
compare_headers_iff_example =
    compare_headers_iff (etag (codes "Etag")) (etag (codes "ETAG")) no_rules

-- Two orders of the same map.
abbrev ab : Headers
ab = (codes "A", codes "1" ∷ []) ∷ (codes "B", codes "2" ∷ []) ∷ []

abbrev ba : Headers
ba = (codes "B", codes "2" ∷ []) ∷ (codes "A", codes "1" ∷ []) ∷ []

Distinct-ab : Distinct (keys ab)
Distinct-ab = (λ h. elim h [ inl e ↦ ground arith | inr e ↦ e ], (λ h. h, tt))

Distinct-ba : Distinct (keys ba)
Distinct-ba = (λ h. elim h [ inl e ↦ ground arith | inr e ↦ e ], (λ h. h, tt))

SameDict-ab : SameDict ab ba
unfolding lookup
SameDict-ab name = ground (arith, equal_iff (codes "A") name, equal_iff (codes "B") name)

compare_headers-SameDict_example : compare_headers ab ab no_rules ≡ compare_headers ba ba no_rules
compare_headers-SameDict_example =
    compare_headers-SameDict ab ba ab ba no_rules Distinct-ab Distinct-ba Distinct-ab Distinct-ba
      SameDict-ab SameDict-ab

-- Two spellings of one name.
abbrev spellings : Headers
spellings = (codes "etag", codes "2" ∷ []) ∷ (codes "ETag", codes "1" ∷ []) ∷ []

spellings_run : values_of (codes "etag") (normalize_headers spellings) ≡ codes "1" ∷ codes "2" ∷ []
unfolding normalize_headers values_of lookup
spellings_run = refl

normalize_headers-values_example :
    values_of (codes "etag") (normalize_headers spellings)
    ≡ gather spellings (codes "etag") (sort_by name_less (keys spellings))
normalize_headers-values_example = normalize_headers-values spellings (codes "etag")

-- Ignoring "/meta" and the header "Date".
abbrev two_rules : Rules
two_rules = record {
  ignore =
      record { component = body; path = codes "/meta" }
      ∷ record { component = headers; path = codes "date" }
      ∷ [];
}

meta_ignored : ignores two_rules (body_location (codes "/meta")) ≡ true
unfolding ignores body_location
meta_ignored = refl

ignores_iff_example :
    (ignores two_rules (body_location (codes "/meta/id")) ≡ true)
    ↔ AnyCovers two_rules.ignore (body_location (codes "/meta/id"))
ignores_iff_example = ignores_iff two_rules (body_location (codes "/meta/id"))

-- One recorded exchange, replayed.
abbrev exchange : Exchange
exchange = record {
  id = 1;
  protocol = codes "http";
  started_at = 0;
  ended_at = 5;
  duration = 5;
  proxy_error = [];
  request = record {
    method = codes "GET";
    url = codes "/orders/42";
    headers = [];
    body = [];
    observed_size = 0;
    truncated = false;
    complete = true;
  };
  response = answer (codes "Etag") (codes "1");
}

abbrev execution : Option Response → Option Error → Execution
execution r e = record {
  exchange_id = 1;
  method = codes "GET";
  path = codes "/orders/42";
  target_url = codes "http://h/orders/42";
  status = codes "200 OK";
  duration = 7;
  response = r;
  err = e;
}

abbrev replayed : Execution
replayed = execution (some (answer (codes "ETAG") (codes "1"))) none

replayed_run :
    outcome (compare_execution digest plain no_rules exchange replayed) ≡ outcome_equivalent
unfolding outcome compare_execution execution_verdict compare compare_status compare_headers
    compare_body ensure_comparable_body compare_contents ignores equal
replayed_run = refl

compare_execution-equivalent_example :
    (r : Response) × (replayed.response ≡ some r)
    × (replayed.err ≡ none)
    × ((compare digest plain exchange.response r no_rules).0.differences ≡ [])
    × ((ignores no_rules (body_location []) ≡ true) ⊎ (Available exchange.response × Available r))
compare_execution-equivalent_example =
    compare_execution-equivalent digest plain no_rules exchange replayed replayed_run

-- A replayer of that one exchange.
abbrev single : Replayer
single = record {
  run_each = λ S target id visit s. visit_all S visit ((exchange, replayed) ∷ []) none s;
  visits = λ target id. (exchange, replayed) ∷ [];
  ending = λ target id. none;
  in_order = λ S target id visit s. refl;
}

abbrev home : Url
home = record {
  scheme = codes "http";
  user = false;
  host = codes "h";
  path = [];
  raw_path = [];
  raw_query = [];
  force_query = false;
  fragment = [];
}

run_lem_example :
    (single.ending home none ≡ none
      → run digest plain no_rules single home none ≡ (
        record { results = map (result_of digest plain no_rules) (single.visits home none) },
        none,
      ))
    × ((e : Error)
        → single.ending home none ≡ some e
        → run digest plain no_rules single home none ≡ (record { results = [] }, some e))
run_lem_example = run_lem digest plain no_rules single home none

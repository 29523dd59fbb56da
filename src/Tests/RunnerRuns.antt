-- ===== src/Tests/RunnerRuns.antt =====
-- A recording of one exchange, replayed and compared.
use graybox_core.Diff.Location.{Rules}
use graybox_core.Diff.Runner.Recorded.{run-Readable}
use graybox_core.Diff.Runner.Results.{result_of}
use graybox_core.Diff.Runner.{run}
use graybox_core.Failure.{ok}
use graybox_core.Prelude.{ℕ, ◌+◌, true, false, ◌≡◌, ◌≢◌, inl, refl, [], ◌∷◌, none, some, map}
use graybox_core.Recording.{Request, Exchange, Summary}
use graybox_core.Replay.Attempt.Sent.{execute_refused}
use graybox_core.Replay.Attempt.{Reply, HttpClient, Settings, execute}
use graybox_core.Replay.Execution.{Visit, visit_all}
use graybox_core.Replay.Replacements.{Outgoing, Replacements}
use graybox_core.Replay.Runner.InOrder.{
  runner_visits, runner_ending, runner_replayer, run_each-visit_all,
}
use graybox_core.Replay.Runner.{Runner, attempt, run_each}
use graybox_core.Tests.Fixtures.{plain_platform, no_policy}
use graybox_core.Text.{Str, codes}
use graybox_core.Url.{Url}

abbrev service : Url
service = record {
  scheme = codes "http";
  user = false;
  host = codes "h";
  path = codes "/";
  raw_path = [];
  raw_query = [];
  force_query = false;
  fragment = [];
}

abbrev answer : Reply
answer = record {
  status_code = 200;
  status = codes "200 OK";
  header = [];
  chunks = codes "hi" ∷ [];
  body_err = none;
}

abbrev client : HttpClient
client = record { new_request = λ m u. ok service; send = λ m sent content. (5, ok answer) }

abbrev no_replacements : Replacements
no_replacements = record { json = []; query = []; form = [] }

abbrev settings : Settings
settings = record { overrides = []; replacements = no_replacements; body_limit = 9; capture = true }

abbrev ping : Request
ping = record {
  method = codes "GET";
  url = codes "/ping";
  headers = [];
  body = [];
  observed_size = 0;
  truncated = false;
  complete = true;
}

abbrev pinged : Exchange
pinged = record {
  id = 1;
  protocol = codes "http";
  started_at = 0;
  ended_at = 4;
  duration = 4;
  proxy_error = [];
  request = ping;
  response = record {
    status_code = 200;
    headers = [];
    body = codes "hi";
    observed_size = 2;
    truncated = false;
    complete = true;
  };
}

abbrev cut_ping : Exchange
cut_ping = record pinged { request = record ping { truncated = true } }

abbrev entry : Summary
entry = record {
  id = 1;
  protocol = codes "http";
  method = codes "GET";
  url = codes "/ping";
  status_code = 200;
  started_at = 0;
  duration = 4;
}

abbrev runner : Runner
runner = record {
  source = record { get = λ id. ok pinged; list = λ f. ok (entry ∷ []) };
  client = client;
  response_body_limit = 0;
  request_header_overrides = [];
  replacements = no_replacements;
  redaction = no_policy;
}

abbrev count : Visit ℕ
count n exchange execution = (n + 1, none)

execute_refused_example :
    ((execute plain_platform client no_policy settings (some service) cut_ping).response ≡ none)
    × ((execute plain_platform client no_policy settings (some service) cut_ping).err ≢ none)
execute_refused_example =
    execute_refused plain_platform client no_policy settings (some service) cut_ping (inl refl)

abbrev out : Outgoing × Str
out = (record { url = service; header = [] }, [])

run_each-visit_all_example :
    run_each plain_platform runner true ℕ count (some service) none 0
    ≡ visit_all ℕ count
        (runner_visits plain_platform runner (some service) none)
        (runner_ending plain_platform runner (some service) none)
        0
run_each-visit_all_example = run_each-visit_all plain_platform runner (some service) ℕ count none 0

abbrev no_ignores : Rules
no_ignores = record { ignore = [] }

run-Readable_example :
    run (λ s. s) plain_platform.json no_ignores (runner_replayer plain_platform runner) service none
    ≡ (
      record {
        results =
            map
              (λ s.
                result_of
                  (λ s. s)
                  plain_platform.json
                  no_ignores
                  (attempt plain_platform runner true (some service) pinged))
              (entry ∷ []);
      },
      none,
    )
run-Readable_example =
    run-Readable (λ s. s) plain_platform.json no_ignores plain_platform runner service
      (λ id. pinged) (entry ∷ []) refl (refl, tt)

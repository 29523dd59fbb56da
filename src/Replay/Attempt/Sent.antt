-- ===== src/Replay/Attempt/Sent.antt =====
-- Which recorded requests are sent again, and what becomes of the others.
use graybox_core.Failure.{Error, ok, err, Result-cases}
use graybox_core.Platform.{Platform}
use graybox_core.Prelude.{
  true, false, ◌≡◌, ◌≢◌, ◌⊎◌, inl, inr, refl, sym, ap, [], All, Option, none, arith, Option-cases,
}
use graybox_core.Recording.{Headers, Request, Exchange}
use graybox_core.Replay.Attempt.{HttpClient, Settings, refusal, build_request, prepare, execute}
use graybox_core.Replay.Address.{build_url}
use graybox_core.Replay.Headers.{copy_replay_headers, apply_request_header_overrides}
use graybox_core.Replay.Headers.Overridden.{IsSent, overridden-IsSent}
use graybox_core.Replay.Replacements.Applied.Marked.{Marked}
use graybox_core.Replay.Replacements.Applied.Unmarked.{apply-Marked}
use graybox_core.Replay.Replacements.Applied.{apply}
use graybox_core.Replay.Replacements.{Outgoing}
use graybox_core.Sanitize.Rules.{Rules}
use graybox_core.Text.{Str}
use mathlib.Core.Path.{subst}
use graybox_core.Url.{Url}

module _ (go : Platform) (client : HttpClient) (redaction : Rules) (settings : Settings) where
  -- The headers before the replacements.
  abbrev prepared_headers : Request → Headers
  prepared_headers request =
      apply_request_header_overrides (copy_replay_headers [] request.headers) settings.overrides

  refusal-none :
      (url : Url) (request : Request)
      → refusal go client redaction url request ≡ none
      → (request.truncated ≡ false) × (request.complete ≡ true)
  unfolding refusal
  refusal-none url request h = ground arith

  -- The request that goes out for a recorded one: each header stands under an overridden name or is a
  -- recorded one that may be sent, and no marker stands in it.
  abbrev pub Sendable : Request → Outgoing × Str → Type 0
  Sendable request (sent, content) =
      All (IsSent settings.overrides request.headers) sent.header × (¬ Marked go sent content)

  ok_eq : (P : Outgoing × Str → Type 0) (a b : Outgoing × Str) → P a → ok a ≡ ok b → P b
  ok_eq P a b h e = subst P (ap (λ r. elim r [ ok x ↦ x | err y ↦ a ]) e) h

  build_request-Sendable :
      (url : Url) (request : Request) (sent : Outgoing × Str)
      → build_request go client redaction settings url request ≡ ok sent
      → Sendable request sent
  unfolding build_request
  build_request-Sendable url request sent h =
      elim (Result-cases (client.new_request request.method (go.url_string url))) [
        | inr (e, n) ↦ absurd (refused _ (rw (build_request, n) at h))
        | inl (parsed, n) ↦
            (let before : Outgoing = record { url = parsed; header = prepared_headers request } in
              elim (Result-cases (apply go settings.replacements before request.body)) [
                | inr (e, m) ↦ absurd (refused _ (rw (build_request, n, m) at h))
                | inl ((out, content), m) ↦
                    (let (kept, clean) =
                        apply-Marked go settings.replacements before out request.body content m in
                      let headers =
                        subst (λ h. All (IsSent settings.overrides request.headers) h) (sym kept.0)
                          (overridden-IsSent settings.overrides request.headers) in
                      ok_eq (Sendable request) (out, content) sent (headers, clean)
                        (rw (build_request, n, m) at h))
              ])
      ]
    where
      refused : (e : Error) → err e ≡ ok sent → ⊥
      refused e x = cc

  pub prepare-Sendable :
      (url : Url) (request : Request) (sent : Outgoing × Str)
      → prepare go client redaction settings url request ≡ ok sent
      → (request.truncated ≡ false) × (request.complete ≡ true) × Sendable request sent
  unfolding prepare
  prepare-Sendable url request sent h =
      elim (Option-cases (refusal go client redaction url request)) [
        | inr (e, n) ↦ absurd (refused e (rw (prepare, n) at h))
        | inl n ↦
            let (t, c) = refusal-none url request n in
            (t, c, build_request-Sendable url request sent (rw (prepare, n) at h))
      ]
    where
      refused : (e : Error) → err e ≡ ok sent → ⊥
      refused e x = cc

  -- A recorded request whose body was cut off or is incomplete comes to an error and no response,
  -- whatever the server would answer.
  pub execute_refused :
      (target : Option Url) (exchange : Exchange)
      → (exchange.request.truncated ≡ true) ⊎ (exchange.request.complete ≡ false)
      → ((execute go client redaction settings target exchange).response ≡ none)
        × ((execute go client redaction settings target exchange).err ≢ none)
  unfolding execute
  execute_refused target exchange h =
      elim (Result-cases (build_url go target exchange.request.url)) [
        | inr (e, n) ↦ rw (execute, n) (refl, λ x. cc)
        | inl (url, n) ↦
            elim (Result-cases (prepare go client redaction settings url exchange.request)) [
              | inr (e, m) ↦ rw (execute, n, m) (refl, λ x. cc)
              | inl (sent, m) ↦ absurd (never h (prepare-Sendable url exchange.request sent m))
            ]
      ]
    where
      never :
          {A : Type 0}
          → (exchange.request.truncated ≡ true) ⊎ (exchange.request.complete ≡ false)
          → (exchange.request.truncated ≡ false) × (exchange.request.complete ≡ true) × A
          → ⊥
      never x y = ground arith

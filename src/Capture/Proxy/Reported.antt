-- ===== src/Capture/Proxy/Reported.antt =====
-- Which errors the proxy reports and records.
use graybox_core.Capture.Proxy.Handled.{
  IsGeneric, IsGenericText, Handled, Handled-IsGeneric, report-All,
}
use graybox_core.Capture.Proxy.{
  Proxy, OutboundRequest, Inbound, Recovered, returned, aborted, panicked, response_complete,
  stream_error, stream_error_text, is_unexplained, explain, captured_exchange, count_failure,
  persist_exchange, finish_serving,
}
use graybox_core.Capture.Reader.{CaptureReader}
use graybox_core.Capture.Writer.{CaptureWriter, write_complete, write_truncated}
use graybox_core.Failure.{Error, failure, wrap, Result, ok, err}
use graybox_core.Platform.{Platform}
use graybox_core.Prelude.{
  ℕ, Bool, true, false, ◌≡◌, ◌≢◌, ◌⊎◌, inl, inr, List, [], ◌++◌, some, All, All-append, arith, refl,
  sym, either_branch,
}
use graybox_core.Recording.{Headers, Exchange}
use graybox_core.Sanitize.Capture.{capture_body}
use graybox_core.Sanitize.Rules.{configured}
use graybox_core.Text.Laws.{equal_iff}
use graybox_core.Text.{Str, codes}
use mathlib.Core.Option.{some-injective}
use mathlib.Core.Path.{subst}

stream_error_text-ne : (p : Proxy) (w : CaptureWriter) → stream_error_text p w ≢ []
unfolding stream_error_text
stream_error_text-ne p w e = ground arith

-- An aborted or unwritten response is left with an error.
explain-proxy_error :
    (p : Proxy) (recovered : Recovered) (w : CaptureWriter)
    → response_complete recovered w ≡ false
    → (explain p recovered w).0.proxy_error ≢ []
unfolding explain is_unexplained
explain-proxy_error p recovered w h =
    ground (arith, equal_iff w.proxy_error [], stream_error_text-ne p w)

capture_body_incomplete :
    (go : Platform) (p : Proxy) (content : Str) (headers : Headers) (observed : ℕ)
    (truncated : Bool)
    → (capture_body go p.redaction content headers observed truncated false).2 ≡ false
unfolding capture_body
capture_body_incomplete go p content headers observed truncated = ground arith

abbrev pub OnlyPersistenceFailed : List Error → Type 0
OnlyPersistenceFailed =
    All (λ e. e ≡ wrap (codes "record exchange") (failure (codes "persistence failed")))

explain-IsGeneric :
    (p : Proxy) (recovered : Recovered) (w : CaptureWriter)
    → configured p.redaction ≡ true
    → IsGenericText w.proxy_error
    → All IsGeneric (explain p recovered w).1 × IsGenericText (explain p recovered w).0.proxy_error
unfolding explain stream_error stream_error_text
explain-IsGeneric p recovered w h t =
    either_branch {A = CaptureWriter × List Error}
      (λ x. All IsGeneric x.1 × IsGenericText x.0.proxy_error) (is_unexplained recovered w) _ _
      (
        report-All IsGeneric p.errors.transport (stream_error p w) (inr (ground arith)),
        inr (inr (ground arith)),
      )
      (tt, t)

count_failure-Only :
    (p : Proxy) (added : Result ℕ)
    → configured p.redaction ≡ true
    → OnlyPersistenceFailed (count_failure p added).1
unfolding count_failure
count_failure-Only p (ok id) h = tt
count_failure-Only p (err e) h = report-All _ p.errors.persistence _ (rw h refl)

recorded_text :
    (e f : Exchange) → some f ≡ some e → IsGenericText f.proxy_error → IsGenericText e.proxy_error
recorded_text e f x h = subst (λ g. IsGenericText g.proxy_error) (some-injective f e x) h

module _ (go : Platform) (add : Exchange → Result ℕ) (p : Proxy) (request : Inbound)
    (started ended : ℕ) (r : CaptureReader) (outbound : OutboundRequest) (w : CaptureWriter)
    (headers : Headers) where
  -- Under a policy that protects anything, whatever messages the transport failed with, the errors that
  -- are reported of it and of the client's connection, by the error handler and at the end, are two fixed
  -- ones, as is the one reported of the recorder, and the error that is recorded is empty or one of two
  -- fixed texts.
  pub finish_serving-IsGeneric :
      (recovered : Recovered) (handled : List Error) (e : Exchange)
      → Handled p w handled
      → configured p.redaction ≡ true
      → (finish_serving go add p request started ended r outbound w headers recovered).exchange
        ≡ some e
      → All IsGeneric (
          handled
          ++ (finish_serving go add p request started ended r outbound w headers
              recovered).transport)
        × OnlyPersistenceFailed
            (finish_serving go add p request started ended r outbound w headers
              recovered).persistence
        × IsGenericText e.proxy_error
  unfolding finish_serving persist_exchange captured_exchange
  finish_serving-IsGeneric panicked es e s c x = cc
  finish_serving-IsGeneric returned es e s c x =
      let (g, t) = Handled-IsGeneric p c s in
      let (f, u) = explain-IsGeneric p returned w c t in
      (All-append IsGeneric es _ g f, count_failure-Only p _ c, recorded_text e _ x u)
  finish_serving-IsGeneric aborted es e s c x =
      let (g, t) = Handled-IsGeneric p c s in
      let (f, u) = explain-IsGeneric p aborted w c t in
      (All-append IsGeneric es _ g f, count_failure-Only p _ c, recorded_text e _ x u)

  abbrev persisted : Recovered → Exchange
  persisted recovered =
      captured_exchange go p request started ended r outbound (explain p recovered w).0 headers
        (response_complete recovered w)

  left_incomplete :
      (recovered : Recovered) (e : Exchange)
      → response_complete recovered w ≡ false
      → some (persisted recovered) ≡ some e
      → (e.response.complete ≡ false) × (e.proxy_error ≢ [])
  unfolding captured_exchange
  left_incomplete recovered e h x =
      subst (λ g. (g.response.complete ≡ false) × (g.proxy_error ≢ []))
        (some-injective (persisted recovered) e x)
        (
          (let v = (explain p recovered w).0 in
              subst
                (λ c.
                  (capture_body go p.redaction v.body headers v.size (write_truncated v) c).2
                  ≡ false)
                (sym h) (capture_body_incomplete go p v.body headers v.size (write_truncated v))),
          explain-proxy_error p recovered w h,
        )

  -- A response that was aborted, or that the client's connection did not take, is recorded as
  -- incomplete and with an error.
  pub finish_serving_incomplete :
      (recovered : Recovered) (e : Exchange)
      → (recovered ≡ aborted) ⊎ (write_complete w ≡ false)
      → (finish_serving go add p request started ended r outbound w headers recovered).exchange
        ≡ some e
      → (e.response.complete ≡ false) × (e.proxy_error ≢ [])
  unfolding finish_serving persist_exchange captured_exchange response_complete
  finish_serving_incomplete panicked e c x = cc
  finish_serving_incomplete returned e c x =
      left_incomplete returned e (elim c [ inl q ↦ cc | inr q ↦ q ]) x
  finish_serving_incomplete aborted e c x = left_incomplete aborted e refl x

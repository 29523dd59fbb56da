-- ===== src/Capture/Proxy/Handled.antt =====
-- What is left of the transport's messages while a response is written.
use graybox_core.Capture.Proxy.{Proxy, handle_error, report}
use graybox_core.Capture.Writer.{
  CaptureWriter, new_capture_writer, write_header, commit, capture_write, write, flush,
}
use graybox_core.Failure.{Error, failure, wrap}
use graybox_core.Prelude.{
  ℕ, Bool, true, false, ◌≡◌, ◌⊎◌, inl, inr, List, [], ◌∷◌, ◌++◌, Option, All, All-append, arith,
  refl, sym, ◌∙◌,
}
use graybox_core.Sanitize.Rules.{configured}
use graybox_core.Text.{Str, codes}
use mathlib.Core.Path.{subst}

-- The two errors of the transport that carry no diagnostic, and their texts.
abbrev pub IsGeneric : Error → Type 0
IsGeneric e =
    (e ≡ wrap (codes "forward request") (failure (codes "upstream transport failed")))
    ⊎ (e ≡ failure (codes "response stream failed"))

abbrev pub IsGenericText : Str → Type 0
IsGenericText text =
    (text ≡ [])
    ⊎ (text ≡ codes "upstream transport failed")
    ⊎ (text ≡ codes "response stream failed")

-- The writer that the reverse proxy leaves, and the errors that its error handler reported: the proxy's
-- handler writes a response, and the error handler is called with any message of the transport.
pub data Handled (p : Proxy) : CaptureWriter → List Error → Type 0 where
  started : (limit : ℕ) → Handled p (new_capture_writer limit) []
  wrote_status :
      {w : CaptureWriter} {es : List Error} (status : ℕ)
      → Handled p w es
      → Handled p (write_header w status) es
  wrote_body :
      {w : CaptureWriter} {es : List Error} (content : Str) (n : ℕ) (write_err : Option Str)
      → Handled p w es
      → Handled p (write w content n write_err) es
  flushed : {w : CaptureWriter} {es : List Error} → Handled p w es → Handled p (flush w) es
  transport_failed :
      {w : CaptureWriter} {es : List Error} (message : Str) (n : ℕ) (write_err : Option Str)
      → Handled p w es
      → Handled p
          (handle_error p w message n write_err).0
          (es ++ (handle_error p w message n write_err).1)

pub report-All : (P : Error → Type 0) (handler : Bool) (e : Error) → P e → All P (report handler e)
report-All P true e h = (h, tt)
report-All P false e h = tt

write_header-proxy_error :
    (w : CaptureWriter) (status : ℕ) → (write_header w status).proxy_error ≡ w.proxy_error
unfolding write_header
write_header-proxy_error w status = ground arith

commit-proxy_error : (w : CaptureWriter) → (commit w).proxy_error ≡ w.proxy_error
unfolding commit
commit-proxy_error w = ground (arith, write_header-proxy_error w 200)

write-proxy_error :
    (w : CaptureWriter) (content : Str) (n : ℕ) (write_err : Option Str)
    → (write w content n write_err).proxy_error ≡ w.proxy_error
unfolding write capture_write
write-proxy_error w content n write_err = commit-proxy_error w

flush-proxy_error : (w : CaptureWriter) → (flush w).proxy_error ≡ w.proxy_error
unfolding flush
flush-proxy_error w = commit-proxy_error w

handle_error-IsGeneric :
    (p : Proxy) (w : CaptureWriter) (message : Str) (n : ℕ) (write_err : Option Str)
    → configured p.redaction ≡ true
    → All IsGeneric (handle_error p w message n write_err).1
      × ((handle_error p w message n write_err).0.proxy_error ≡ codes "upstream transport failed")
unfolding handle_error
handle_error-IsGeneric p w message n write_err h =
    let shown = codes "upstream transport failed" in
    rw h (
      report-All IsGeneric p.errors.transport (wrap (codes "forward request") (failure shown))
          (inl refl),
      write-proxy_error (write_header (record w { proxy_error = shown }) 502)
            (codes "Bad Gateway" ++ 10 ∷ []) n write_err
          ∙ write_header-proxy_error (record w { proxy_error = shown }) 502,
    )

same_text : (a b : Str) → a ≡ b → IsGenericText b → IsGenericText a
same_text a b e g = subst IsGenericText (sym e) g

-- Whatever the transport's messages, what is left of them is generic.
pub Handled-IsGeneric :
    (p : Proxy) {w : CaptureWriter} {es : List Error}
    → configured p.redaction ≡ true
    → Handled p w es
    → All IsGeneric es × IsGenericText w.proxy_error
Handled-IsGeneric p h (started limit) = (tt, inl refl)
Handled-IsGeneric p h (wrote_status {w} {es} status before) =
    let (g, t) = Handled-IsGeneric p h before in
    (g, same_text _ _ (write_header-proxy_error w status) t)
Handled-IsGeneric p h (wrote_body {w} {es} content n write_err before) =
    let (g, t) = Handled-IsGeneric p h before in
    (g, same_text _ _ (write-proxy_error w content n write_err) t)
Handled-IsGeneric p h (flushed {w} {es} before) =
    let (g, t) = Handled-IsGeneric p h before in (g, same_text _ _ (flush-proxy_error w) t)
Handled-IsGeneric p h (transport_failed {w} {es} message n write_err before) =
    let (g, t) = Handled-IsGeneric p h before in
    let (f, u) = handle_error-IsGeneric p w message n write_err h in
    (All-append IsGeneric es (handle_error p w message n write_err).1 g f, inr (inl u))

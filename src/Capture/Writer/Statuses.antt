-- ===== src/Capture/Writer/Statuses.antt =====
-- Which statuses reach the client, and which one is recorded.
use graybox_core.Capture.Writer.Reached.{
  WriterStep, writes_header, writes, flushes, fails, Reached, begin, next,
}
use graybox_core.Capture.Writer.{
  CaptureWriter, is_informational, write_header, commit, write, flush,
}
use graybox_core.Prelude.{
  ℕ, ◌≡◌, ◌⊎◌, inl, inr, Bool, true, false, List, [], ◌∷◌, ◌++◌, All, All-append, if◌then◌else◌,
  arith, refl, ap, sym, ◌∙◌, Bool-cases,
}
use mathlib.Core.List.{append-nil}
use mathlib.Core.Path.{subst}

-- The final status, once it has been sent.
abbrev pub final_status : CaptureWriter → List ℕ
final_status w = if w.wrote_header then w.status ∷ [] else []

-- The client has been given informational statuses only, and behind them the recorded status once
-- it is final. Until then 200 is recorded.
pub record IsOrderly (w : CaptureWriter) : Type 0 where
  pub infos : List ℕ
  pub informational : All (λ s. is_informational s ≡ true) infos
  pub sent : w.client.statuses ≡ infos ++ final_status w
  pub final : is_informational w.status ≡ false
  pub implicit : (w.wrote_header ≡ true) ⊎ (w.status ≡ 200)

unsent : (b : Bool) (infos tail : List ℕ) → b ≡ false → infos ++ (if b then tail else []) ≡ infos
unsent true infos tail h = ground arith
unsent false infos tail h = append-nil infos

write_header_again :
    (w : CaptureWriter) (status : ℕ) → w.wrote_header ≡ true → write_header w status ≡ w
unfolding write_header
write_header_again w status e = ground arith

informed : CaptureWriter → ℕ → CaptureWriter
informed w status = record w {
  client = record w.client { statuses = w.client.statuses ++ status ∷ [] };
}

write_header_info :
    (w : CaptureWriter) (status : ℕ)
    → w.wrote_header ≡ false
    → is_informational status ≡ true
    → write_header w status ≡ informed w status
unfolding write_header informed
write_header_info w status e i = ground arith

write_header_final :
    (w : CaptureWriter) (status : ℕ)
    → w.wrote_header ≡ false
    → is_informational status ≡ false
    → write_header w status ≡ record (informed w status) { status = status; wrote_header = true }
unfolding write_header informed
write_header_final w status e i = ground arith

module _ (w : CaptureWriter) (status : ℕ) (e : w.wrote_header ≡ false) (o : IsOrderly w) where
  informed-IsOrderly : is_informational status ≡ true → IsOrderly (informed w status)
  unfolding informed
  informed-IsOrderly i = record {
    infos = o.infos ++ status ∷ [];
    informational =
        All-append (λ s. is_informational s ≡ true) o.infos (status ∷ []) o.informational (i, tt);
    sent =
        ap (λ l. l ++ status ∷ []) (o.sent ∙ unsent w.wrote_header o.infos (w.status ∷ []) e)
        ∙ sym (unsent w.wrote_header (o.infos ++ status ∷ []) (w.status ∷ []) e);
    final = o.final;
    implicit = o.implicit;
  }

  final-IsOrderly :
      is_informational status ≡ false
      → IsOrderly (record (informed w status) { status = status; wrote_header = true })
  unfolding informed
  final-IsOrderly i = record {
    infos = o.infos;
    informational = o.informational;
    sent = ap (λ l. l ++ status ∷ []) (o.sent ∙ unsent w.wrote_header o.infos (w.status ∷ []) e);
    final = i;
    implicit = inl refl;
  }

write_header-IsOrderly :
    (w : CaptureWriter) (status : ℕ) → IsOrderly w → IsOrderly (write_header w status)
write_header-IsOrderly w status o = elim (Bool-cases w.wrote_header) [
  | inl e ↦ subst IsOrderly (sym (write_header_again w status e)) o
  | inr e ↦ elim (Bool-cases (is_informational status)) [
    | inl i ↦
        subst IsOrderly (sym (write_header_info w status e i)) (informed-IsOrderly w status e o i)
    | inr i ↦
        subst IsOrderly (sym (write_header_final w status e i)) (final-IsOrderly w status e o i)
  ]
]

committed : (w : CaptureWriter) → w.wrote_header ≡ true → commit w ≡ w
unfolding commit
committed w e = ground arith

uncommitted : (w : CaptureWriter) → w.wrote_header ≡ false → commit w ≡ write_header w 200
unfolding commit
uncommitted w e = ground arith

commit-IsOrderly : (w : CaptureWriter) → IsOrderly w → IsOrderly (commit w)
commit-IsOrderly w o = elim (Bool-cases w.wrote_header) [
  | inl e ↦ subst IsOrderly (sym (committed w e)) o
  | inr e ↦ subst IsOrderly (sym (uncommitted w e)) (write_header-IsOrderly w 200 o)
]

WriterStep-IsOrderly : {v w : CaptureWriter} → WriterStep v w → IsOrderly v → IsOrderly w
unfolding write flush
WriterStep-IsOrderly {v} (writes_header status) o = write_header-IsOrderly v status o
WriterStep-IsOrderly {v} (writes content n err) o =
    let k = commit-IsOrderly v o in
    record {
      infos = k.infos;
      informational = k.informational;
      sent = k.sent;
      final = k.final;
      implicit = k.implicit;
    }
WriterStep-IsOrderly {v} flushes o = commit-IsOrderly v o
WriterStep-IsOrderly {v} (fails message) o = record {
  infos = o.infos;
  informational = o.informational;
  sent = o.sent;
  final = o.final;
  implicit = o.implicit;
}

-- Whatever the handler behind the proxy does, the client is given informational statuses, and after
-- them at most one final status, which is the one recorded; 200 is recorded until one is final.
pub Reached-IsOrderly : (limit : ℕ) (w : CaptureWriter) → Reached limit w → IsOrderly w
Reached-IsOrderly limit _ begin = record {
  infos = [];
  informational = tt;
  sent = refl;
  final = refl;
  implicit = inr refl;
}
Reached-IsOrderly limit _ (next {v} r s) = WriterStep-IsOrderly s (Reached-IsOrderly limit v r)

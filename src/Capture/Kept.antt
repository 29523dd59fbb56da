-- ===== src/Capture/Kept.antt =====
-- What the capturing reader and writer keep of the bytes that pass through them.
use graybox_core.Prelude.{
  ℕ, zero, suc, ◌-◌, ◌≡◌, ◌++◌, ltb, leb, if◌then◌else◌, length, take, arith, ◌∙◌, ap, inl, inr,
  Bool-cases,
}
use graybox_core.Storage.Metadata.{IsConsistent}
use graybox_core.Text.Prefix.{length-take, take_all, take_grows}
use graybox_core.Text.{Str}
use mathlib.Core.List.{append-nil}

-- After the bytes `seen`: their number, and the first `limit` of them.
pub record Keeps (limit : ℕ) (seen : Str) (observed : ℕ) (kept : Str) : Type 0 where
  pub counted : observed ≡ length seen
  pub first : kept ≡ take limit seen

fitting_rest :
    (n : ℕ) (s chunk : Str)
    → (if leb n 0 then s else s ++ (if ltb n (length chunk) then take n chunk else chunk))
      ≡ s ++ take n chunk
fitting_rest zero s chunk = ground (arith, append-nil s)
fitting_rest (suc n) s chunk = ground (arith, take_all (suc n) chunk)

-- What both `capture` methods make of the body.
pub captured_body :
    (n : ℕ) (seen chunk body : Str) (limit : ℕ)
    → body ≡ take n seen
    → limit ≡ n
    → (if leb (limit - length body) 0
        then body
        else body
          ++ (if ltb (limit - length body) (length chunk)
              then take (limit - length body) chunk
              else chunk))
      ≡ take n (seen ++ chunk)
captured_body n seen chunk body limit h l =
    fitting_rest (limit - length body) body chunk ∙ take_grows n seen chunk body limit h l

-- The sizes that are recorded are those that the storage wants.
pub Keeps-IsConsistent :
    (limit : ℕ) (seen : Str) (observed : ℕ) (kept : Str)
    → Keeps limit seen observed kept
    → IsConsistent (length kept) observed (ltb (length kept) observed)
Keeps-IsConsistent limit seen observed kept k = elim (Bool-cases (ltb (length kept) observed)) [
  | inl e ↦ rw e (ground arith)
  | inr e ↦ rw e (ground (arith, k.counted, ap length k.first, length-take limit seen))
]

-- ===== src/Protocol/Stop/Reference.antt =====
-- The stop buffer against one that withholds the whole text.
use mathlib.Core.Path.{subst}
use serve_mlx.Base.{
  ℕ, suc, ◌+◌, ◌-◌, ◌≡◌, refl, sym, ap, ◌∙◌, none, some, true, false, List, [], ◌∷◌, ◌++◌, length,
  take, if◌then◌else◌, if_else, append_assoc, append-nil, arith, Option-cases, inl, inr,
}
use serve_mlx.Manifest.{is_empty}
use serve_mlx.Protocol.Text.{Text, earliest, longest_marker_prefixes}
use serve_mlx.Protocol.Text.Prefix.{longest_marker_prefixes-IsTail}
use serve_mlx.Protocol.Text.Search.{begins, IsQuiet, shifted, earliest_shift, retained-IsQuiet}
use serve_mlx.Protocol.Stop.{StopSequenceBuffer, init, emit, feed, stream}

take_plus : (i : ℕ) (e b : Text) → take (length e + i) (e ++ b) ≡ e ++ take i b
take_plus i [] b = ap (λ n. take n b) (let e : 0 + i ≡ i = omega arith in e)
take_plus i (x ∷ e) b =
    ap (λ n. take n (x ∷ e ++ b))
      (let e : suc (length e) + i ≡ suc (length e + i) = omega arith in e)
    ∙ ap (◌∷◌ x) (take_plus i e b)

module _ (stops : List Text) where
  -- The text that a buffer without partial output emits: it collects the deltas until a stop is in
  -- the text, and then the text before the first place of a stop is all.
  unfoldable pub collect : Text → List Text → Text
  collect text [] = text
  collect text (delta ∷ deltas) =
      let rest = collect (text ++ delta) deltas in
      elim (earliest stops (text ++ delta)) [
        | some index ↦ take index (text ++ delta)
        | none ↦ rest
      ]

  -- what was emitted, and is in the buffer, is the text; no stop is in it, and none will start in
  -- what was emitted
  pub record IsHeld (emitted text : Text) (s : StopSequenceBuffer) : Type 0 where
    pub going : s.stopped ≡ false
    pub whole : emitted ++ s.buffer ≡ text
    pub absent : earliest stops text ≡ none
    pub quiet : (more : Text) → IsQuiet stops emitted (s.buffer ++ more)

  stream_stopped :
      (texts : List Text) (buffer : Text)
      → stream stops texts (record { buffer = buffer; stopped = true }) ≡ []
  unfolding stream feed
  stream_stopped [] buffer = refl
  stream_stopped (text ∷ texts) buffer = stream_stopped texts buffer

  feed_going :
      (delta : Text) (s : StopSequenceBuffer)
      → s.stopped ≡ false
      → is_empty delta ≡ false
      → feed stops delta s ≡ emit stops (s.buffer ++ delta)
  unfolding feed
  feed_going delta s h e = if_else _ _ _ h ∙ if_else _ _ _ e

  feed_empty : (s : StopSequenceBuffer) → s.stopped ≡ false → feed stops [] s ≡ ([], s)
  unfolding feed
  feed_empty s h = if_else _ _ _ h

  emit_found :
      (b : Text) (i : ℕ)
      → earliest stops b ≡ some i
      → emit stops b ≡ (take i b, record { buffer = []; stopped = true })
  unfolding emit
  emit_found b i h = rw (emit, h) refl

  emit_absent :
      (b : Text)
      → earliest stops b ≡ none
      → emit stops b ≡ (
        take (length b - length (longest_marker_prefixes b stops)) b,
        record { buffer = longest_marker_prefixes b stops; stopped = false },
      )
  unfolding emit
  emit_absent b h = rw (emit, h) refl

  collect_found :
      (text delta : Text) (deltas : List Text) (i : ℕ)
      → earliest stops (text ++ delta) ≡ some i
      → collect text (delta ∷ deltas) ≡ take i (text ++ delta)
  unfolding collect
  collect_found text delta deltas i h = rw (collect, h) refl

  collect_absent :
      (text delta : Text) (deltas : List Text)
      → earliest stops (text ++ delta) ≡ none
      → collect text (delta ∷ deltas) ≡ collect (text ++ delta) deltas
  unfolding collect
  collect_absent text delta deltas h = rw (collect, h) refl

  IsQuiet-append :
      (e p b : Text) → IsQuiet stops e (p ++ b) → IsQuiet stops p b → IsQuiet stops (e ++ p) b
  IsQuiet-append [] p b h k = k
  IsQuiet-append (x ∷ e) p b h k =
      (ap (λ t. begins stops (x ∷ t)) (append_assoc e p b) ∙ h.0, IsQuiet-append e p b h.1 k)

  -- what the text collected says of the buffer with the delta
  with_delta :
      (emitted text delta : Text) (s : StopSequenceBuffer)
      → IsHeld emitted text s
      → (emitted ++ (s.buffer ++ delta) ≡ text ++ delta)
        × (earliest stops (text ++ delta)
            ≡ shifted (length emitted) (earliest stops (s.buffer ++ delta)))
  with_delta emitted text delta s h =
      let same = sym (append_assoc emitted s.buffer delta) ∙ ap (λ t. t ++ delta) h.whole in
      (
        same,
        ap (earliest stops) (sym same)
            ∙ earliest_shift stops emitted (s.buffer ++ delta) (h.quiet delta),
      )

  emit-IsHeld :
      (emitted text delta : Text) (s : StopSequenceBuffer)
      → IsHeld emitted text s
      → earliest stops (s.buffer ++ delta) ≡ none
      → IsHeld
          (emitted ++ (emit stops (s.buffer ++ delta)).0)
          (text ++ delta)
          (emit stops (s.buffer ++ delta)).1
  emit-IsHeld emitted text delta s h e =
      let b = s.buffer ++ delta in
      let r = longest_marker_prefixes b stops in
      let p = take (length b - length r) b in
      let tail : p ++ r ≡ b = longest_marker_prefixes-IsTail b stops in
      let (same, found) = with_delta emitted text delta s h in
      subst (λ w. IsHeld (emitted ++ w.0) (text ++ delta) w.1) (sym (emit_absent b e))
        (record {
          going = refl;
          whole = append_assoc emitted p r ∙ ap (λ t. emitted ++ t) tail ∙ same;
          absent = found ∙ ap (shifted (length emitted)) e;
          quiet = λ more.
              IsQuiet-append emitted p (r ++ more)
                (subst (IsQuiet stops emitted)
                  (sym (append_assoc s.buffer delta more)
                    ∙ ap (λ t. t ++ more) (sym tail)
                    ∙ append_assoc p r more)
                  (h.quiet (delta ++ more)))
                (retained-IsQuiet stops b more e);
        })

  emitted_found :
      (delta : Text) (texts : List Text) (emitted text : Text) (s : StopSequenceBuffer) (i : ℕ)
      → IsHeld emitted text s
      → earliest stops (s.buffer ++ delta) ≡ some i
      → emitted
          ++ (take i (s.buffer ++ delta)
              ++ stream stops texts (record { buffer = []; stopped = true }))
        ≡ collect text (delta ∷ texts)
  emitted_found delta texts emitted text s i h e =
      let (same, found) = with_delta emitted text delta s h in
      ap (λ t. emitted ++ (take i (s.buffer ++ delta) ++ t)) (stream_stopped texts [])
      ∙ ap (λ t. emitted ++ t) (append-nil (take i (s.buffer ++ delta)))
      ∙ sym (take_plus i emitted (s.buffer ++ delta))
      ∙ ap (take (length emitted + i)) same
      ∙ sym (
          collect_found text delta texts (length emitted + i)
            (found ∙ ap (shifted (length emitted)) e))

  stream-collect_held :
      (texts : List Text) (emitted text : Text) (s : StopSequenceBuffer)
      → IsHeld emitted text s
      → emitted ++ stream stops texts s ≡ collect text texts
  unfolding stream collect
  stream-collect_held [] emitted text s h =
      ap (λ b. emitted ++ (if b then [] else s.buffer)) h.going ∙ h.whole
  stream-collect_held ([] ∷ texts) emitted text s h =
      ap (λ w. emitted ++ (w.0 ++ stream stops texts w.1)) (feed_empty s h.going)
      ∙ stream-collect_held texts emitted text s h
      ∙ ap (λ t. collect t texts) (sym (append-nil text))
      ∙ sym (collect_absent text [] texts (ap (earliest stops) (append-nil text) ∙ h.absent))
  stream-collect_held ((x ∷ d) ∷ texts) emitted text s h =
      let delta = x ∷ d in
      ap (λ w. emitted ++ (w.0 ++ stream stops texts w.1)) (feed_going delta s h.going refl)
      ∙ elim (Option-cases (earliest stops (s.buffer ++ delta))) [
        | inr (i, e) ↦
            ap (λ w. emitted ++ (w.0 ++ stream stops texts w.1))
              (emit_found (s.buffer ++ delta) i e)
            ∙ emitted_found delta texts emitted text s i h e
        | inl e ↦
            let (same, found) = with_delta emitted text delta s h in
            let w = emit stops (s.buffer ++ delta) in
            sym (append_assoc emitted w.0 (stream stops texts w.1))
            ∙ stream-collect_held texts (emitted ++ w.0) (text ++ delta) w.1
                (emit-IsHeld emitted text delta s h e)
            ∙ sym (collect_absent text delta texts (found ∙ ap (shifted (length emitted)) e))
      ]

  -- Where no stop is the empty text, a stream emits just what it would if the buffer withheld the
  -- whole text until a stop is in it, and then emitted what is before the stop and dropped the rest:
  -- however a stop is spread over the deltas, none of its text is emitted, and no text before it is
  -- lost.
  pub stream-collect :
      (texts : List Text) → earliest stops [] ≡ none → stream stops texts init ≡ collect [] texts
  stream-collect texts h =
      stream-collect_held texts [] [] init
        (record { going = refl; whole = refl; absent = h; quiet = λ more. tt })

-- ===== src/Protocol/Thinking/Whole/Stream.antt =====
-- The loop of `feed`, over any markers that are apart, labels its text.
use mathlib.Core.Path.{subst}
use serve_mlx.Base.{
  ℕ, zero, suc, ◌+◌, ◌-◌, ◌≤◌, ◌≡◌, refl, sym, ap, ◌∙◌, Option, none, some, true, false, List, [],
  ◌∷◌, ◌++◌, length, take, drop, map, if_then, if_else, leb, length-append, append_assoc,
  append-nil, arith, Bool-cases, Option-cases, inl, inr, All,
}
use serve_mlx.Manifest.{is_empty}
use serve_mlx.Protocol.Text.{Text, find, earliest, earlier, longest_marker_prefixes}
use serve_mlx.Protocol.Text.Prefix.{longest_marker_prefixes-IsTail, take-drop}
use serve_mlx.Protocol.Text.Search.{begins, IsQuiet, earliest-begins, retained-IsQuiet}
use serve_mlx.Protocol.Thinking.{
  Marker, Match, match_at, pick, nearest, texts, ThinkingStreamParser, Emitted, emit, pass, retain,
  scan, feed, flush, stream,
}
use serve_mlx.Protocol.Thinking.Whole.Near.{starting, starting_lem}
use serve_mlx.Protocol.Thinking.Whole.Apart.{
  is_marker, IsMarker, IsApart, IsQuiet-append, starting-append, lacks-starts_with,
  starts_with_split,
}
use serve_mlx.Protocol.Thinking.Whole.Label.{
  mark, label, labels, labels-emit, labels-append, label_quiet, label_marker, nearest-IsFound,
}

-- the whole text of the deltas
abbrev pub concat : List Text → Text
concat [] = []
concat (delta ∷ deltas) = delta ++ concat deltas

pick-none :
    (k : Marker) (i : Option ℕ) (rest : Option Match)
    → pick k i rest ≡ none
    → (i ≡ none) × (rest ≡ none)
pick-none k none rest h = (refl, h)
pick-none k (some i) none h = absurd (let a = h in cc)
pick-none k (some i) (some n) h = elim (Bool-cases (leb i n.index)) [
  | inl e ↦
      absurd (let a = sym (if_then (leb i n.index) (some (match_at i k)) (some n) e) ∙ h in cc)
  | inr e ↦
      absurd (let a = sym (if_else (leb i n.index) (some (match_at i k)) (some n) e) ∙ h in cc)
]

nearest-earliest :
    (ms : List Marker) (t : Text) → nearest ms t ≡ none → earliest (texts ms) t ≡ none
unfolding nearest earliest
nearest-earliest [] t h = refl
nearest-earliest (k ∷ ms) t h =
    let (a, b) = pick-none k (find k.text t) (nearest ms t) h in
    ap (λ i. earlier i (earliest (texts ms) t)) a ∙ nearest-earliest ms t b

drop_plus : (i k : ℕ) (t : Text) → drop (i + k) t ≡ drop k (drop i t)
drop_plus zero k t = ap (λ n. drop n t) (let e : 0 + k ≡ k = omega arith in e)
drop_plus (suc i) k [] = drop_nil (suc i + k) ∙ sym (drop_nil k)
  where
    drop_nil : (n : ℕ) → drop {A = ℕ} n [] ≡ []
    drop_nil zero = refl
    drop_nil (suc n) = refl
drop_plus (suc i) k (x ∷ t) =
    ap (λ n. drop n (x ∷ t)) (let e : suc i + k ≡ suc (i + k) = omega arith in e) ∙ drop_plus i k t

marker_bound : (k : Text) → is_marker k ≡ true → 1 ≤ length k
marker_bound [] h = absurd (let a = h in cc)
marker_bound (x ∷ k) h = omega arith

module _ (ms : List Marker) (proper : All IsMarker ms) (apart : All (IsApart ms) ms) where
  -- what is in the buffer has no marker
  abbrev IsHeld : ThinkingStreamParser → Type 0
  IsHeld s = label ms 0 s.in_reasoning s.buffer ≡ labels (flush s)

  -- what was emitted and what the rest of the text will give is the labelling
  abbrev Labels : Emitted × ThinkingStreamParser → ThinkingStreamParser → Type 0
  Labels r s =
      ((more : Text)
        → labels r.0 ++ label ms 0 r.1.in_reasoning (r.1.buffer ++ more)
          ≡ label ms 0 s.in_reasoning (s.buffer ++ more))
      × IsHeld r.1

  absent-IsQuiet : (u r : Text) → earliest (texts ms) (u ++ r) ≡ none → IsQuiet (texts ms) r []
  absent-IsQuiet u [] h = tt
  absent-IsQuiet u (x ∷ r) h = (
    ap (λ t. begins (texts ms) (x ∷ t)) (append-nil r) ∙ earliest-begins (texts ms) u (x ∷ r) h,
    absent-IsQuiet (u ++ x ∷ []) r (ap (earliest (texts ms)) (append_assoc u (x ∷ []) r) ∙ h),
  )

  quiet-IsHeld : (s : ThinkingStreamParser) → IsQuiet (texts ms) s.buffer [] → IsHeld s
  unfolding label
  quiet-IsHeld s q =
      ap (label ms 0 s.in_reasoning) (sym (append-nil s.buffer))
      ∙ label_quiet ms s.buffer [] s.in_reasoning q
      ∙ append-nil (map (λ x. (s.in_reasoning, x)) s.buffer)
      ∙ sym (labels-emit s.in_reasoning s.buffer)

  retain-Labels : (s : ThinkingStreamParser) → nearest ms s.buffer ≡ none → Labels (retain ms s) s
  unfolding retain
  retain-Labels s h =
      let absent = nearest-earliest ms s.buffer h in
      let r = longest_marker_prefixes s.buffer (texts ms) in
      let p = take (length s.buffer - length r) s.buffer in
      let same : p ++ r ≡ s.buffer = longest_marker_prefixes-IsTail s.buffer (texts ms) in
      (
        (λ more.
            ap (λ z. z ++ label ms 0 s.in_reasoning (r ++ more)) (labels-emit s.in_reasoning p)
            ∙ sym (
                label_quiet ms p (r ++ more) s.in_reasoning
                  (retained-IsQuiet (texts ms) s.buffer more absent))
            ∙ ap (label ms 0 s.in_reasoning)
                (sym (append_assoc p r more) ∙ ap (λ t. t ++ more) same)),
        quiet-IsHeld (record { in_reasoning = s.in_reasoning; buffer = r })
            (absent-IsQuiet p r (ap (earliest (texts ms)) same ∙ absent)),
      )

  -- the text of a match: what is before the marker, the marker and the rest
  match_text :
      (s : ThinkingStreamParser) (m : Match)
      → nearest ms s.buffer ≡ some m
      → (s.buffer ≡ take m.index s.buffer ++ (m.marker.text ++ (pass m s).buffer))
        × (((more : Text)
              → label ms 0 s.in_reasoning (s.buffer ++ more)
                ≡ mark s.in_reasoning (take m.index s.buffer)
                  ++ label ms 0 (pass m s).in_reasoning ((pass m s).buffer ++ more))
            × (1 ≤ length m.marker.text))
  match_text s m h =
      let (start, quiet) = nearest-IsFound ms proper s.buffer m h in
      let k = m.marker.text in
      let p = take m.index s.buffer in
      let d = drop m.index s.buffer in
      let (far, begun) = starting_lem (IsApart ms) ms d m.marker start apart in
      let rest : k ++ (pass m s).buffer ≡ d =
        ap (λ t. k ++ t) (drop_plus m.index (length k) s.buffer) ∙ starts_with_split k d begun in
      let whole : p ++ d ≡ s.buffer = take-drop m.index s.buffer in
      (
        sym whole ∙ ap (λ t. p ++ t) (sym rest),
        (
          (λ more.
              let next : d ++ more ≡ k ++ ((pass m s).buffer ++ more) =
                ap (λ t. t ++ more) (sym rest) ∙ append_assoc k (pass m s).buffer more in
              ap (label ms 0 s.in_reasoning)
                (ap (λ t. t ++ more) (sym whole) ∙ append_assoc p d more)
              ∙ label_quiet ms p (d ++ more) s.in_reasoning
                  (IsQuiet-append ms p d more proper (lacks-starts_with k d far.0 begun) quiet)
              ∙ ap (λ t. mark s.in_reasoning p ++ label ms 0 s.in_reasoning t) next
              ∙ ap (λ z. mark s.in_reasoning p ++ z)
                  (label_marker ms m.marker ((pass m s).buffer ++ more) s.in_reasoning far.0 (
                    ap (starting ms) (sym next)
                    ∙ starting-append ms d more m.marker begun far.1 start))),
          marker_bound k far.0,
        ),
      )

  scan_empty : (n : ℕ) (s : ThinkingStreamParser) → is_empty s.buffer ≡ true → scan ms n s ≡ ([], s)
  unfolding scan
  scan_empty zero s h = refl
  scan_empty (suc n) s h = if_then _ _ _ h

  scan-retain :
      (n : ℕ) (s : ThinkingStreamParser)
      → is_empty s.buffer ≡ false
      → nearest ms s.buffer ≡ none
      → scan ms (suc n) s ≡ retain ms s
  unfolding scan
  scan-retain n s h e = if_else _ _ _ h ∙ rw (e, scan) refl

  scan-pass :
      (n : ℕ) (s : ThinkingStreamParser) (m : Match)
      → is_empty s.buffer ≡ false
      → nearest ms s.buffer ≡ some m
      → scan ms (suc n) s ≡ (
        emit s.in_reasoning (take m.index s.buffer) ++ (scan ms n (pass m s)).0,
        (scan ms n (pass m s)).1,
      )
  unfolding scan
  scan-pass n s m h e = if_else _ _ _ h ∙ rw (e, scan) refl

  empty_nil : (t : Text) → is_empty t ≡ true → t ≡ []
  empty_nil [] h = refl
  empty_nil (x ∷ t) h = absurd (let a = h in cc)

  empty_IsHeld : (s : ThinkingStreamParser) → is_empty s.buffer ≡ true → IsHeld s
  unfolding label
  empty_IsHeld s h =
      let e = empty_nil s.buffer h in
      subst (λ t. label ms 0 s.in_reasoning t ≡ labels (emit s.in_reasoning t)) (sym e) refl

  pass-Labels :
      (s : ThinkingStreamParser) (m : Match) (r : Emitted × ThinkingStreamParser)
      → nearest ms s.buffer ≡ some m
      → Labels r (pass m s)
      → Labels (emit s.in_reasoning (take m.index s.buffer) ++ r.0, r.1) s
  pass-Labels s m r h (same, held) =
      let p = take m.index s.buffer in
      (
        (λ more.
            let rest = label ms 0 r.1.in_reasoning (r.1.buffer ++ more) in
            ap (λ z. z ++ rest)
              (labels-append (emit s.in_reasoning p) r.0
                ∙ ap (λ z. z ++ labels r.0) (labels-emit s.in_reasoning p))
            ∙ append_assoc (mark s.in_reasoning p) (labels r.0) rest
            ∙ ap (λ z. mark s.in_reasoning p ++ z) (same more)
            ∙ sym ((match_text s m h).1.0 more)),
        held,
      )

  pass_shorter :
      (s : ThinkingStreamParser) (m : Match) (n : ℕ)
      → nearest ms s.buffer ≡ some m
      → length s.buffer ≤ suc n
      → length (pass m s).buffer ≤ n
  pass_shorter s m n h l =
      let (whole, (_, some_text)) = match_text s m h in
      let p = take m.index s.buffer in
      let rest = (pass m s).buffer in
      omega (
        arith,
        l,
        some_text,
        ap length whole,
        length-append p (m.marker.text ++ rest),
        length-append m.marker.text rest,
      )

  short_empty : (t : Text) → length t ≤ 0 → is_empty t ≡ true
  short_empty [] l = refl
  short_empty (x ∷ t) l = absurd (omega (arith, l))

  empty-Labels :
      (n : ℕ) (s : ThinkingStreamParser) → is_empty s.buffer ≡ true → Labels (scan ms n s) s
  empty-Labels n s e =
      subst (λ r. Labels r s) (sym (scan_empty n s e)) ((λ more. refl), empty_IsHeld s e)

  scan-Labels : (n : ℕ) (s : ThinkingStreamParser) → length s.buffer ≤ n → Labels (scan ms n s) s
  scan-Labels zero s l = empty-Labels zero s (short_empty s.buffer l)
  scan-Labels (suc n) s l = elim (Bool-cases (is_empty s.buffer)) [
    | inl e ↦ empty-Labels (suc n) s e
    | inr e ↦ elim (Option-cases (nearest ms s.buffer)) [
      | inl h ↦ subst (λ r. Labels r s) (sym (scan-retain n s e h)) (retain-Labels s h)
      | inr (m, h) ↦
          subst (λ r. Labels r s) (sym (scan-pass n s m e h))
            (pass-Labels s m (scan ms n (pass m s)) h
              (scan-Labels n (pass m s) (pass_shorter s m n h l)))
    ]
  ]

  pub stream-label_held :
      (deltas : List Text) (s : ThinkingStreamParser)
      → IsHeld s
      → labels (stream ms deltas s) ≡ label ms 0 s.in_reasoning (s.buffer ++ concat deltas)
  unfolding stream feed
  stream-label_held [] s h = sym h ∙ ap (label ms 0 s.in_reasoning) (sym (append-nil s.buffer))
  stream-label_held (delta ∷ deltas) s h =
      let t : ThinkingStreamParser = record (s) { buffer = s.buffer ++ delta } in
      let fed = scan ms (length t.buffer) t in
      let (same, held) = scan-Labels (length t.buffer) t (omega arith) in
      labels-append fed.0 (stream ms deltas fed.1)
      ∙ ap (λ z. labels fed.0 ++ z) (stream-label_held deltas fed.1 held)
      ∙ same (concat deltas)
      ∙ ap (label ms 0 s.in_reasoning) (append_assoc s.buffer delta (concat deltas))

-- ===== src/Store/Runs.antt =====
-- Reading spans in runs gives what reading each span by itself gives.
use mathlib.Core.Path.{subst}
use serve_mlx.Base.{
  String-discrete, ℕ, ◌+◌, ◌-◌, ◌≤◌, ◌≡◌, refl, sym, ap, ◌∙◌, Option, some, true, List, [], ◌∷◌,
  ◌++◌, length, Result, ok, Exec, arith, Bool-cases, inl, inr, All, sum_by, sum_by-append,
  length-append, append_assoc, append-nil, continue, continue_ok, ==_iff,
}
use serve_mlx.Dict.{put}
use serve_mlx.Store.{
  Bytes, Views, Range, System, ExpertStore, slice, end_of, last_end, continues, put_views, pread,
  read_run, read_spans,
}
use serve_mlx.Store.Slices.{slice-slice}
use serve_mlx.Store.Disk.{IsDisk, IsOpen, pread-Read}

-- The reference: the bytes of each range by itself, in order.
unfoldable pub put_all : Bytes → List Range → Views → Views
put_all l [] out = out
put_all l (r ∷ rest) out =
    put_all l rest (put String-discrete r.role (slice r.offset r.nbytes l) out)

pub put_all-append :
    (l : Bytes) (xs ys : List Range) (out : Views)
    → put_all l (xs ++ ys) out ≡ put_all l ys (put_all l xs out)
unfolding put_all
put_all-append l [] ys out = refl
put_all-append l (r ∷ xs) ys out = put_all-append l xs ys _

-- each range begins where the one before it ends
abbrev pub Chained : Range → List Range → Type 0
Chained r [] = Unit
Chained r (q ∷ rest) = (q.offset ≡ end_of r) × Chained q rest

abbrev pub IsRun : List Range → Type 0
IsRun [] = Unit
IsRun (r ∷ rest) = Chained r rest

abbrev pub InFile : Bytes → Range → Type 0
InFile l r = end_of r ≤ length l

abbrev Between : ℕ → ℕ → Range → Type 0
Between start end r = (start ≤ r.offset) × (end_of r ≤ end)

All-weaken :
    (a b end : ℕ) (xs : List Range) → a ≤ b → All (Between b end) xs → All (Between a end) xs
All-weaken a b end [] h all = tt
All-weaken a b end (x ∷ xs) h all =
    ((omega (arith, h, all.0.0), all.0.1), All-weaken a b end xs h all.1)

Chained-Between :
    (r : Range) (rest : List Range)
    → Chained r rest
    → All (Between r.offset (last_end r rest)) (r ∷ rest)
unfolding last_end
Chained-Between r [] c = ((omega arith, omega arith), tt)
Chained-Between r (q ∷ rest) c =
    let all = Chained-Between q rest c.1 in
    (
      (omega arith, omega (arith, c.0, all.0.1)),
      All-weaken r.offset q.offset (last_end q rest) (q ∷ rest) (omega (arith, c.0)) all,
    )

last_end-InFile :
    (l : Bytes) (r : Range) (rest : List Range)
    → All (InFile l) (r ∷ rest)
    → last_end r rest ≤ length l
unfolding last_end
last_end-InFile l r [] h = h.0
last_end-InFile l r (q ∷ rest) h = last_end-InFile l q rest h.1

Chained-length :
    (r : Range) (rest : List Range)
    → Chained r rest
    → last_end r rest ≡ r.offset + sum_by (λ q. q.nbytes) (r ∷ rest)
unfolding last_end
Chained-length r [] c = omega arith
Chained-length r (q ∷ rest) c = omega (arith, Chained-length q rest c.1, c.0)

put_views-put_all :
    (start end : ℕ) (l : Bytes) (xs : List Range) (out : Views)
    → start ≤ end
    → All (Between start end) xs
    → put_views start (slice start (end - start) l) xs out ≡ put_all l xs out
unfolding put_views put_all
put_views-put_all start end l [] out h all = refl
put_views-put_all start end l (r ∷ xs) out h all =
    let view =
      slice-slice start (end - start) r.offset r.nbytes l all.0.0 (omega (arith, all.0.1, h)) in
    ap (λ v. put_views start (slice start (end - start) l) xs (put String-discrete r.role v out))
      view
    ∙ put_views-put_all start end l xs _ h all.1

IsRun-append :
    (run : List Range) (span : Range)
    → IsRun run
    → continues run span ≡ true
    → IsRun (run ++ span ∷ [])
unfolding continues last_end
IsRun-append [] span h e = tt
IsRun-append (r ∷ []) span h e = ((==_iff span.offset (end_of r)).0 e, tt)
IsRun-append (r ∷ q ∷ rest) span h e = (h.0, IsRun-append (q ∷ rest) span h.1 e)

All-append :
    (l : Bytes) (xs ys : List Range)
    → All (InFile l) xs
    → All (InFile l) ys
    → All (InFile l) (xs ++ ys)
All-append l [] ys h k = k
All-append l (x ∷ xs) ys h k = (h.0, All-append l xs ys h.1 k)

module _ {P D : Type 0} (system : System P D) (path_discrete : Discrete P)
    (content : P → Option Bytes) (disk : IsDisk system content) where
  -- What reading some ranges of a file gives: their bytes by role, as many bytes counted as they
  -- have, and no more reads than ranges.
  pub record ReadAll (l : Bytes) (xs : List Range) (out : Views) (s : ExpertStore P D)
      (r : Result Views) (t : ExpertStore P D) : Type 0 where
    pub result : r ≡ ok (put_all l xs out)
    pub counted : t.bytes_read ≡ s.bytes_read + sum_by (λ q. q.nbytes) xs
    pub reads : t.read_count ≤ s.read_count + length xs
    pub open_files : IsOpen system path_discrete content disk t

  abbrev Reads :
      Bytes → List Range → Views → ExpertStore P D → Result Views × ExpertStore P D → Type 0
  Reads l xs out s m = ReadAll l xs out s m.0 m.1

  Reads-then :
      (l : Bytes) (xs ys : List Range) (out : Views) (s : ExpertStore P D)
      (m : Result Views × ExpertStore P D) (k : Views → Exec (ExpertStore P D) Views)
      → Reads l xs out s m
      → Reads l ys (put_all l xs out) m.1 (k (put_all l xs out) m.1)
      → Reads l (xs ++ ys) out s (continue m k)
  Reads-then l xs ys out s m k first second =
      subst (Reads l (xs ++ ys) out s) (sym (continue_ok m k (put_all l xs out) first.result))
        (record {
          result = second.result ∙ ap ok (sym (put_all-append l xs ys out));
          counted =
              omega (arith, first.counted, second.counted, sum_by-append (λ q. q.nbytes) xs ys);
          reads = omega (arith, first.reads, second.reads, length-append xs ys);
          open_files = second.open_files;
        })

  read_run-Reads :
      (p : P) (l : Bytes) (run : List Range) (out : Views) (s : ExpertStore P D)
      → content p ≡ some l
      → IsRun run
      → All (InFile l) run
      → IsOpen system path_discrete content disk s
      → Reads l run out s (read_run system path_discrete p run out s)
  unfolding read_run put_all last_end put_views
  read_run-Reads p l [] out s c run inside v = record {
    result = refl;
    counted = omega arith;
    reads = omega arith;
    open_files = v;
  }
  read_run-Reads p l (r ∷ []) out s c run inside v =
      let m = pread-Read system path_discrete content disk p r.offset r.nbytes l s c inside.0 v in
      rw (continue_ok (pread system path_discrete p r.offset r.nbytes s) _ _ m.result) (record {
        result = refl;
        counted = omega (arith, m.counted);
        reads = omega (arith, m.once);
        open_files = m.open_files;
      })
  read_run-Reads p l (r ∷ q ∷ rest) out s c run inside v =
      let end = last_end q rest in
      let size = Chained-length r (q ∷ rest) run in
      let bound = last_end-InFile l r (q ∷ rest) inside in
      let m =
        pread-Read system path_discrete content disk p r.offset (end - r.offset) l s c
          (omega (arith, size, bound)) v in
      let views =
        put_views-put_all r.offset end l (r ∷ q ∷ rest) out (omega (arith, size))
          (Chained-Between r (q ∷ rest) run) in
      rw (continue_ok (pread system path_discrete p r.offset (end - r.offset) s) _ _ m.result)
        (record {
          result = ap ok views;
          counted = omega (arith, m.counted, size);
          reads = omega (arith, m.once);
          open_files = m.open_files;
        })

  pub read_spans-Reads :
      (p : P) (l : Bytes) (run spans : List Range) (out : Views) (s : ExpertStore P D)
      → content p ≡ some l
      → IsRun run
      → All (InFile l) run
      → All (InFile l) spans
      → IsOpen system path_discrete content disk s
      → Reads l (run ++ spans) out s (read_spans system path_discrete p run spans out s)
  unfolding read_spans
  read_spans-Reads p l run [] out s c chained inside tt v =
      subst (λ xs. Reads l xs out s (read_run system path_discrete p run out s))
        (sym (append-nil run)) (read_run-Reads p l run out s c chained inside v)
  read_spans-Reads p l run (x ∷ spans) out s c chained inside more v =
      elim (Bool-cases (continues run x)) [
        | inl e ↦
            rw (read_spans, e)
              (subst
                (λ xs.
                  Reads l xs out s (read_spans system path_discrete p (run ++ x ∷ []) spans out s))
                (append_assoc run (x ∷ []) spans)
                (read_spans-Reads p l (run ++ x ∷ []) spans out s c (IsRun-append run x chained e)
                  (All-append l run (x ∷ []) inside (more.0, tt)) more.1 v))
        | inr e ↦
            let m = read_run-Reads p l run out s c chained inside v in
            rw (read_spans, e)
              (Reads-then l run (x ∷ spans) out s (read_run system path_discrete p run out s)
                (read_spans system path_discrete p (x ∷ []) spans) m
                (read_spans-Reads p l (x ∷ []) spans (put_all l run out)
                  (read_run system path_discrete p run out s).1 c tt (more.0, tt) more.1
                  m.open_files))
      ]

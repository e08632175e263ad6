-- ===== src/Store/Bundle.antt =====
-- Reading the grouped files gives the bytes of each tensor, read by itself.
use Prim.Native.String.{String}
use mathlib.Core.Path.{subst}
use mathlib.Core.List.{
  Mem, Nodup, Pairwise-cons, mem-append_right, mem-append_left, mem-cons_self, mem-cons_of_mem,
}
use mathlib.Core.List.Perm
use serve_mlx.Base.{
  String-discrete, ◌+◌, ◌≤◌, ◌≡◌, ◌≢◌, refl, sym, ap, ◌∙◌, Option, none, some, Bool, true, false,
  List, [], ◌∷◌, ◌++◌, map, Result, ok, arith, Option-cases, inl, inr, All, append_assoc,
  append-nil, leb, leb→le, length, length-append, if_neg, continue, continue_ok, sum_by,
  sum_by-append, Exec,
}
use serve_mlx.Dict.{lookup, put}
use serve_mlx.Dict.Laws.{put_new}
use serve_mlx.Store.{
  Bytes, Views, Range, System, ExpertStore, slice, end_of, sort_spans, read_spans, read_run,
  read_files,
}
use serve_mlx.Store.Disk.{IsDisk, IsOpen}
use serve_mlx.Store.Runs.{put_all, InFile, read_spans-Reads}
use serve_mlx.Store.Groups.{placed, spread_sorted, snoc-perm, middle-perm}

-- the bytes of a file, where there is one
abbrev pub bytes_in : {P : Type 0} → (P → Option Bytes) → P → Bytes
bytes_in content p = elim (content p) [ none ↦ [] | some l ↦ l ]

-- the range lies in a file that is there
abbrev pub is_there : {P : Type 0} → (P → Option Bytes) → P × Range → Bool
is_there content (p, r) = elim (content p) [ none ↦ false | some l ↦ leb (end_of r) (length l) ]

-- the bytes of one tensor, by itself
abbrev pub entry : {P : Type 0} → (P → Option Bytes) → P × Range → String × Bytes
entry content (p, r) = (r.role, slice r.offset r.nbytes (bytes_in content p))

-- the dictionary of some tensors, each read by itself
unfoldable pub put_each : {P : Type 0} → (P → Option Bytes) → List (P × Range) → Views → Views
put_each content [] out = out
put_each content (x ∷ xs) out =
    put_each content xs (put String-discrete (entry content x).0 (entry content x).1 out)

module _ {P : Type 0} (content : P → Option Bytes) where
  put_each-append :
      (xs ys : List (P × Range)) (out : Views)
      → put_each content (xs ++ ys) out ≡ put_each content ys (put_each content xs out)
  unfolding put_each
  put_each-append [] ys out = refl
  put_each-append (x ∷ xs) ys out = put_each-append xs ys _

  put_each-placed :
      (p : P) (rs : List Range) (out : Views)
      → put_each content (placed p rs) out ≡ put_all (bytes_in content p) rs out
  unfolding put_each put_all
  put_each-placed p [] out = refl
  put_each-placed p (r ∷ rs) out = put_each-placed p rs _

  lookup-miss :
      (k : String) (d : Views)
      → ((j : String) → Mem j (map (λ e. e.0) d) → j ≢ k)
      → lookup String-discrete k d ≡ none
  unfolding lookup
  lookup-miss k [] h = refl
  lookup-miss k ((j, v) ∷ d) h =
      if_neg (String-discrete j k) (h j mem-cons_self) (some v) (lookup String-discrete k d)
      ∙ lookup-miss k d (λ i m. h i (mem-cons_of_mem j m))

  map-snoc :
      (d : Views) (e : String × Bytes) → map (λ x. x.0) (d ++ e ∷ []) ≡ map (λ x. x.0) d ++ e.0 ∷ []
  map-snoc [] e = refl
  map-snoc (x ∷ d) e = ap (◌∷◌ x.0) (map-snoc d e)

  -- With roles that differ no entry is written over.
  pub put_each-map :
      (xs : List (P × Range)) (out : Views)
      → Nodup (map (λ x. x.1.role) xs ++ map (λ e. e.0) out)
      → put_each content xs out ≡ out ++ map (entry content) xs
  unfolding put_each
  put_each-map [] out d = sym (append-nil out)
  put_each-map (x ∷ xs) out d =
      let (apart, rest) = Pairwise-cons.0 d in
      let new =
        lookup-miss x.1.role out
          (λ j m e. apart j (mem-append_right (map (λ y. y.1.role) xs) m) (sym e)) in
      let roles = map (λ y. y.1.role) xs in
      let old = map (λ e. e.0) out in
      let more =
        Perm.trans (Perm.append_left roles (snoc-perm x.1.role old))
          (middle-perm x.1.role roles old) in
      ap (put_each content xs) (put_new String-discrete x.1.role (entry content x).1 out new)
      ∙ put_each-map xs (out ++ entry content x ∷ []) (
          subst (λ l. Nodup (roles ++ l)) (sym (map-snoc out (entry content x)))
            (Perm.nodup (Perm.symm more) d))
      ∙ append_assoc out (entry content x ∷ []) (map (entry content) xs)

  there_InFile :
      (p : P) (l : Bytes) (rs : List Range)
      → content p ≡ some l
      → ((x : P × Range) → Mem x (placed p rs) → is_there content x ≡ true)
      → All (InFile l) rs
  there_InFile p l [] c h = tt
  there_InFile p l (r ∷ rs) c h =
      let fits = rw (is_there, c) at (h (p, r) mem-cons_self) in
      (
        leb→le (end_of r) (length l) fits,
        there_InFile p l rs c (λ x m. h x (mem-cons_of_mem (p, r) m)),
      )

  there_content :
      (x : P × Range) → is_there content x ≡ true → content x.0 ≡ some (bytes_in content x.0)
  there_content (p, r) h = elim (Option-cases (content p)) [
    | inl e ↦ absurd (let y = (rw (is_there, e) at h) in cc)
    | inr (l, e) ↦ rw (bytes_in, e) refl
  ]

  pub there_bound :
      (x : P × Range) → is_there content x ≡ true → end_of x.1 ≤ length (bytes_in content x.0)
  there_bound (p, r) h = elim (Option-cases (content p)) [
    | inl e ↦ absurd (let y = (rw (is_there, e) at h) in cc)
    | inr (l, e) ↦ rw (bytes_in, e) (leb→le (end_of r) (length l) (rw (is_there, e) at h))
  ]

module _ {P D : Type 0} (system : System P D) (path_discrete : Discrete P)
    (content : P → Option Bytes) (disk : IsDisk system content) where
  -- What reading some tensors gives.
  pub record ReadEach (xs : List (P × Range)) (out : Views) (s : ExpertStore P D) (r : Result Views)
      (t : ExpertStore P D) : Type 0 where
    pub result : r ≡ ok (put_each content xs out)
    pub counted : t.bytes_read ≡ s.bytes_read + sum_by (λ x. x.1.nbytes) xs
    pub reads : t.read_count ≤ s.read_count + length xs
    pub open_files : IsOpen system path_discrete content disk t

  abbrev Each : List (P × Range) → Views → ExpertStore P D → Result Views × ExpertStore P D → Type 0
  Each xs out s m = ReadEach xs out s m.0 m.1

  sum-placed :
      (p : P) (rs : List Range)
      → (sum_by (λ x. x.1.nbytes) (placed p rs) ≡ sum_by (λ r. r.nbytes) rs)
        × (length (placed p rs) ≡ length rs)
  sum-placed p [] = (refl, refl)
  sum-placed p (r ∷ rs) = (omega (arith, (sum-placed p rs).0), omega (arith, (sum-placed p rs).1))

  read_file-Each :
      (p : P) (rs : List Range) (out : Views) (s : ExpertStore P D)
      → ((x : P × Range) → Mem x (placed p rs) → is_there content x ≡ true)
      → IsOpen system path_discrete content disk s
      → Each (placed p rs) out s (read_spans system path_discrete p [] rs out s)
  unfolding read_spans read_run put_each
  read_file-Each p [] out s there v = record {
    result = refl;
    counted = omega arith;
    reads = omega arith;
    open_files = v;
  }
  read_file-Each p (r ∷ rs) out s there v =
      let c = there_content content (p, r) (there (p, r) mem-cons_self) in
      let l = bytes_in content p in
      let m =
        read_spans-Reads system path_discrete content disk p l [] (r ∷ rs) out s c tt tt
          (there_InFile content p l (r ∷ rs) c there) v in
      let (size, count) = sum-placed p (r ∷ rs) in
      record {
        result = m.result ∙ ap ok (sym (put_each-placed content p (r ∷ rs) out));
        counted = omega (arith, m.counted, size);
        reads = omega (arith, m.reads, count);
        open_files = m.open_files;
      }

  Each-then :
      (xs ys : List (P × Range)) (out : Views) (s : ExpertStore P D)
      (m : Result Views × ExpertStore P D) (k : Views → Exec (ExpertStore P D) Views)
      → Each xs out s m
      → Each ys (put_each content xs out) m.1 (k (put_each content xs out) m.1)
      → Each (xs ++ ys) out s (continue m k)
  Each-then xs ys out s m k first second =
      subst (Each (xs ++ ys) out s) (sym (continue_ok m k (put_each content xs out) first.result))
        (record {
          result = second.result ∙ ap ok (sym (put_each-append content xs ys out));
          counted =
              omega (arith, first.counted, second.counted, sum_by-append (λ x. x.1.nbytes) xs ys);
          reads = omega (arith, first.reads, second.reads, length-append xs ys);
          open_files = second.open_files;
        })

  pub read_files-Each :
      (g : List (P × List Range)) (out : Views) (s : ExpertStore P D)
      → ((x : P × Range) → Mem x (spread_sorted g) → is_there content x ≡ true)
      → IsOpen system path_discrete content disk s
      → Each (spread_sorted g) out s (read_files system path_discrete g out s)
  unfolding read_files put_each
  read_files-Each [] out s there v = record {
    result = refl;
    counted = omega arith;
    reads = omega arith;
    open_files = v;
  }
  read_files-Each ((p, spans) ∷ g) out s there v =
      let m =
        read_file-Each p (sort_spans spans) out s
          (λ x e. there x (mem-append_left (spread_sorted g) e)) v in
      Each-then (placed p (sort_spans spans)) (spread_sorted g) out s
        (read_spans system path_discrete p [] (sort_spans spans) out s)
        (read_files system path_discrete g) m
        (read_files-Each g (put_each content (placed p (sort_spans spans)) out)
          (read_spans system path_discrete p [] (sort_spans spans) out s).1
          (λ x e. there x (mem-append_right (placed p (sort_spans spans)) e)) m.open_files)

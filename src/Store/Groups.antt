-- ===== src/Store/Groups.antt =====
-- Grouping the tensors of a bundle by file, and sorting a file's spans, keep each of them.
use Prim.Native.String.{String}
use text.Mathlib.Text.{◌==◌ as str_eq}
use text.Mathlib.TextEquality.{eq_iff}
use mathlib.Core.Path.{subst}
use mathlib.Core.List.{Mem, Nodup, Pairwise-cons, mem-append_right, mem-cons_self, mem-cons_of_mem}
use mathlib.Core.List.Perm
use mathlib.Core.List.{Perm}
use serve_mlx.Base.{
  ◌≡◌, ◌≢◌, refl, sym, ap, ◌∙◌, some, true, false, List, [], ◌∷◌, ◌++◌, map, ok, Bool-cases,
  Option-cases, inl, inr, All, append_assoc, append-nil, leb, if◌then◌else◌, if_then, if_else,
}
use serve_mlx.Dict.{lookup, put}
use serve_mlx.Dict.Laws.{put_new, lookup-Split}
use serve_mlx.Manifest.{TensorSpan, is_in}
use serve_mlx.Store.{
  Range, System, insert_span, sort_spans, add_span, group_spans, is_checked, as_range,
}

insert_span-perm : (r : Range) (xs : List Range) → Perm (insert_span r xs) (r ∷ xs)
unfolding insert_span
insert_span-perm r [] = Perm.refl (r ∷ [])
insert_span-perm r (x ∷ xs) = elim (Bool-cases (leb r.offset x.offset)) [
  | inl e ↦ rw (insert_span, e) (Perm.refl (r ∷ x ∷ xs))
  | inr e ↦
      rw (insert_span, e) (Perm.trans (Perm.cons x (insert_span-perm r xs)) (Perm.swap r x xs))
]

pub sort_spans-perm : (xs : List Range) → Perm (sort_spans xs) xs
unfolding sort_spans
sort_spans-perm [] = Perm.nil
sort_spans-perm (x ∷ xs) =
    Perm.trans (insert_span-perm x (sort_spans xs)) (Perm.cons x (sort_spans-perm xs))

module _ (Q : Range → Type 0) where
  insert_span-All : (r : Range) (xs : List Range) → Q r → All Q xs → All Q (insert_span r xs)
  unfolding insert_span
  insert_span-All r [] q h = (q, tt)
  insert_span-All r (x ∷ xs) q h =
      elim (leb r.offset x.offset)
        as (λ b. All Q (if b then r ∷ x ∷ xs else x ∷ insert_span r xs)) [
          | true ↦ (q, h)
          | false ↦ (h.0, insert_span-All r xs q h.1)
        ]

  pub sort_spans-All : (xs : List Range) → All Q xs → All Q (sort_spans xs)
  unfolding sort_spans
  sort_spans-All [] h = tt
  sort_spans-All (x ∷ xs) h = insert_span-All x (sort_spans xs) h.0 (sort_spans-All xs h.1)

pub middle-perm : {A : Type 0} (x : A) (xs ys : List A) → Perm (xs ++ x ∷ ys) (x ∷ xs ++ ys)
middle-perm x [] ys = Perm.refl (x ∷ ys)
middle-perm x (y ∷ xs) ys =
    Perm.trans (Perm.cons y (middle-perm x xs ys)) (Perm.swap x y (xs ++ ys))

pub snoc-perm : {A : Type 0} (x : A) (xs : List A) → Perm (xs ++ x ∷ []) (x ∷ xs)
snoc-perm x [] = Perm.refl (x ∷ [])
snoc-perm x (y ∷ ys) = Perm.trans (Perm.cons y (snoc-perm x ys)) (Perm.swap x y ys)

module _ {P : Type 0} where
  abbrev pub placed : P → List Range → List (P × Range)
  placed p = map (λ r. (p, r))

  -- the spans of all files, in the order of the groups
  abbrev pub spread : List (P × List Range) → List (P × Range)
  spread [] = []
  spread ((p, spans) ∷ rest) = placed p spans ++ spread rest

  -- the same, with the spans of each file sorted
  abbrev pub spread_sorted : List (P × List Range) → List (P × Range)
  spread_sorted [] = []
  spread_sorted ((p, spans) ∷ rest) = placed p (sort_spans spans) ++ spread_sorted rest

  pub spread_sorted-perm : (g : List (P × List Range)) → Perm (spread_sorted g) (spread g)
  spread_sorted-perm [] = Perm.nil
  spread_sorted-perm ((p, spans) ∷ rest) =
      Perm.append (Perm.map (λ r. (p, r)) (sort_spans-perm spans)) (spread_sorted-perm rest)

  placed-snoc :
      (p : P) (spans : List Range) (r : Range)
      → placed p (spans ++ r ∷ []) ≡ placed p spans ++ (p, r) ∷ []
  placed-snoc p [] r = refl
  placed-snoc p (x ∷ spans) r = ap (◌∷◌ (p, x)) (placed-snoc p spans r)

  spread-append : (g h : List (P × List Range)) → spread (g ++ h) ≡ spread g ++ spread h
  spread-append [] h = refl
  spread-append ((p, spans) ∷ g) h =
      ap (λ l. placed p spans ++ l) (spread-append g h)
      ∙ sym (append_assoc (placed p spans) (spread g) (spread h))

  -- what `by_file[path].append(span)` does to the spans of all files
  entry-perm :
      (p : P) (r : Range) (spans : List Range) (pre post : List (P × List Range))
      → Perm
          (spread (pre ++ (p, spans ++ r ∷ []) ∷ post))
          ((p, r) ∷ spread (pre ++ (p, spans) ∷ post))
  entry-perm p r spans [] post =
      subst (λ l. Perm l ((p, r) ∷ placed p spans ++ spread post))
        (sym (append_assoc (placed p spans) ((p, r) ∷ []) (spread post))
          ∙ ap (λ l. l ++ spread post) (sym (placed-snoc p spans r)))
        (middle-perm (p, r) (placed p spans) (spread post))
  entry-perm p r spans ((q, old) ∷ pre) post =
      Perm.trans (Perm.append_left (placed q old) (entry-perm p r spans pre post))
        (middle-perm (p, r) (placed q old) (spread (pre ++ (p, spans) ∷ post)))

module _ {P : Type 0} (path_discrete : Discrete P) where
  append_to-perm :
      (p : P) (r : Range) (spans : List Range) (g : List (P × List Range))
      → lookup path_discrete p g ≡ some spans
      → Perm (spread (put path_discrete p (spans ++ r ∷ []) g)) ((p, r) ∷ spread g)
  append_to-perm p r spans g e =
      let (pre, post, same, puts) = lookup-Split path_discrete p spans g e in
      subst (λ l. Perm (spread (put path_discrete p (spans ++ r ∷ []) g)) ((p, r) ∷ spread l))
        (sym same)
        (subst (λ l. Perm (spread l) ((p, r) ∷ spread (pre ++ (p, spans) ∷ post)))
          (sym (puts (spans ++ r ∷ []))) (entry-perm p r spans pre post))

  add_span-perm :
      (p : P) (r : Range) (g : List (P × List Range))
      → Perm (spread (add_span path_discrete p r g)) ((p, r) ∷ spread g)
  unfolding add_span
  add_span-perm p r g = elim (Option-cases (lookup path_discrete p g)) [
    | inr (spans, e) ↦ rw (add_span, e) (append_to-perm p r spans g e)
    | inl e ↦
        rw (add_span, e, put_new path_discrete p (r ∷ []) g e)
          (subst (λ l. Perm l ((p, r) ∷ spread g)) (sym (spread-append g ((p, r ∷ []) ∷ [])))
            (snoc-perm (p, r) (spread g)))
  ]

pub is_in-miss :
    (x : String) (l : List String) → ((y : String) → Mem y l → x ≢ y) → is_in x l ≡ false
unfolding is_in
is_in-miss x [] h = refl
is_in-miss x (y ∷ l) h = elim (Bool-cases (str_eq y x)) [
  | inl e ↦ absurd (h y mem-cons_self (sym ((eq_iff y x).0 e)))
  | inr e ↦ rw e (is_in-miss x l (λ z m. h z (mem-cons_of_mem y m)))
]

module _ {P D : Type 0} (system : System P D) (path_discrete : Discrete P) where
  abbrev pub place : TensorSpan P → P × Range
  place t = (system.resolve t.file, as_range t)

  -- Tensors that are checked, with roles that differ, are grouped, and none is lost or added.
  pub group_spans-perm :
      (ts : List (TensorSpan P)) (seen : List String) (g : List (P × List Range))
      → Nodup (map (λ t. t.role) ts ++ seen)
      → All (λ t. is_checked t ≡ true) ts
      → (h : List (P × List Range)) × (group_spans system path_discrete ts seen g ≡ ok h)
        × Perm (spread h) (spread g ++ map place ts)
  unfolding group_spans
  group_spans-perm [] seen g d c =
      (g, refl, subst (Perm (spread g)) (sym (append-nil (spread g))) (Perm.refl (spread g)))
  group_spans-perm (t ∷ ts) seen g d c =
      let (apart, rest) = Pairwise-cons.0 d in
      let new =
        is_in-miss t.role seen (λ y m. apart y (mem-append_right (map (λ u. u.role) ts) m)) in
      let d2 = Perm.nodup (Perm.symm (middle-perm t.role (map (λ u. u.role) ts) seen)) d in
      let p = system.resolve t.file in
      let g2 = add_span path_discrete p (as_range t) g in
      let (h, e, q) = group_spans-perm ts (t.role ∷ seen) g2 d2 c.1 in
      (
        h,
        if_else (is_in t.role seen) _ _ new ∙ if_then (is_checked t) _ _ c.0 ∙ e,
        Perm.trans q (
            Perm.trans
              (Perm.append_right (map place ts) (add_span-perm path_discrete p (as_range t) g))
              (Perm.symm (middle-perm (place t) (spread g) (map place ts)))),
      )

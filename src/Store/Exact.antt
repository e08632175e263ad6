-- ===== src/Store/Exact.antt =====
-- `read_bundle` returns the bytes of each tensor of a bundle.
use mathlib.Core.Path.{subst}
use mathlib.Core.List.{Mem, Nodup, mem-cons_self, mem-cons_of_mem, foldr}
use mathlib.Core.List.Perm
use mathlib.Core.List.{Perm}
use native.Mathlib.Nat.{ℕ_set}
use serve_mlx.Base.{
  suc, ℕ, ◌+◌, ◌≤◌, ◌≡◌, refl, sym, ap, ◌∙◌, Option, true, List, [], ◌∷◌, map, Result, ok, arith,
  All, append-nil, length, if_then, continue_ok, sum_by,
}
use serve_mlx.Base.Int.{pos, eqb_ℤ}
use serve_mlx.Dict.{total}
use serve_mlx.Manifest.{TensorSpan, ExpertBundleSpec}
use serve_mlx.Store.{Bytes, Views, Range, System, ExpertStore, read_files, read_bundle, is_checked}
use serve_mlx.Store.Slices.{length-slice}
use serve_mlx.Store.Disk.{IsDisk, IsOpen}
use serve_mlx.Store.Groups.{spread_sorted, spread_sorted-perm, place, group_spans-perm}
use serve_mlx.Store.Bundle.{bytes_in, is_there, there_bound, entry, put_each-map, read_files-Each}

sum_by-foldr : {A : Type 0} (f : A → ℕ) (xs : List A) → sum_by f xs ≡ foldr (λ x n. f x + n) 0 xs
sum_by-foldr f [] = refl
sum_by-foldr f (x ∷ xs) = ap (λ n. f x + n) (sum_by-foldr f xs)

sum_by-perm : {A : Type 0} (f : A → ℕ) (xs ys : List A) → Perm xs ys → sum_by f xs ≡ sum_by f ys
sum_by-perm f xs ys p =
    sum_by-foldr f xs
    ∙ Perm.foldr-eq ℕ_set (λ x n. f x + n) (λ a b x. omega arith) p 0
    ∙ sym (sum_by-foldr f ys)

length-sum_by : {A : Type 0} (xs : List A) → length xs ≡ sum_by (λ x. 1) xs
length-sum_by [] = refl
length-sum_by (x ∷ xs) = omega (arith, length-sum_by xs)

length-perm : {A : Type 0} (xs ys : List A) → Perm xs ys → length xs ≡ length ys
length-perm xs ys p = length-sum_by xs ∙ sum_by-perm (λ x. 1) xs ys p ∙ sym (length-sum_by ys)

module _ {P : Type 0} (content : P → Option Bytes) where
  length-entry :
      (x : P × Range) → is_there content x ≡ true → length (entry content x).1 ≡ x.1.nbytes
  length-entry (p, r) h =
      length-slice r.offset r.nbytes (bytes_in content p) (there_bound content (p, r) h)

  total-entries :
      (xs : List (P × Range))
      → ((x : P × Range) → Mem x xs → is_there content x ≡ true)
      → total length (map (entry content) xs) ≡ sum_by (λ x. x.1.nbytes) xs
  total-entries [] h = refl
  total-entries (x ∷ xs) h = omega (
    arith,
    length-entry x (h x mem-cons_self),
    total-entries xs (λ y m. h y (mem-cons_of_mem x m)),
  )

module _ {P D : Type 0} (system : System P D) (path_discrete : Discrete P) where
  roles-place :
      (ts : List (TensorSpan P))
      → map (λ x. x.1.role) (map (place system path_discrete) ts) ≡ map (λ t. t.role) ts
  roles-place [] = refl
  roles-place (t ∷ ts) = ap (◌∷◌ t.role) (roles-place ts)

  count-place :
      (ts : List (TensorSpan P)) → length (map (place system path_discrete) ts) ≡ length ts
  count-place [] = refl
  count-place (t ∷ ts) = ap suc (count-place ts)

module _ {P D F : Type 0} (system : System P D) (path_discrete : Discrete P)
    (content : P → Option Bytes) (disk : IsDisk system content) where
  abbrev spans_of : ExpertBundleSpec P F → List (P × Range)
  spans_of b = map (place system path_discrete) b.tensors

  -- A bundle that can be read: roles that differ, offsets and sizes that are numbers, files that are
  -- there and long enough, and as many bytes as its tensors.
  pub record IsReadable (b : ExpertBundleSpec P F) : Type 0 where
    pub roles : Nodup (map (λ t. t.role) b.tensors)
    pub checked : All (λ t. is_checked t ≡ true) b.tensors
    pub there : (x : P × Range) → Mem x (spans_of b) → is_there content x ≡ true
    pub bytes : eqb_ℤ (pos (sum_by (λ x. x.1.nbytes) (spans_of b))) b.total_bytes ≡ true

  -- What reading a bundle gives: its entries, in some order, and what is counted.
  pub record ReadsBundle (b : ExpertBundleSpec P F) (s : ExpertStore P D) (r : Result Views)
      (t : ExpertStore P D) : Type 0 where
    pub views : Views
    pub result : r ≡ ok views
    pub exact : Perm views (map (entry content) (spans_of b))
    pub counted : t.bytes_read ≡ s.bytes_read + sum_by (λ x. x.1.nbytes) (spans_of b)
    pub reads : t.read_count ≤ s.read_count + length b.tensors
    pub open_files : IsOpen system path_discrete content disk t

  -- On a system whose files do not change, reading a readable bundle returns. Its result has just the
  -- roles of the bundle's tensors, each with the bytes of its own span, whatever spans were read
  -- together; as many bytes as these are counted, and no more reads than tensors.
  pub read_bundle-ReadsBundle :
      (b : ExpertBundleSpec P F) (s : ExpertStore P D)
      → IsReadable b
      → IsOpen system path_discrete content disk s
      → ReadsBundle b s
          (read_bundle system path_discrete b s).0
          (read_bundle system path_discrete b s).1
  unfolding read_bundle
  read_bundle-ReadsBundle b s ready v =
      let (g, grouped, same) =
        group_spans-perm system path_discrete b.tensors [] []
          (subst Nodup (sym (append-nil (map (λ t. t.role) b.tensors))) ready.roles)
          ready.checked in
      let xs = spread_sorted g in
      let sorted : Perm xs (spans_of b) = Perm.trans (spread_sorted-perm g) same in
      let there : (x : P × Range) → Mem x xs → is_there content x ≡ true =
        λ x m. ready.there x ((Perm.mem_iff sorted).0 m) in
      let m = read_files-Each system path_discrete content disk g [] s there v in
      let out = map (entry content) xs in
      let distinct =
        Perm.nodup (Perm.symm (Perm.map (λ x. x.1.role) sorted))
          (subst Nodup (sym (roles-place system path_discrete b.tensors)) ready.roles) in
      let whole =
        put_each-map content xs []
          (subst Nodup (sym (append-nil (map (λ x. x.1.role) xs))) distinct) in
      let size = sum_by-perm (λ x. x.1.nbytes) xs (spans_of b) sorted in
      let full =
        ap (λ n. eqb_ℤ (pos n) b.total_bytes) (total-entries content xs there ∙ size)
        ∙ ready.bytes in
      let files = read_files system path_discrete g [] s in
      let final : read_bundle system path_discrete b s ≡ (ok out, files.1) =
        rw (read_bundle, grouped)
          (continue_ok files _ out (m.result ∙ ap ok whole) ∙ if_then _ (ok out, files.1) _ full) in
      subst (λ w. ReadsBundle b s w.0 w.1) (sym final)
        (record {
          views = out;
          result = refl;
          exact = Perm.map (entry content) sorted;
          counted = omega (arith, m.counted, size);
          reads = omega (
            arith,
            m.reads,
            length-perm xs (spans_of b) sorted,
            count-place system path_discrete b.tensors,
          );
          open_files = m.open_files;
        })

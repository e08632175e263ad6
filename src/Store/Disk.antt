-- ===== src/Store/Disk.antt =====
-- Single reads on a system whose files do not change.
use mathlib.Core.Path.{subst}
use serve_mlx.Base.{
  ℕ, ◌+◌, ◌≤◌, ◌≡◌, refl, sym, ap, ◌∙◌, Option, some, length, Result, ok, arith, Option-cases, inl,
  inr, le→leb, ==_iff,
}
use serve_mlx.Dict.{lookup, put}
use serve_mlx.Dict.Laws.{lookup-put_self, lookup-put_ne}
use serve_mlx.Store.{Bytes, System, ExpertStore, slice, read_at, pread}
use serve_mlx.Store.Slices.{length-slice}

-- What POSIX says of a system on which the files have the contents `content` and stay so: a file
-- that is there can be opened, an open file has its size, and a read returns the bytes in reach.
pub record IsDisk {P D : Type 0} (system : System P D) (content : P → Option Bytes) : Type 0 where
  pub view : D → Bytes
  pub opens :
      (p : P) (l : Bytes)
      → content p ≡ some l
      → (d : D) × (system.open_file p ≡ some d) × (view d ≡ l)
  pub sized : (d : D) → system.size d ≡ some (length (view d))
  pub reads : (d : D) (n o : ℕ) → system.pread d n o ≡ some (slice o n (view d))

module _ {P D : Type 0} (system : System P D) (path_discrete : Discrete P)
    (content : P → Option Bytes) (disk : IsDisk system content) where
  -- the open files of a store are those of their paths
  abbrev pub IsOpen : ExpertStore P D → Type 0
  IsOpen s =
      (p : P) (d : D) (l : Bytes)
      → lookup path_discrete p s.descriptors ≡ some d
      → content p ≡ some l
      → disk.view d ≡ l

  -- What a read of `n` bytes gives: those bytes, and one more read counted.
  pub record Read (bytes : Bytes) (n : ℕ) (s : ExpertStore P D) (r : Result Bytes)
      (t : ExpertStore P D) : Type 0 where
    pub result : r ≡ ok bytes
    pub counted : t.bytes_read ≡ s.bytes_read + n
    pub once : t.read_count ≡ s.read_count + 1
    pub open_files : IsOpen t

  read_at-Read :
      (d : D) (o n : ℕ) (l : Bytes) (s : ExpertStore P D)
      → disk.view d ≡ l
      → o + n ≤ length l
      → IsOpen s
      → Read
          (slice o n l)
          n
          s
          (read_at system path_discrete d o n s).0
          (read_at system path_discrete d o n s).1
  unfolding read_at
  read_at-Read d o n l s e h v =
      let size = disk.sized d ∙ ap (λ x. some (length x)) e in
      let answer = disk.reads d n o ∙ ap (λ x. some (slice o n x)) e in
      let same = length-slice o n l h in
      let fits = le→leb (o + n) (length l) h in
      let full = (==_iff (length (slice o n l)) n).1 same in
      rw (read_at, size, fits, answer, full)
        (record { result = refl; counted = omega (arith, same); once = refl; open_files = v })

  put-IsOpen :
      (p : P) (d : D) (l : Bytes) (s : ExpertStore P D)
      → content p ≡ some l
      → disk.view d ≡ l
      → IsOpen s
      → IsOpen (record s { descriptors = put path_discrete p d s.descriptors })
  put-IsOpen p d l s c same v q e m found there = elim (path_discrete p q) [
    | yes x ↦
        let found_p =
          subst (λ k. lookup path_discrete k (put path_discrete p d s.descriptors) ≡ some e) (sym x)
            found in
        let there_p = subst (λ k. content k ≡ some m) (sym x) there in
        cc (lookup-put_self path_discrete p d s.descriptors, found_p, there_p, c, same)
    | no x ↦ v q e m (sym (lookup-put_ne path_discrete p q d s.descriptors x) ∙ found) there
  ]

  pub pread-Read :
      (p : P) (o n : ℕ) (l : Bytes) (s : ExpertStore P D)
      → content p ≡ some l
      → o + n ≤ length l
      → IsOpen s
      → Read
          (slice o n l)
          n
          s
          (pread system path_discrete p o n s).0
          (pread system path_discrete p o n s).1
  unfolding pread
  pread-Read p o n l s c h v = elim (Option-cases (lookup path_discrete p s.descriptors)) [
    | inr (d, e) ↦ rw (pread, e) (read_at-Read d o n l s (v p d l e c) h v)
    | inl e ↦
        let (d, opened, same) = disk.opens p l c in
        let t = record s { descriptors = put path_discrete p d s.descriptors } in
        let r = read_at-Read d o n l t same h (put-IsOpen p d l s c same v) in
        rw (pread, e, opened)
          (record {
            result = r.result;
            counted = r.counted;
            once = r.once;
            open_files = r.open_files;
          })
  ]

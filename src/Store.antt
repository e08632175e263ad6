-- ===== src/Store.antt =====
-- src/mlx_moe_stream/storage/safetensors_store.py, the reading half: exact reads of the bytes of an
-- expert. The proofs are in the children.
--
-- The operating system is an argument: opening a path, the size of an open file and `os.pread`,
-- with `none` for an OSError. A descriptor is of any type `D`, a path of any type `P`, and
-- `resolve` is `Path.resolve`. Bytes are numbers. Labels only appear in messages and are left out.
pub mod Slices
pub mod Disk
pub mod Runs
pub mod Groups
pub mod Bundle
pub mod Exact
pub mod Prepared
mod Tests
use Prim.Native.String.{String}
use text.Mathlib.Text.{◌==◌ as str_eq}
use serve_mlx.Base.{
  String-discrete, ℕ, zero, suc, ◌+◌, ◌-◌, ◌≡◌, Option, none, some, Bool, true, false, List, [],
  ◌∷◌, ◌++◌, length, take, drop, map, sum_by, Result, Check, Exec, ok, raise, storage_read,
  os_error, continue, ◌>>=◌, ◌==◌, ◌&&◌, ◌||◌, not, if◌then◌else◌, leb,
}
use serve_mlx.Base.Int.{ℤ, pos, pos_part, leb_ℤ, eqb_ℤ}
use serve_mlx.Dict.{lookup, put, total}
use serve_mlx.Manifest.{TensorSpan, ExpertBundleSpec, is_in}

abbrev pub Bytes : Type 0
Bytes = List ℕ

-- `out`: the bytes read, by role
abbrev pub Views : Type 0
Views = List (String × Bytes)

pub record System (P D : Type 0) : Type 0 where
  pub resolve : P → P
  pub open_file : P → Option D
  pub size : D → Option ℕ
  pub pread : D → ℕ → ℕ → Option Bytes
  pub close_file : D → Option (Unit {0})

pub record ExpertStore (P D : Type 0) : Type 0 where
  pub descriptors : List (P × D)
  pub bytes_read : ℕ
  pub read_count : ℕ

-- a span whose offset and size were checked to be numbers, and its role
pub record Range : Type 0 where
  pub role : String
  pub offset : ℕ
  pub nbytes : ℕ

-- `data[begin : begin + n]`
abbrev pub slice : ℕ → ℕ → Bytes → Bytes
slice begin n bytes = take n (drop begin bytes)

abbrev pub end_of : Range → ℕ
end_of r = r.offset + r.nbytes

-- the end of the last range of a run
unfoldable pub last_end : Range → List Range → ℕ
last_end r [] = end_of r
last_end r (q ∷ rest) = last_end q rest

-- `run and span.offset == run[-1].offset + run[-1].nbytes`
unfoldable pub continues : List Range → Range → Bool
unfolding last_end
continues [] span = false
continues (r ∷ rest) span = span.offset == last_end r rest

-- `spans.sort(key=lambda span: span.offset)`, which keeps the order of equal keys
unfoldable pub insert_span : Range → List Range → List Range
insert_span r [] = r ∷ []
insert_span r (q ∷ rest) = if leb r.offset q.offset then r ∷ q ∷ rest else q ∷ insert_span r rest

unfoldable pub sort_spans : List Range → List Range
unfolding insert_span
sort_spans [] = []
sort_spans (r ∷ rest) = insert_span r (sort_spans rest)

-- the views of a run into the bytes read from `start`
unfoldable pub put_views : ℕ → Bytes → List Range → Views → Views
unfolding put
put_views start blob [] out = out
put_views start blob (r ∷ rest) out =
    put_views start blob rest
      (put String-discrete r.role (slice (r.offset - start) r.nbytes blob) out)

-- `tensor.offset < 0 or tensor.nbytes <= 0` is false
abbrev pub is_checked : {P : Type 0} → TensorSpan P → Bool
is_checked t = leb_ℤ (pos 0) t.offset && leb_ℤ (pos 1) t.nbytes

abbrev pub as_range : {P : Type 0} → TensorSpan P → Range
as_range t = record { role = t.role; offset = pos_part t.offset; nbytes = pos_part t.nbytes }

module _ {P : Type 0} (path_discrete : Discrete P) where
  -- `by_file.setdefault(path, []).append(span)`
  unfoldable pub add_span : P → Range → List (P × List Range) → List (P × List Range)
  unfolding lookup put
  add_span path r by_file = elim (lookup path_discrete path by_file) [
    | none ↦ put path_discrete path (r ∷ []) by_file
    | some spans ↦ put path_discrete path (spans ++ r ∷ []) by_file
  ]

module _ {P D : Type 0} (system : System P D) (path_discrete : Discrete P) where
  -- `_pread`, with the file open: the checks of the size, the read and the counts
  unfoldable pub read_at : D → ℕ → ℕ → Exec (ExpertStore P D) Bytes
  read_at d offset nbytes s = elim (system.size d) [
    | none ↦ (raise storage_read, s)
    | some file_size ↦
        if leb (offset + nbytes) file_size
        then elim (system.pread d nbytes offset) [
          | none ↦ (raise storage_read, s)
          | some bytes ↦
              if length bytes == nbytes
              then (
                ok bytes,
                record s {
                  bytes_read = s.bytes_read + length bytes;
                  read_count = s.read_count + 1;
                },
              )
              else (raise storage_read, s)
        ]
        else (raise storage_read, s)
  ]

  unfoldable pub pread : P → ℕ → ℕ → Exec (ExpertStore P D) Bytes
  unfolding read_at lookup put
  pread path offset nbytes s = elim (lookup path_discrete path s.descriptors) [
    | some d ↦ read_at d offset nbytes s
    | none ↦ elim (system.open_file path) [
      | none ↦ (raise storage_read, s)
      | some d ↦
          read_at d offset nbytes
            (record s { descriptors = put path_discrete path d s.descriptors })
    ]
  ]

  unfoldable pub read_tensor : TensorSpan P → Exec (ExpertStore P D) Bytes
  unfolding pread
  read_tensor t s =
      if is_checked t
      then pread (system.resolve t.file) (pos_part t.offset) (pos_part t.nbytes) s
      else (raise storage_read, s)

  -- `_read_run`
  unfoldable pub read_run : P → List Range → Views → Exec (ExpertStore P D) Views
  unfolding pread put_views last_end put
  read_run path [] out s = (ok out, s)
  read_run path (r ∷ []) out s =
      continue (pread path r.offset r.nbytes s)
        λ bytes t. (ok (put String-discrete r.role bytes out), t)
  read_run path (r ∷ q ∷ rest) out s =
      continue (pread path r.offset (last_end q rest - r.offset) s)
        λ blob t. (ok (put_views r.offset blob (r ∷ q ∷ rest) out), t)

  -- the loop over the sorted spans of a file, with the run so far
  unfoldable pub read_spans : P → List Range → List Range → Views → Exec (ExpertStore P D) Views
  unfolding read_run continues
  read_spans path run [] out s = read_run path run out s
  read_spans path run (span ∷ rest) out s = elim (continues run span) [
    | true ↦ read_spans path (run ++ span ∷ []) rest out s
    | false ↦ continue (read_run path run out s) (read_spans path (span ∷ []) rest)
  ]

  -- the loop over the files
  unfoldable pub read_files : List (P × List Range) → Views → Exec (ExpertStore P D) Views
  unfolding read_spans sort_spans
  read_files [] out s = (ok out, s)
  read_files ((path, spans) ∷ rest) out s =
      continue (read_spans path [] (sort_spans spans) out s) (read_files rest)

  -- the loop over the tensors of the bundle
  unfoldable pub group_spans :
      List (TensorSpan P) → List String → List (P × List Range) → Result (List (P × List Range))
  unfolding is_in add_span
  group_spans [] seen_roles by_file = ok by_file
  group_spans (t ∷ tensors) seen_roles by_file =
      let rest =
        group_spans tensors (t.role ∷ seen_roles)
          (add_span path_discrete (system.resolve t.file) (as_range t) by_file) in
      if is_in t.role seen_roles
      then raise storage_read
      else if is_checked t
      then rest
      else raise storage_read

  unfoldable pub read_bundle : {F : Type 0} → ExpertBundleSpec P F → Exec (ExpertStore P D) Views
  unfolding group_spans read_files
  read_bundle b s = elim (group_spans b.tensors [] []) [
    | raise e ↦ (raise e, s)
    | ok by_file ↦ continue (read_files by_file [] s) λ tensors t.
        if eqb_ℤ (pos (total length tensors)) b.total_bytes
        then (ok tensors, t)
        else (raise storage_read, t)
  ]

-- `metrics`
abbrev pub metrics : {P D : Type 0} → ExpertStore P D → ℕ × ℕ
metrics s = (s.bytes_read, s.read_count)

module _ {P D : Type 0} (system : System P D) where
  -- the loop of `close`
  unfoldable pub close_each : List (P × D) → Check
  close_each [] = ok tt
  close_each ((p, d) ∷ rest) = elim (system.close_file d) [
    | none ↦ raise os_error
    | some _ ↦ close_each rest
  ]

  -- `close`
  unfoldable pub close : Exec (ExpertStore P D) (Unit {0})
  unfolding close_each
  close s = elim (close_each s.descriptors) [
    | raise e ↦ (raise e, s)
    | ok _ ↦ (ok tt, record s { descriptors = [] })
  ]

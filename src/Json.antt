-- ===== src/Json.antt =====
-- Decoded JSON values, as the source reads them from configurations and requests. Floats are of any
-- type `F`; an object is a list of its members.
use Prim.Native.String.{String}
use text.Mathlib.Text.{◌==◌ as str_eq}
use serve_mlx.Base.{Option, none, some, Bool, true, false, if◌then◌else◌}
use serve_mlx.Base.Int.{ℤ, pos}

mutual
  pub data Value (F : Type 0) : Type 0 where
    null : Value F
    bool : Bool → Value F
    int : ℤ → Value F
    float : F → Value F
    str : String → Value F
    arr : Items F → Value F
    obj : Fields F → Value F

  pub data Items (F : Type 0) : Type 0 where
    nil : Items F
    cons : Value F → Items F → Items F

  pub data Fields (F : Type 0) : Type 0 where
    end : Fields F
    field : String → Value F → Fields F → Fields F

module _ {F : Type 0} where
  -- `config.get(key)`, with `none` for a key that is absent
  unfoldable pub member : String → Fields F → Option (Value F)
  member key end = none
  member key (field k v rest) = if str_eq k key then some v else member key rest

  -- the integers of `isinstance(value, int)`, which `bool` is one of
  abbrev pub as_int : Value F → Option ℤ
  as_int (int n) = some n
  as_int (bool true) = some (pos 1)
  as_int (bool false) = some (pos 0)
  as_int _ = none

  -- the items of a list
  abbrev pub as_list : Value F → Option (Items F)
  as_list (arr items) = some items
  as_list _ = none

  -- `value == text` for a string on the right
  abbrev pub is_text : Value F → String → Bool
  is_text (str s) text = str_eq s text
  is_text _ text = false

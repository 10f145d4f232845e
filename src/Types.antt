-- ===== src/Types.antt =====
-- The types of the source language: `VtType` and its functions in src/common.h.
-- What a pointer points to is left out: no function here reads it. None stands for a null pointer.
use vortech.Prelude.{
  Option, none, some, ℕ, ◌+◌, ◌*◌, ◌/◌, ◌%◌, ◌^◌, ◌<◌, ◌≡◌, refl, Bool, false, ◌&&◌, ◌||◌, arith,
  leb, ◌==◌, String,
}

mutual
  pub data VtType : Type 0 where
    void i8 i16 i32 i64 u8 u16 u32 u64 f32 f64 bool ptr : VtType
    struct : String → Fields → VtType
    array : VtType → ℕ → VtType

  pub data Fields : Type 0 where
    end : Fields
    field : String → VtType → Fields → Fields

abbrev pub u32_of : ℕ → ℕ
u32_of n = n % 2 ^ 32

-- `(s + 3) & ~3u`
abbrev pub round4 : ℕ → ℕ
round4 s = u32_of (s + 3) / 4 * 4

unfoldable mutual
  pub size : VtType → ℕ
  size void = 0
  size i8 = 1
  size u8 = 1
  size i16 = 2
  size u16 = 2
  size i32 = 4
  size u32 = 4
  size i64 = 8
  size u64 = 8
  size f32 = 4
  size f64 = 8
  size bool = 1
  size ptr = 8
  size (struct name fields) = struct_size 0 fields
  size (array base count) = u32_of (count * size base)

  -- The loop over the fields, with the size so far.
  pub struct_size : ℕ → Fields → ℕ
  struct_size s end = s
  struct_size s (field name t fields) = struct_size (round4 (u32_of (s + size t))) fields

unfoldable pub vt_type_size : Option VtType → ℕ
unfolding size
vt_type_size none = 0
vt_type_size (some t) = size t

-- The number of a kind in the enumeration.
abbrev pub kind : VtType → ℕ
kind void = 0
kind i8 = 1
kind i16 = 2
kind i32 = 3
kind i64 = 4
kind u8 = 5
kind u16 = 6
kind u32 = 7
kind u64 = 8
kind f32 = 9
kind f64 = 10
kind bool = 11
kind ptr = 12
kind (struct name fields) = 13
kind (array base count) = 14

abbrev pub align : VtType → ℕ
align f64 = 8
align i64 = 8
align u64 = 8
align ptr = 8
align f32 = 4
align i32 = 4
align u32 = 4
align i16 = 2
align u16 = 2
align t = 1

abbrev pub vt_type_align : Option VtType → ℕ
vt_type_align none = 1
vt_type_align (some t) = align t

abbrev pub vt_type_is_int : Option VtType → Bool
vt_type_is_int none = false
vt_type_is_int (some t) = leb (kind i8) (kind t) && leb (kind t) (kind u64)

abbrev pub vt_type_is_float : Option VtType → Bool
vt_type_is_float none = false
vt_type_is_float (some t) = kind t == kind f32 || kind t == kind f64

-- Of a type that is there: the source reads the kind of a null pointer.
abbrev pub vt_type_is_numeric : VtType → Bool
vt_type_is_numeric t = vt_type_is_int (some t) || vt_type_is_float (some t) || kind t == kind bool

abbrev pub vt_type_is_unsigned : Option VtType → Bool
vt_type_is_unsigned none = false
vt_type_is_unsigned (some t) = leb (kind u8) (kind t) && leb (kind t) (kind u64)

-- The sum of the fields' sizes, each rounded up to a multiple of four.
abbrev pub padded_sum : Fields → ℕ
padded_sum end = 0
padded_sum (field name t fields) = (vt_type_size (some t) + 3) / 4 * 4 + padded_sum fields

struct_size-padded_sum :
    (s : ℕ) (fields : Fields)
    → s % 4 ≡ 0
    → s < 2 ^ 32
    → struct_size s fields ≡ u32_of (s + padded_sum fields)
unfolding size struct_size vt_type_size
struct_size-padded_sum s end whole small = omega arith
struct_size-padded_sum s (field name t fields) whole small =
    let step =
      struct_size-padded_sum (round4 (u32_of (s + size t))) fields (omega arith) (omega arith) in
    omega (arith, step)

-- The size of a struct is the sum of its fields' sizes, each rounded up to a multiple of four,
-- modulo 2^32.
pub vt_type_size-struct :
    (name : String) (fields : Fields)
    → vt_type_size (some (struct name fields)) ≡ u32_of (padded_sum fields)
unfolding vt_type_size size
vt_type_size-struct name fields =
    let e = struct_size-padded_sum 0 fields refl (omega arith) in omega arith

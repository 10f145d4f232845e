-- ===== src/Tests/Layout.antt =====
-- The size of a concrete struct.
use vortech.Prelude.{◌≡◌, refl, some}
use vortech.Types
use vortech.Types.{VtType, Fields, size, struct_size, u32_of, padded_sum, vt_type_size}

-- struct { a: i8, b: i64, c: [3]i16 }
abbrev fields : Fields
fields =
    Types.field "a" Types.i8
      (Types.field "b" Types.i64 (Types.field "c" (Types.array Types.i16 3) Types.end))

struct_has_size : vt_type_size (some (Types.struct "s" fields)) ≡ 20
unfolding vt_type_size size struct_size
struct_has_size = refl

vt_type_size-struct_example :
    vt_type_size (some (Types.struct "s" fields)) ≡ u32_of (padded_sum fields)
vt_type_size-struct_example = Types.vt_type_size-struct "s" fields

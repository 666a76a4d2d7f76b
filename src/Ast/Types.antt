-- ===== src/Ast/Types.antt =====
-- The rows of incs/types.def and the helpers over them.
use Prim.Native.String.{String}
use tiny_compile.Prelude.{
  ℕ, Bool, true, false, not, ◌&&◌, List, [], ◌∷◌, ltb, ◌==◌, ==_iff, ◌≡◌, refl, some, get_elem?,
  if◌then◌else◌,
}
use tiny_compile.StringView.{StringView, sv_eq_cstr}

pub data DataType : Type 0 where
  void int long int64 int32 int16 int8 uint64 uint32 uint16 uint8 char bool : DataType

abbrev pub type_size : DataType → ℕ
type_size void = 0
type_size int = 4
type_size long = 8
type_size int64 = 8
type_size int32 = 4
type_size int16 = 2
type_size int8 = 1
type_size uint64 = 8
type_size uint32 = 4
type_size uint16 = 2
type_size uint8 = 1
type_size char = 1
type_size bool = 1

abbrev pub type_is_signed : DataType → Bool
type_is_signed void = false
type_is_signed int = true
type_is_signed long = true
type_is_signed int64 = true
type_is_signed int32 = true
type_is_signed int16 = true
type_is_signed int8 = true
type_is_signed uint64 = false
type_is_signed uint32 = false
type_is_signed uint16 = false
type_is_signed uint8 = false
type_is_signed char = true
type_is_signed bool = false

pub type_name : DataType → String
type_name void = "void"
type_name int = "int"
type_name long = "long"
type_name int64 = "int64"
type_name int32 = "int32"
type_name int16 = "int16"
type_name int8 = "int8"
type_name uint64 = "uint64"
type_name uint32 = "uint32"
type_name uint16 = "uint16"
type_name uint8 = "uint8"
type_name char = "char"
type_name bool = "bool"

-- the rows of the table, in its order
abbrev pub all_types : List DataType
all_types =
    void ∷ int ∷ long ∷ int64 ∷ int32 ∷ int16 ∷ int8 ∷ uint64 ∷ uint32 ∷ uint16 ∷ uint8 ∷ char
    ∷ bool ∷ []

abbrev pub is_void : DataType → Bool
is_void void = true
is_void _ = false

-- the number of the enumerator
abbrev pub type_index : DataType → ℕ
type_index void = 0
type_index int = 1
type_index long = 2
type_index int64 = 3
type_index int32 = 4
type_index int16 = 5
type_index int8 = 6
type_index uint64 = 7
type_index uint32 = 8
type_index uint16 = 9
type_index uint8 = 10
type_index char = 11
type_index bool = 12

-- `a == b`
unfoldable pub type_eq : DataType → DataType → Bool
type_eq a b = type_index a == type_index b

named : (a : DataType) → get_elem? all_types (type_index a) ≡ some a
named void = refl
named int = refl
named long = refl
named int64 = refl
named int32 = refl
named int16 = refl
named int8 = refl
named uint64 = refl
named uint32 = refl
named uint16 = refl
named uint8 = refl
named char = refl
named bool = refl

pub type_eq-eq : (a b : DataType) → type_eq a b ≡ true → a ≡ b
unfolding type_eq
type_eq-eq a b h = cc (named a, named b, (==_iff (type_index a) (type_index b)).0 h)

unfoldable pub type_is_integer : DataType → Bool
type_is_integer type = not (is_void type)

unfoldable pub type_is_unsigned : DataType → Bool
type_is_unsigned type = not (type_is_signed type) && not (is_void type)

unfoldable pub type_to_unsigned : DataType → DataType
type_to_unsigned int64 = uint64
type_to_unsigned int32 = uint32
type_to_unsigned int16 = uint16
type_to_unsigned int8 = uint8
type_to_unsigned char = uint8
type_to_unsigned type = type

unfoldable pub type_to_signed : DataType → DataType
type_to_signed uint64 = int64
type_to_signed uint32 = int32
type_to_signed uint16 = int16
type_to_signed uint8 = int8
type_to_signed type = type

promote_sized : DataType → DataType → DataType
unfolding type_is_unsigned
promote_sized a b =
    if ltb (type_size b) (type_size a)
    then a
    else if ltb (type_size a) (type_size b)
    then b
    else if type_is_unsigned a
    then a
    else b

unfoldable pub type_promote : DataType → DataType → DataType
unfolding promote_sized
type_promote void b = b
type_promote a void = a
type_promote a b = promote_sized a b

-- The macro makes a chain of `if`s: the first row whose text is the view's.
first_type : StringView → List DataType → DataType
unfolding type_name
first_type sv [] = void
first_type sv (t ∷ ts) = if sv_eq_cstr sv (type_name t) then t else first_type sv ts

unfoldable pub type_from_sv : StringView → DataType
unfolding first_type
type_from_sv sv = first_type sv all_types

some_type : StringView → List DataType → Bool
unfolding type_name
some_type sv [] = false
some_type sv (t ∷ ts) = if sv_eq_cstr sv (type_name t) then true else some_type sv ts

unfoldable pub is_type_keyword : StringView → Bool
unfolding some_type
is_type_keyword sv = some_type sv all_types

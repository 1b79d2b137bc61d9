-- ===== src/Property/Simple.antt =====
-- src/properties/simple: the class of each data type, and StringProperty. `unset` is the content of a
-- member `size` that the constructor leaves alone, and a value is given by its object representation.
use cpp_sparkplug.Prelude.{
  Bytes, ℕ, length, ◌≡◌, ◌≢◌, refl, ◌<◌, arith, true, false, none, [], ◌∷◌, take-length, ap, ◌∙◌,
  sym, take,
}
use cpp_sparkplug.Prelude.Text.{Lacks}
use cpp_sparkplug.Memory.{read_string-Lacks, read_string}
use cpp_sparkplug.Tahu.{
  DataType, int8, int16, int32, int64, uint8, uint16, uint32, uint64, float, double, boolean,
  date_time, string, size_of,
}
use cpp_sparkplug.Property.{Cell, Property, plain, new, set_string, get_string}
use cpp_sparkplug.Property.Changes.{Holds}

-- SimpleProperty(name, data, dataType), for a value of sizeof(T) bytes.
unfoldable pub simple : DataType → ℕ → Bytes → Bytes → Cell
unfolding new
simple type unset name value = new unset name value (size_of type) type

unfoldable pub int8_property : ℕ → Bytes → Bytes → Property
unfolding simple
int8_property unset name value = plain (simple int8 unset name value)

unfoldable pub int16_property : ℕ → Bytes → Bytes → Property
unfolding simple
int16_property unset name value = plain (simple int16 unset name value)

unfoldable pub int32_property : ℕ → Bytes → Bytes → Property
unfolding simple
int32_property unset name value = plain (simple int32 unset name value)

unfoldable pub int64_property : ℕ → Bytes → Bytes → Property
unfolding simple
int64_property unset name value = plain (simple int64 unset name value)

unfoldable pub uint8_property : ℕ → Bytes → Bytes → Property
unfolding simple
uint8_property unset name value = plain (simple uint8 unset name value)

unfoldable pub uint16_property : ℕ → Bytes → Bytes → Property
unfolding simple
uint16_property unset name value = plain (simple uint16 unset name value)

unfoldable pub uint32_property : ℕ → Bytes → Bytes → Property
unfolding simple
uint32_property unset name value = plain (simple uint32 unset name value)

unfoldable pub uint64_property : ℕ → Bytes → Bytes → Property
unfolding simple
uint64_property unset name value = plain (simple uint64 unset name value)

unfoldable pub float_property : ℕ → Bytes → Bytes → Property
unfolding simple
float_property unset name value = plain (simple float unset name value)

unfoldable pub double_property : ℕ → Bytes → Bytes → Property
unfolding simple
double_property unset name value = plain (simple double unset name value)

unfoldable pub boolean_property : ℕ → Bytes → Bytes → Property
unfolding simple
boolean_property unset name value = plain (simple boolean unset name value)

unfoldable pub date_time_property : ℕ → Bytes → Bytes → Property
unfolding simple
date_time_property unset name value = plain (simple date_time unset name value)

-- StringProperty(name, data) hands over data.size() bytes, without the terminating NUL.
unfoldable pub string_property : ℕ → Bytes → Bytes → Cell
unfolding new
string_property unset name value = new unset name value (length value) string

-- A new property of a type with a size holds its first value, and is not dirty.
pub simple-Holds :
    (type : DataType) (unset : ℕ) (name value : Bytes)
    → 0 < size_of type
    → length value ≡ size_of type
    → Holds (simple type unset name value) (record { value = value; changed = false })
unfolding simple
simple-Holds type unset name value h e =
    let whole : take (size_of type) value ≡ value =
      ap (λ n. take n value) (sym e) ∙ take-length value in
    ground (arith, whole)

string_property_block :
    (unset : ℕ) (name value : Bytes) → (string_property unset name value).block ≡ value
unfolding string_property
string_property_block unset name [] = refl
string_property_block unset name (c ∷ s) = ground (arith, take-length (c ∷ s))

-- Reading the text of a StringProperty that was just made runs past its block, for a text without
-- NULs.
get_string-string_property :
    (unset : ℕ) (name value : Bytes)
    → Lacks 0 value
    → get_string (string_property unset name value) ≡ none
unfolding get_string
get_string-string_property unset name value h =
    ap read_string (string_property_block unset name value) ∙ read_string-Lacks value h

-- Writing the value that a StringProperty was made with makes it dirty.
pub set_string-string_property :
    (unset : ℕ) (name value : Bytes)
    → value ≢ []
    → (set_string value (string_property unset name value)).dirty ≡ true
unfolding set_string string_property
set_string-string_property unset name [] h = absurd (h refl)
set_string-string_property unset name (c ∷ s) h = ground arith

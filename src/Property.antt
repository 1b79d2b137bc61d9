-- ===== src/Property.antt =====
-- src/properties/Property.cpp, properties/Property.h, properties/complex/PropertySet.cpp and
-- properties/simple/SimpleProperty.h, StringProperty.h: properties, which hold a value and a dirty
-- flag, and property sets, which hold properties. A value is the block of its object representation.
pub mod Simple
pub mod Changes
use cpp_sparkplug.Prelude.{
  ℕ, ◌+◌, Bytes, Bool, true, false, ◌||◌, Option, List, [], ◌∷◌, length, take, ltb, ◌==◌,
  if◌then◌else◌,
}
use cpp_sparkplug.Memory.{differs, memcpy, c_str, strdup, read_string}
use cpp_sparkplug.Tahu.{DataType, string, property_set, Tahu}

-- The fields of class Property.
pub record Cell : Type 0 where
  pub name : Bytes
  pub data_type : DataType
  pub size : ℕ
  pub dirty : Bool
  pub block : Bytes

-- Property(name, data, size, dataType). The constructor leaves the member `size` unset when the size
-- is 0; `unset` is what the memory holds there.
unfoldable pub new : ℕ → Bytes → Bytes → ℕ → DataType → Cell
new unset name source size data_type = record {
  name = name;
  data_type = data_type;
  size = if ltb 0 size then size else unset;
  dirty = false;
  block = if ltb 0 size then take size source else [];
}

-- operator=(const Property &right), for another object than this one.
unfoldable pub assign : Cell → Cell → Cell
assign this right = record this {
  name = right.name;
  data_type = right.data_type;
  size = elim right.block [ [] ↦ 0 | _ ∷ _ ↦ right.size ];
  block = elim right.block [ [] ↦ [] | c ∷ s ↦ take right.size (c ∷ s) ];
}

-- Property::setValue(void *data): the flag first, and then the copy if it is set.
unfoldable pub set_value : Bytes → Cell → Cell
set_value source p =
    let dirty' = p.dirty || differs source p.block p.size in
    record p { dirty = dirty'; block = if dirty' then memcpy p.block source p.size else p.block }

-- StringProperty::setValue(std::string value)
unfoldable pub set_string : Bytes → Cell → Cell
unfolding set_value
set_string value p =
    if p.size == length value + 1
    then set_value (c_str value) p
    else record p { dirty = true; size = length value + 1; block = strdup value }

-- StringProperty::getValue; `none` is a read past the block.
unfoldable pub get_string : Cell → Option Bytes
unfolding read_string
get_string p = read_string p.block

unfoldable pub published : Cell → Cell
published p = record p { dirty = false }

mutual
  -- A Property is a plain one or a PropertySet, which is a Property with a list of its own.
  pub data Property : Type 0 where
    plain : Cell → Property
    set : Cell → Properties → Property

  pub data Properties : Type 0 where
    nil : Properties
    cons : Property → Properties → Properties

-- The fields that both have.
abbrev pub base : Property → Cell
base (plain c) = c
base (set c _) = c

-- Property::published and Property::isDirty, which PropertySet inherits.
unfoldable pub mark_published : Property → Property
unfolding published
mark_published (plain c) = plain (published c)
mark_published (set c ps) = set (published c) ps

unfoldable pub is_dirty : Property → Bool
is_dirty p = (base p).dirty

-- PropertySet::create(name), addProperty and addProperties.
unfoldable pub new_set : ℕ → Bytes → Property
unfolding new
new_set unset name = set (new unset name [] 0 property_set) nil

unfoldable pub push_back : Properties → Property → Properties
push_back nil p = cons p nil
push_back (cons q qs) p = cons q (push_back qs p)

unfoldable pub add_property : Property → Property → Property
unfolding push_back
add_property p (plain c) = plain c
add_property p (set c ps) = set c (push_back ps p)

unfoldable pub add_properties : List Property → Property → Property
unfolding add_property
add_properties [] s = s
add_properties (p ∷ ps) s = add_properties ps (add_property p s)

-- Property::addToPropertySet and PropertySet::addToPropertySet: the extended set, and the result as
-- the flag that the callers read it as.
module _ (t : Tahu) where
  open t use {PayloadSet, empty_set, add_property_to_set, add_nested_to_set}

  unfoldable mutual
    pub add_to_set : Bool → PayloadSet → Property → PayloadSet × Bool
    add_to_set birth out (plain c) =
        if c.dirty || birth
        then add_property_to_set out c.name c.data_type c.block c.size
        else (out, false)
    add_to_set birth out (set c ps) =
        let (nested, added) = add_all birth empty_set false ps in
        if added then add_nested_to_set out c.name nested else (out, false)

    -- The loop over the properties of a set, with `added |= …`.
    pub add_all : Bool → PayloadSet → Bool → Properties → PayloadSet × Bool
    add_all birth out added nil = (out, added)
    add_all birth out added (cons p ps) =
        let (out', one) = add_to_set birth out p in add_all birth out' (added || one) ps

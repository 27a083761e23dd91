-- ===== src/Object/Types.antt =====
-- src/rpc_object.c and src/internal.h: struct rpc_object as a tree of values. The children of a
-- container stand in lists of their own; `elements` and `entries` carry them to the library's lists.
use librpc.Base.{ℕ, ◌≡◌, refl, ap, Bool, Option, none, some, List, [], ◌∷◌, Bytes}
use librpc.Base.Int.{ℤ}

-- A double is its IEEE 754 bit pattern, a date its Unix time, a string the bytes before its NUL. A
-- dictionary is the list of its entries, whose order stands for nothing: GLib promises none.
mutual
  pub data Object : Type 0 where
    null : Object
    bool : Bool → Object
    uint64 : ℕ → Object
    int64 : ℤ → Object
    double : ℕ → Object
    date : ℤ → Object
    string : Bytes → Object
    binary : Bytes → Object
    fd : ℤ → Object
    dictionary : Fields → Object
    array : Items → Object
    shmem : ℤ → ℤ → ℕ → Object
    error : ℤ → Bytes → Object → Object → Object

  pub data Items : Type 0 where
    nil : Items
    cons : Object → Items → Items

  pub data Fields : Type 0 where
    end : Fields
    field : Bytes → Object → Fields → Fields

-- rpc_type_t
pub data ObjectType : Type 0 where
  null_type bool_type uint64_type int64_type double_type date_type string_type : ObjectType
  binary_type fd_type dictionary_type array_type shmem_type error_type : ObjectType

unfoldable pub type_of : Object → ObjectType
type_of null = null_type
type_of (bool _) = bool_type
type_of (uint64 _) = uint64_type
type_of (int64 _) = int64_type
type_of (double _) = double_type
type_of (date _) = date_type
type_of (string _) = string_type
type_of (binary _) = binary_type
type_of (fd _) = fd_type
type_of (dictionary _) = dictionary_type
type_of (array _) = array_type
type_of (shmem _ _ _) = shmem_type
type_of (error _ _ _ _) = error_type

-- rpc_get_type: a NULL pointer counts as the null type.
unfoldable pub get_type : Option Object → ObjectType
unfolding type_of
get_type none = null_type
get_type (some o) = type_of o

abbrev pub elements : Items → List Object
elements nil = []
elements (cons x xs) = x ∷ elements xs

abbrev pub items : List Object → Items
items [] = nil
items (x ∷ xs) = cons x (items xs)

abbrev pub entries : Fields → List (Bytes × Object)
entries end = []
entries (field k v fs) = (k, v) ∷ entries fs

abbrev pub fields : List (Bytes × Object) → Fields
fields [] = end
fields ((k, v) ∷ r) = field k v (fields r)

pub elements-items : (xs : List Object) → elements (items xs) ≡ xs
elements-items [] = refl
elements-items (x ∷ xs) = ap (λ r. x ∷ r) (elements-items xs)

pub items-elements : (xs : Items) → items (elements xs) ≡ xs
items-elements nil = refl
items-elements (cons x xs) = ap (cons x) (items-elements xs)

pub entries-fields : (es : List (Bytes × Object)) → entries (fields es) ≡ es
entries-fields [] = refl
entries-fields ((k, v) ∷ r) = ap (λ t. (k, v) ∷ t) (entries-fields r)

pub fields-entries : (fs : Fields) → fields (entries fs) ≡ fs
fields-entries end = refl
fields-entries (field k v fs) = ap (field k v) (fields-entries fs)

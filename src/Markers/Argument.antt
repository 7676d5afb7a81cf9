-- ===== src/Markers/Argument.antt =====
-- The argument types of pkg/markers/parse.go, and how Go types become argument types and back.
pub mod Types
use controller_tools.Prelude.{ℕ, Bool, true, false, ◌++◌, [], if◌then◌else◌}
use controller_tools.Prelude.Result.{Result, ok, err, ◌>>=◌}
use controller_tools.Text.{Text, codes}

-- `Argument` with its type: the item type of a slice or a map stands in `ArgumentType`.
mutual
  pub data ArgumentType : Type 0 where
    invalid int number string bool any raw : ArgumentType
    slice : Argument → ArgumentType
    map : Argument → ArgumentType

  -- The type, and whether the argument is optional and whether it is a pointer.
  pub data Argument : Type 0 where
    argument : ArgumentType → Bool → Bool → Argument

abbrev pub argument_type : Argument → ArgumentType
argument_type (argument t _ _) = t

abbrev pub optional : Argument → Bool
optional (argument _ o _) = o

abbrev pub pointer : Argument → Bool
pointer (argument _ _ p) = p

-- `typeString`
unfoldable mutual
  pub type_string : Argument → Text
  type_string (argument t o p) = (if p then codes "*" else []) ++ kind_string t

  pub kind_string : ArgumentType → Text
  kind_string invalid = codes "<invalid>"
  kind_string int = codes "int"
  kind_string number = codes "float64"
  kind_string string = codes "string"
  kind_string bool = codes "bool"
  kind_string any = codes "<any>"
  kind_string (slice item) = codes "[]" ++ type_string item
  kind_string (map item) = codes "map[string]" ++ type_string item
  kind_string raw = codes "<raw>"

-- `Argument.String`
unfoldable pub argument_string : Argument → Text
unfolding type_string
argument_string a =
    if optional a
    then codes "<optional arg " ++ (type_string a ++ codes ">")
    else codes "<arg " ++ (type_string a ++ codes ">")

-- The types of package reflect, as far as the markers tell them apart. `raw_arguments` is the type
-- `RawArguments`, `interface` the empty interface, and `other` a type of any further kind.
mutual
  pub data ReflectType : Type 0 where
    int int32 float64 string bool raw_arguments interface : ReflectType
    slice : ReflectType → ReflectType
    map : ReflectType → ReflectType → ReflectType
    pointer_to : ReflectType → ReflectType
    struct : GoFields → ReflectType
    other : ℕ → ReflectType

  -- The fields of a struct: the name, whether it is exported, what the tag gives for "marker" (with
  -- whether the key is there), and the type.
  pub data GoFields : Type 0 where
    end : GoFields
    field : Text → Bool → MarkerTag → ReflectType → GoFields → GoFields

  pub data MarkerTag : Type 0 where
    no_tag : MarkerTag
    tag : Text → MarkerTag

-- The errors of `ArgumentFromType`, `makeSliceType`, `makeMapType` and `loadFields`.
pub data TypeError : Type 0 where
  bad_item : TypeError → TypeError
  bad_map_key unsupported_kind bad_guessed_item raw_field : TypeError
  bad_field : Text → TypeError → TypeError

abbrev wrap : (TypeError → TypeError) → Result TypeError Argument → Result TypeError Argument
wrap f (ok a) = ok a
wrap f (err e) = err (f e)

-- `Key().Kind() == reflect.String`
unfoldable pub is_string_kind : ReflectType → Bool
is_string_kind string = true
is_string_kind _ = false

-- `ArgumentFromType`; the test says whether a pointer has been taken off the type already. Behind a
-- pointer `RawArguments` is a slice of bytes, and a byte is of no supported kind.
unfoldable pub argument_from : Bool → ReflectType → Result TypeError Argument
argument_from p raw_arguments =
    if p then err (bad_item unsupported_kind) else ok (argument raw false false)
argument_from p interface = if p then err unsupported_kind else ok (argument any false false)
argument_from p (pointer_to t) =
    let behind = argument_from true t in if p then err unsupported_kind else behind
argument_from p string = ok (argument string p p)
argument_from p int = ok (argument int p p)
argument_from p int32 = ok (argument int p p)
argument_from p float64 = ok (argument number p p)
argument_from p bool = ok (argument bool p p)
argument_from p (slice t) = do
  item ← wrap bad_item (argument_from false t)
  ok (argument (slice item) p p)
argument_from p (map k t) =
    let item = argument_from false t in
    if is_string_kind k
    then (do i ← wrap bad_item item; ok (argument (map i) p p))
    else err bad_map_key
argument_from p (struct fields) = err unsupported_kind
argument_from p (other k) = err unsupported_kind

unfoldable pub argument_from_type : ReflectType → Result TypeError Argument
unfolding argument_from is_string_kind
argument_from_type = argument_from false

abbrev pointer_if : Bool → ReflectType → ReflectType
pointer_if p t = if p then pointer_to t else t

-- `makeSliceType` and `makeMapType` share all but the item type `any`.
unfoldable mutual
  pub make_slice_type : Argument → Result TypeError ReflectType
  make_slice_type (argument t o p) = do item ← slice_item_type t; ok (slice (pointer_if p item))

  pub make_map_type : Argument → Result TypeError ReflectType
  make_map_type (argument t o p) = do item ← map_item_type t; ok (map string (pointer_if p item))

  -- The `switch` of `makeSliceType`.
  pub slice_item_type : ArgumentType → Result TypeError ReflectType
  slice_item_type int = ok int
  slice_item_type number = ok float64
  slice_item_type string = ok string
  slice_item_type bool = ok bool
  slice_item_type (slice item) = make_slice_type item
  slice_item_type (map item) = make_map_type item
  slice_item_type _ = err bad_guessed_item

  -- The `switch` of `makeMapType`.
  pub map_item_type : ArgumentType → Result TypeError ReflectType
  map_item_type int = ok int
  map_item_type number = ok float64
  map_item_type string = ok string
  map_item_type bool = ok bool
  map_item_type (slice item) = make_slice_type item
  map_item_type (map item) = make_map_type item
  map_item_type any = ok interface
  map_item_type _ = err bad_guessed_item

-- ===== src/Js/Json.antt =====
-- JSON values and objects as the source uses them: reading a property, assigning one, `{ ...a, ...b }`.
-- The properties of an object stand in the order in which they were first assigned.
pub mod Spread
pub mod Plain
use autospace_parking.Prelude.{
  String, Bool, Option, none, some, ◌≡◌, refl, arith, ◌==◌, eq_iff, if◌then◌else◌,
}
use autospace_parking.Js.Number.{Number}

-- `undefined` is what an absent property reads as; a property may also hold it.
mutual
  pub data Json : Type 0 where
    undefined null : Json
    bool : Bool → Json
    num : Number → Json
    str : String → Json
    arr : Items → Json
    obj : Object → Json

  pub data Items : Type 0 where
    nil : Items
    cons : Json → Items → Items

  pub data Object : Type 0 where
    end : Object
    field : String → Json → Object → Object

-- `o[k]`
unfoldable pub get : String → Object → Json
get k end = undefined
get k (field j v o) = if j == k then v else get k o

-- `o[k] = v`
unfoldable pub assign : String → Json → Object → Object
assign k v end = field k v end
assign k v (field j w o) = if j == k then field j v o else field j w (assign k v o)

-- `{ ...o, ...more }`
unfoldable pub spread : Object → Object → Object
unfolding assign
spread o end = o
spread o (field k v more) = spread (assign k v o) more

-- `const { [k]: _, ...rest } = o`
unfoldable pub without : String → Object → Object
without k end = end
without k (field j v o) = let rest = without k o in if j == k then rest else field j v rest

-- `typeof v === 'string' ? v : undefined`
abbrev pub as_string : Json → Option String
as_string (str s) = some s
as_string _ = none

pub get-assign :
    (k j : String) (v : Json) (o : Object) → get j (assign k v o) ≡ (if k == j then v else get j o)
unfolding get assign
get-assign k j v end = refl
get-assign k j v (field i w o) =
    ground (arith, eq_iff k j, eq_iff i k, eq_iff i j, get-assign k j v o)

pub get-without :
    (k j : String) (o : Object) → get j (without k o) ≡ (if k == j then undefined else get j o)
unfolding get without
get-without k j end = ground arith
get-without k j (field i w o) =
    ground (arith, eq_iff k j, eq_iff i k, eq_iff i j, get-without k j o)

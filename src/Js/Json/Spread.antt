-- ===== src/Js/Json/Spread.antt =====
-- `{ ...o, ...more }`: what each property of it reads as.
use autospace_parking.Prelude.{
  String, Bool, false, ◌||◌, ◌≡◌, refl, arith, ◌==◌, eq_iff, if◌then◌else◌, Bool-cases, inl, inr,
}
use autospace_parking.Js.Json.{Json, Object, end, field, get, assign, spread, without, get-assign}

-- `o` has a property `k`, whatever it holds.
abbrev pub has : String → Object → Bool
has k end = false
has k (field j v o) = j == k || has k o

-- No key stands twice, as in every object.
abbrev pub HasDistinctKeys : Object → Type 0
HasDistinctKeys end = Unit
HasDistinctKeys (field k v o) = (has k o ≡ false) × HasDistinctKeys o

pub get-spread :
    (j : String) (o more : Object)
    → HasDistinctKeys more
    → get j (spread o more) ≡ (if has j more then get j more else get j o)
unfolding get spread
get-spread j o end h = refl
get-spread j o (field k v more) h =
    ground (arith, eq_iff k j, h, get-assign k j v o, get-spread j (assign k v o) more h.1)

pub has-without :
    (k j : String) (o : Object) → has j (without k o) ≡ (if k == j then false else has j o)
unfolding without
has-without k j end = ground arith
has-without k j (field i v o) =
    ground (arith, eq_iff k j, eq_iff i k, eq_iff i j, has-without k j o)

pub without-HasDistinctKeys :
    (k : String) (o : Object) → HasDistinctKeys o → HasDistinctKeys (without k o)
unfolding without
without-HasDistinctKeys k end h = h
without-HasDistinctKeys k (field j v o) h = elim (Bool-cases (j == k)) [
  | inl same ↦ rw same (without-HasDistinctKeys k o h.1)
  | inr other ↦
      rw other (ground (arith, has-without k j o, eq_iff k j, h), without-HasDistinctKeys k o h.1)
]

pub has-assign : (k j : String) (v : Json) (o : Object) → has j (assign k v o) ≡ (k == j || has j o)
unfolding assign
has-assign k j v end = refl
has-assign k j v (field i w o) =
    ground (arith, eq_iff k j, eq_iff i k, eq_iff i j, has-assign k j v o)

pub assign-HasDistinctKeys :
    (k : String) (v : Json) (o : Object) → HasDistinctKeys o → HasDistinctKeys (assign k v o)
unfolding assign
assign-HasDistinctKeys k v end h = (refl, tt)
assign-HasDistinctKeys k v (field j w o) h = elim (Bool-cases (j == k)) [
  | inl same ↦ rw same h
  | inr other ↦ rw other (
    ground (arith, has-assign k j v o, eq_iff k j, eq_iff j k, h),
    assign-HasDistinctKeys k v o h.1,
  )
]

pub spread-HasDistinctKeys : (o more : Object) → HasDistinctKeys o → HasDistinctKeys (spread o more)
unfolding spread
spread-HasDistinctKeys o end h = h
spread-HasDistinctKeys o (field k v more) h =
    spread-HasDistinctKeys (assign k v o) more (assign-HasDistinctKeys k v o h)

-- ===== src/Com/Arrays.antt =====
-- comapi.go, `makeStringArray`: the C strings of a list.
use wslcsession.Base.{
  suc, ◌%◌, ◌^◌, ◌≡◌, ◌≢◌, refl, ap, ◌⊎◌, Bytes, List, [], ◌∷◌, ◌++◌, none, some, arith, ok, map,
  All, Lacks, length, contains-Lacks, >>=-ok,
}
use wslcsession.Com.Abi.{StringArray}
use wslcsession.Com.Api.{make_string_array, byte_ptrs}
use wslcsession.Strings.Pointers.{byte_ptr}

abbrev pub terminated : Bytes → Bytes
terminated s = s ++ 0 ∷ []

length-map : {A B : Type 0} (f : A → B) (xs : List A) → length (map f xs) ≡ length xs
length-map f [] = refl
length-map f (x ∷ xs) = ap suc (length-map f xs)

byte_ptr_sound : (s p : Bytes) → byte_ptr s ≡ ok p → Lacks 0 s × (p ≡ terminated s)
unfolding byte_ptr
byte_ptr_sound s p h = ground (arith, contains-Lacks 0 s)

byte_ptrs_sound :
    (items ps : List Bytes)
    → byte_ptrs items ≡ ok ps
    → All (Lacks 0) items × (ps ≡ map terminated items)
unfolding byte_ptrs
byte_ptrs_sound [] ps h = (tt, ground arith)
byte_ptrs_sound (s ∷ items) ps h =
    let (p, e, h') = >>=-ok (byte_ptr s) _ _ h in
    let (qs, e', h'') = >>=-ok (byte_ptrs items) _ _ h' in
    let (l, k) = byte_ptr_sound s p e in
    let (ls, ks) = byte_ptrs_sound items qs e' in ((l, ls), ground arith)

-- An array that is made holds each string of the list, in order, with a NUL behind it and none inside,
-- and the count of the list in 32 bits; the array of the empty list is a null pointer.
pub make_string_array_sound :
    (items : List Bytes) (a : StringArray)
    → make_string_array items ≡ ok a
    → All (Lacks 0) items
      × (a.count ≡ length items % 2 ^ 32)
      × (((items ≡ []) × (a.values ≡ none))
          ⊎ ((items ≢ []) × (a.values ≡ some (map terminated items))))
unfolding make_string_array
make_string_array_sound [] a h = ground arith
make_string_array_sound (s ∷ items) a h =
    let (ps, e, h') = >>=-ok (byte_ptrs (s ∷ items)) _ _ h in
    let (ls, k) = byte_ptrs_sound (s ∷ items) ps e in
    ground (arith, ls, length-map terminated items)

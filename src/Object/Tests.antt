-- ===== src/Object/Tests.antt =====
-- Object trees on which the statements about src/rpc_object.c are applied.
use librpc.Object.Copy.Compare.{cmp_zero}
use librpc.Object.Array.Parts.{slice_eq, slice_of}
use librpc.Object.Equal.Reflexive.{Comparable, equal_refl}
use librpc.Object.Copy.{cmp, hash}
use librpc.Object.Equal.{equal}
use librpc.Object.Types.{
  null, fd, nil, end, string, error, items, entries, uint64, elements, cons, field, array,
  dictionary, Fields, Object, Items,
}
use librpc.Object.Array.{array_slice}
use librpc.Object.Dictionary.{KeysDistinct, has_key}
use librpc.Object.Equal.Total.{equal-Returns, Returns}
use librpc.Base.{
  ◌^◌, ◌%◌, ◌↔◌, if◌then◌else◌, ◌≡◌, refl, some, none, codes, bytes_eq, length, arith, ok, true,
}
use librpc.Base.Int.{pos, negsuc, eqb_ℤ}
use librpc.Object.Platform.{Platform}

-- A machine with one file open, under every descriptor but -1.
abbrev pub test_platform : Platform
test_platform = record {
  fstat = λ n. if eqb_ℤ n (negsuc 0) then none else some (1, 7);
  string_hash = λ s. length s;
  double_to_size = λ d. d;
  backtrace = some (codes "main");
  regex_match = bytes_eq;
  fnmatch = bytes_eq;
}

abbrev three_numbers : Items
three_numbers = cons (uint64 1) (cons (uint64 2) (cons (uint64 3) nil))

abbrev host_fields : Fields
host_fields =
    field (codes "name") (string (codes "web")) (field (codes "ports") (array three_numbers) end)

-- A dictionary with an error in it, which carries a dictionary in turn.
abbrev report : Object
report = dictionary (
    field (codes "host") (dictionary host_fields)
      (field (codes "cause") (error (pos 5) (codes "io") (fd (pos 3)) null) end))

host_fields-KeysDistinct : KeysDistinct (entries host_fields)
unfolding has_key bytes_eq
host_fields-KeysDistinct = (refl, (refl, tt))

report-Comparable : Comparable test_platform report
unfolding has_key bytes_eq
report-Comparable = (
  (refl, (refl, tt)),
  ((host_fields-KeysDistinct, (tt, ((tt, (tt, (tt, tt))), tt))), (((1, 7), refl), tt)),
)

equal_refl_example : equal test_platform report report ≡ ok true
equal_refl_example = equal_refl test_platform report report-Comparable

equal-Returns_example : Returns (equal test_platform report (array three_numbers))
equal-Returns_example = equal-Returns test_platform report (array three_numbers)

slice_eq_example :
    (array_slice (array three_numbers) 1 (pos 1)
      ≡ ok (array (items (slice_of (elements three_numbers) 1 (pos 1)))))
    × (array_slice (array three_numbers) 1 (negsuc 0)
        ≡ ok (array (items (slice_of (elements three_numbers) 1 (negsuc 0)))))
slice_eq_example = slice_eq three_numbers 1 1 (omega arith)

-- Two numbers that differ by 2^32 have hashes of the same low bits.
cmp_zero_example :
    (cmp test_platform (uint64 1) (uint64 4294967297) ≡ ok (pos 0))
    ↔ (1 % 2 ^ 32 ≡ 4294967297 % 2 ^ 32)
unfolding hash
cmp_zero_example = cmp_zero test_platform (uint64 1) (uint64 4294967297) 1 4294967297 refl refl
